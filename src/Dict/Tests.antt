-- ===== src/Dict/Tests.antt =====
-- The dictionary on concrete keys.
use pwdmanlib.Base.{
  ◌>>=◌, ℕ, ◌≡◌, refl, true, false, if◌then◌else◌, some, none, List, [], ◌∷◌, ◌++◌, length, ltb,
  Bytes, codes, ok, get_elem?, ◌+◌, ◌/◌, arith,
}
use pwdmanlib.Dict.Invariant.{Change, set_change, remove_change, run, IsValid, run-IsValid}
use pwdmanlib.Dict.{Dict, init_dict, success, failure, set_tuple, get_tuple, remove_tuple, key_at}
use pwdmanlib.Dict.Assoc.{Bindings, has, insert}
use pwdmanlib.Dict.Refine.{of_bindings, set_tuple_refines}
use native.Mathlib.Nat.{ℕ_set}
use pwdmanlib.Dict.View.{set_all, set_all_order}
use pwdmanlib.Dict.Removal.{remove_tuple_loses_last}

abbrev user : Bytes
user = codes "user"

abbrev site : Bytes
site = codes "site"

abbrev one : Bindings ℕ
one = (user, some 7) ∷ []

set_tuple_refines_example : set_tuple (of_bindings 2 one) (some site) (some 9) ≡ (
    if has site one
    then ok (success, of_bindings 2 (insert site (some 9) one))
    else if ltb (length one) 2
    then ok (success, of_bindings 2 (insert site (some 9) one))
    else ok (failure, of_bindings 2 one))
set_tuple_refines_example = set_tuple_refines 2 site (some 9) one (omega arith)

remove_tuple_loses_last_example :
    (d : Dict ℕ) × (remove_tuple (of_bindings 2 (one ++ (site, some 9) ∷ [])) (some user)
      ≡ ok (success, d))
    × (key_at d.entries (length one) ≡ some site)
    × (get_tuple d (some site) ≡ ok none)
unfolding pwdmanlib.Base.strcmp has
remove_tuple_loses_last_example =
    remove_tuple_loses_last 2 user site (some 9) one refl refl (omega arith) (omega arith)

abbrev changes : List (Change ℕ)
changes =
    set_change (some user) (some 7)
    ∷ set_change none (some 8)
    ∷ set_change (some site) none
    ∷ remove_change (some user)
    ∷ set_change (some site) (some 9)
    ∷ []

run-IsValid_example :
    (d : Dict ℕ) × ((init_dict true true 2 >>= run changes) ≡ ok d) × IsValid d × (d.size ≡ 2)
run-IsValid_example = run-IsValid 2 changes (omega arith)

set_all_order_example :
    (d e : Dict ℕ) × ((init_dict true true 2 >>= set_all ((user, some 7) ∷ (site, some 9) ∷ []))
      ≡ ok d)
    × ((init_dict true true 2 >>= set_all ((site, some 9) ∷ (user, some 7) ∷ [])) ≡ ok e)
    × ((i : Bytes) → get_tuple d (some i) ≡ get_tuple e (some i))
set_all_order_example =
    set_all_order ℕ_set 2 [] [] user site (some 7) (some 9) (λ h. ground arith) (omega arith)
      (omega arith)
