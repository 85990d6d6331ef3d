-- ===== src/Dict/Termination.antt =====
-- `setTuple` and `initDict` end.
use pwdmanlib.Base.{
  ℕ, ◌≡◌, refl, true, ltb, Option, Bytes, out_of_bounds, Ends, ok-Ends, fault-Ends, if-Ends, zero,
  suc,
}
use pwdmanlib.Vector.{CInt, pos, negsuc}
use pwdmanlib.Dict.{
  Dict, success, failure, init_dict, find_key, first_free, store, set_val, set_tuple,
}

module _ {ℓ} {V : Type ℓ} where
  store-Ends : (d : Dict V) (i : ℕ) (key : Option Bytes) (val : Option V) → Ends (store d i key val)
  unfolding store
  store-Ends d i key val = if-Ends (ltb i d.size) _ _ (ok-Ends _) (fault-Ends out_of_bounds)

  pub set_tuple-Ends :
      (d : Dict V) (key : Option Bytes) (val : Option V) → Ends (set_tuple d key val)
  unfolding set_tuple
  set_tuple-Ends d key val = by (find_key d key) refl
    where
      by : (found : CInt) → find_key d key ≡ found → Ends (set_tuple d key val)
      by (negsuc (suc k)) e = rw (set_tuple, e) (fault-Ends out_of_bounds)
      by (pos i) e =
          rw (set_tuple, e) (ok-Ends (success, record d { entries = set_val d.entries i val }))
      by (negsuc zero) e =
          rw (set_tuple, e)
            (if-Ends (ltb d.counter d.size) _ _ (store-Ends d (first_free d.entries 0) key val)
              (ok-Ends (failure, d)))

  pub init_dict-Ends : (size : ℕ) → Ends (init_dict {V = V} true true size)
  unfolding init_dict
  init_dict-Ends size = ok-Ends _
