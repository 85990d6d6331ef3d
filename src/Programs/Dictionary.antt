-- ===== src/Programs/Dictionary.antt =====
-- src/test/oop_test.c: the test of the dictionary. `read_file` is declared there and nowhere defined; the
-- texts of the two files are arguments.
use pwdmanlib.Base.{
  ℕ, zero, suc, ◌+◌, ◌^◌, ◌≤◌, ◌<◌, ◌≡◌, refl, ap, ◌∙◌, Bool, true, false, ◌||◌, if◌then◌else◌,
  Option, none, some, List, [], ◌∷◌, ◌++◌, length, length-append, append_assoc, get_elem?, Bytes,
  codes, strcmp, Result, ok, fault, null_pointer, out_of_bounds, dangling, ◌>>=◌, demand, arith,
}
use mathlib.Core.Option
use pwdmanlib.StringOps.{strsplit}
use pwdmanlib.Server.Strtol.{is_minus_one}
use pwdmanlib.Dict.{
  Dict, success, failure, init_dict, set_tuple, get_tuple, get_index, remove_tuple,
}
use pwdmanlib.Dict.Assoc.{Bindings, has, lookup, has-append, lookup-first}
use pwdmanlib.Dict.Refine.{
  of_bindings, init_dict-of_bindings, set_tuple-new, set_tuple-last, get_tuple_refines,
  get_index_refines,
}
use pwdmanlib.Dict.Removal.{remove_tuple_last}

-- What the test puts into the dictionary: strings, and a number in the place of a pointer.
pub data Val : Type 0 where
  text : Bytes → Val
  number : ℕ → Val

-- `printf("%s", val)`
print_text : Option (Option Val) → Result Bytes
print_text none = fault dangling
print_text (some none) = fault null_pointer
print_text (some (some (text s))) = ok s
print_text (some (some (number n))) = fault dangling

-- The status of the test, 255 for the -1, and the values that it printed as strings.
pub record TestReport : Type 0 where
  pub status : ℕ
  pub printed : List Bytes

abbrev given_up : List Bytes → TestReport
given_up printed = record { status = 255; printed = printed }

module _ (names strings : List (Option Bytes)) where
  -- The loop that fills the dictionary, from the last of so many lines to the first.
  fill_from : ℕ → Dict Val → Result (Dict Val)
  fill_from zero d = ok d
  fill_from (suc i) d = do
    name ← demand out_of_bounds (get_elem? names i)
    string ← demand out_of_bounds (get_elem? strings i)
    r ← set_tuple d name (Option.map text string)
    fill_from i r.1

-- The extended part: whether it fails, and the dictionary. The loop that reads the values back
-- changes nothing.
extended : (ℕ → ℕ) → Bytes → Bytes → Dict Val → Result (Bool × Dict Val)
unfolding fill_from
extended room names_buf strings_buf d = do
  names ← strsplit room names_buf (codes "\n")
  strings ← strsplit room strings_buf (codes "\n")
  filled ← fill_from names.cells strings.cells 50 d
  ok (is_minus_one names_buf || is_minus_one strings_buf, filled)

-- From the value of "foo" on.
read_foo : Dict Val → List Bytes → Result TestReport
unfolding print_text
read_foo d printed = get_tuple d (some (codes "foo")) >>= λ found.
    print_text found >>= λ s. ok (record { status = 0; printed = printed ++ s ∷ [] })

set_test2 : Dict Val → List Bytes → Result TestReport
unfolding read_foo
set_test2 d printed = set_tuple d (some (codes "test2")) (some (number 1)) >>= λ (status, after).
    elim status [ success ↦ read_foo after printed | failure ↦ ok (given_up printed) ]

-- The search for the key that was removed only prints its pointer.
remove_test : Dict Val → List Bytes → Result TestReport
unfolding set_test2
remove_test d printed = remove_tuple d (some (codes "test")) >>= λ (status, after). elim status [
  | success ↦ set_test2 after printed
  | failure ↦ ok (given_up printed)
]

-- The tests of these two calls look at the address of `val`.
set_both : Dict Val → List Bytes → Result TestReport
unfolding remove_test
set_both d printed =
    set_tuple d (some (codes "foo")) (some (text (codes "barbar"))) >>= λ (first, after).
    set_tuple after (some (codes "test")) (some (text (codes "value"))) >>= λ (second, last).
    remove_test last printed

-- What follows the extended part.
standard : Dict Val → Result TestReport
unfolding set_both print_text
standard d = set_tuple d (some (codes "foo")) (some (text (codes "bar"))) >>= λ (status, after).
    elim status [
      | success ↦ (print_text (get_index after 0) >>= λ s. set_both after (s ∷ []))
      | failure ↦ ok (given_up [])
    ]

-- `none` for the files where the extended part is left out.
unfoldable pub test_dictionary : (ℕ → ℕ) → Option (Bytes × Bytes) → Result TestReport
unfolding extended standard
test_dictionary room none = init_dict true true 100 >>= λ d. standard d
test_dictionary room (some (names_buf, strings_buf)) = init_dict true true 100 >>= λ d.
    extended room names_buf strings_buf d >>= λ (bad, filled).
    if bad then ok (given_up []) else standard filled

-- The words of the first argument, as `strtok_r` gives them, and whether one is the option.
is_extended : List Bytes → Bool
is_extended [] = false
is_extended (token ∷ tokens) = strcmp token (codes "--extended") || is_extended tokens

-- `main`, once the handlers are installed: the status of its `exit`, and what the test printed.
oop_test : (ℕ → ℕ) → List Bytes → Bytes → Bytes → Result TestReport
unfolding is_extended test_dictionary
oop_test room tokens names_buf strings_buf =
    test_dictionary room (if is_extended tokens then some (names_buf, strings_buf) else none)

-- The test passes on every dictionary that has none of its keys and room for two more, be it new or
-- filled: it prints the value of the key that came first, and the last value of "foo".
standard_passes :
    (size : ℕ) (m : Bindings Val) (s : Bytes)
    → size < 2 ^ 31
    → length m + 2 ≤ size
    → has (codes "foo") m ≡ false
    → has (codes "test") m ≡ false
    → has (codes "test2") m ≡ false
    → print_text
        (Option.map (λ b. b.1) (get_elem? (m ++ (codes "foo", some (text (codes "bar"))) ∷ []) 0))
      ≡ ok s
    → standard (of_bindings size m) ≡ ok (record { status = 0; printed = s ∷ codes "barbar" ∷ [] })
unfolding standard set_both remove_test set_test2 read_foo has strcmp print_text
standard_passes size m s small room new_foo new_test new_test2 first =
    let foo : Bindings Val = (codes "foo", some (text (codes "barbar"))) ∷ [] in
    let longer : length (m ++ foo) ≡ length m + 1 = length-append m foo in
    let no_test : has (codes "test") (m ++ foo) ≡ false =
      has-append (codes "test") m foo ∙ rw new_test refl in
    let no_test2 : has (codes "test2") (m ++ foo) ≡ false =
      has-append (codes "test2") m foo ∙ rw new_test2 refl in
    let found : lookup (codes "foo") ((m ++ foo) ++ (codes "test2", some (number 1)) ∷ [])
        ≡ some (some (text (codes "barbar"))) =
      ap (lookup (codes "foo")) (append_assoc m foo ((codes "test2", some (number 1)) ∷ []))
      ∙ lookup-first (codes "foo") (some (text (codes "barbar"))) m
          ((codes "test2", some (number 1)) ∷ []) new_foo in
    let removed =
      remove_tuple_last size (codes "test") (some (text (codes "value"))) (m ++ foo) no_test
        (omega (arith, longer)) (omega (arith, longer)) in
    rw
      (
        set_tuple-new size (codes "foo") (some (text (codes "bar"))) m (omega arith) new_foo
            (omega arith),
        get_index_refines size 0 (m ++ (codes "foo", some (text (codes "bar"))) ∷ []),
        first,
        set_tuple-last size (codes "foo") (some (text (codes "bar"))) (some (text (codes "barbar")))
            m (omega arith) new_foo,
        set_tuple-new size (codes "test") (some (text (codes "value"))) (m ++ foo)
            (omega (arith, longer)) no_test (omega (arith, longer)),
        remove_test,
        removed,
        set_test2,
        set_tuple-new size (codes "test2") (some (number 1)) (m ++ foo) (omega (arith, longer))
            no_test2 (omega (arith, longer)),
        read_foo,
        get_tuple_refines size (codes "foo") ((m ++ foo) ++ (codes "test2", some (number 1)) ∷ []) (
            omega
              (arith, longer, length-append (m ++ foo) ((codes "test2", some (number 1)) ∷ []))),
        found,
      )
      refl

-- Without the extended part the test passes.
test_dictionary_passes :
    (room : ℕ → ℕ)
    → test_dictionary room none
      ≡ ok (record { status = 0; printed = codes "bar" ∷ codes "barbar" ∷ [] })
unfolding test_dictionary has print_text
test_dictionary_passes room =
    rw (init_dict-of_bindings {V = Val} 100)
      (standard_passes 100 [] (codes "bar") (omega arith) (omega arith) refl refl refl refl)
