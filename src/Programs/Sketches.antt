-- ===== src/Programs/Sketches.antt =====
-- src/test/oop_test.c: `test_modules`, with the module of src/util/oop.h; and src/test/nullptrs.c.
use pwdmanlib.Base.{ℕ, ◌≡◌, refl, Option, none, some, Bytes, codes, ◌++◌}
use pwdmanlib.Vector.{CInt, pos}

-- `struct Module_struct`, from `calloc`.
record Module : Type 0 where
  pub element : CInt

module_create : Module
module_create = record { element = pos 0 }

module_get_element : Module → CInt
module_get_element m = m.element

module_set_element : Module → CInt → Module
module_set_element m e = record { element = e }

-- The functions are declared in the test, which calls none of them.
test_modules : CInt
test_modules = pos 0

-- The accessor gives what the modifier was given last, and 0 before.
module_get_element-set :
    (m : Module) (e f : CInt)
    → (module_get_element module_create ≡ pos 0)
      × (module_get_element (module_set_element (module_set_element m e) f) ≡ f)
unfolding module_create module_get_element module_set_element
module_get_element-set m e f = (refl, refl)

-- A line about a pointer; NULL is `none`.
say : Bytes → Option ℕ → Bytes
say name none = name ++ codes " is null\n"
say name (some p) = name ++ codes " is not null\n"

-- `garbage` is what the first pointer holds, which is never set. The others are all NULL, the second
-- and the third from a zero character.
nullptrs : Option ℕ → Bytes
unfolding say
nullptrs garbage =
    say (codes "ptr1") garbage
    ++ (say (codes "ptr2") none
        ++ (say (codes "ptr3") none ++ (say (codes "ptr4") none ++ codes "done")))

-- What is printed about the other three does not depend on it.
nullptrs_lem :
    (garbage : Option ℕ)
    → nullptrs garbage
      ≡ say (codes "ptr1") garbage ++ codes "ptr2 is null\nptr3 is null\nptr4 is null\ndone"
unfolding nullptrs say
nullptrs_lem none = refl
nullptrs_lem (some p) = refl
