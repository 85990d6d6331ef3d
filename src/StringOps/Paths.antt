-- ===== src/StringOps/Paths.antt =====
-- `joinPath` and `readFile`.
use mathlib.Core.List.{concat-ne-nil}
use pwdmanlib.Base.{
  ℕ, ◌≤◌, ◌≡◌, ◌≢◌, refl, ap, true, false, none, some, [], ◌∷◌, ◌++◌, append_assoc, Bytes, codes,
  strcmp, c_str, ok, leb, arith,
}
use pwdmanlib.Vector.{negsuc}
use pwdmanlib.StringOps.{
  is_empty, join_both, join_path, File, absent, no_seek, no_tell, no_rewind, no_read, readable,
  read_file, itoa, itoa_digits, magnitude, inwards, swap,
}

is_empty-ne : (s : Bytes) → s ≢ [] → is_empty s ≡ false
unfolding is_empty
is_empty-ne [] ne = absurd (ne refl)
is_empty-ne (c ∷ s) ne = refl

-- Joining a directory that ends in the separator to a path doubles the separator: the test for it
-- looks at the terminator of the directory, never at its last byte.
join_path_doubles :
    (dir path : Bytes)
    → path ≢ []
    → join_path (some (dir ++ b'/' ∷ [])) (some path) ≡ ok (dir ++ codes "//" ++ path)
unfolding join_path join_both strcmp
join_path_doubles dir path ne =
    rw (is_empty-ne path ne, is_empty-ne (dir ++ b'/' ∷ []) (concat-ne-nil b'/' dir))
      (ap (λ s. ok (s ++ path)) (append_assoc dir (b'/' ∷ []) (b'/' ∷ [])))

module _ (room : ℕ → ℕ) (grants : (n : ℕ) → n ≤ room n) where
  minus_one : itoa room (negsuc 0) 10 ≡ ok (codes "-1")
  unfolding itoa itoa_digits magnitude inwards swap
  minus_one = let fits : leb 3 (room 4) ≡ true = ground (arith, grants 4) in rw fits

  -- `readFile` never faults. It returns the string "-1" for the errors after the file is open and its
  -- end is found, and NULL for a file that cannot be opened or whose end cannot be found.
  read_file_errors :
      (f : File)
      → read_file room f
        ≡ ok (elim f [
          | absent ↦ none
          | no_seek ↦ none
          | readable bytes ↦ some (c_str bytes)
          | _ ↦ some (codes "-1")
        ])
  unfolding read_file
  read_file_errors absent = refl
  read_file_errors no_seek = refl
  read_file_errors no_tell = rw minus_one
  read_file_errors no_rewind = rw minus_one
  read_file_errors no_read = rw minus_one
  read_file_errors (readable bytes) = refl
