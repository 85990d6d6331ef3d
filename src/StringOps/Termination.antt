-- ===== src/StringOps/Termination.antt =====
-- The loops of `strsplit` and `readFile` end.
use pwdmanlib.Base.{
  ℕ, ◌≢◌, leb, Bytes, [], out_of_bounds, Ends, ok-Ends, fault-Ends, if-Ends, bind-Ends,
  guarded-Ends, ◌≤◌,
}
use pwdmanlib.Vector.{negsuc}
use pwdmanlib.StringOps.{
  File, absent, no_seek, no_tell, no_rewind, no_read, readable, strsplit, itoa, itoa_digits,
  magnitude, inwards, swap, read_file,
}
use pwdmanlib.StringOps.Split.{strsplit-IsSplit}

module _ (room : ℕ → ℕ) (given : (n : ℕ) → n ≤ room n) where
  pub strsplit-Ends : (str d : Bytes) → d ≢ [] → Ends (strsplit room str d)
  strsplit-Ends str d ne =
      let (ts, last, split, e) = strsplit-IsSplit room given str d ne in
      rw e (if-Ends _ _ _ (ok-Ends _) (fault-Ends out_of_bounds))

  itoa-Ends : Ends (itoa room (negsuc 0) 10)
  unfolding itoa itoa_digits magnitude inwards swap
  itoa-Ends = guarded-Ends (leb 3 (room 4)) _ _ (ok-Ends _)

  pub read_file-Ends : (f : File) → Ends (read_file room f)
  unfolding read_file
  read_file-Ends absent = ok-Ends _
  read_file-Ends no_seek = ok-Ends _
  read_file-Ends no_tell = bind-Ends _ _ itoa-Ends (λ s. ok-Ends _)
  read_file-Ends no_rewind = bind-Ends _ _ itoa-Ends (λ s. ok-Ends _)
  read_file-Ends no_read = bind-Ends _ _ itoa-Ends (λ s. ok-Ends _)
  read_file-Ends (readable bytes) = ok-Ends _
