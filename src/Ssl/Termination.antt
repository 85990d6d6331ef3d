-- ===== src/Ssl/Termination.antt =====
-- The two transfers and the handshake of the server end, where the connection does.
use pwdmanlib.Base.{
  ℕ, ◌+◌, ◌-◌, ◌≤◌, List, [], ◌∷◌, ◌++◌, Bytes, out_of_bounds, Ends, ok-Ends, fault-Ends, if-Ends,
  arith, le→ltb, subst,
}
use pwdmanlib.Vector.{CInt, pos, negsuc}
use pwdmanlib.Ssl.{Read, got, failed, read_loop, readall, sent, send_loop, sendall}

-- The reads come to the end of the data or to an error.
abbrev pub Closes : List Read → Type 0
Closes [] = ⊥
Closes (failed k ∷ reads) = Unit
Closes (got [] ∷ reads) = Unit
Closes (got (c ∷ s) ∷ reads) = Closes reads

-- The writes take so many bytes, or come to an error.
abbrev pub Drains : List CInt → ℕ → Type 0
Drains [] n = n ≤ 0
Drains (negsuc k ∷ writes) n = Unit
Drains (pos m ∷ writes) n = Drains writes (n - m)

read_loop-Ends :
    (room : ℕ) (reads : List Read) (buf : Bytes) → Closes reads → Ends (read_loop room reads buf)
unfolding read_loop
read_loop-Ends room [] buf h = absurd h
read_loop-Ends room (failed k ∷ reads) buf h = ok-Ends _
read_loop-Ends room (got [] ∷ reads) buf h =
    if-Ends _ _ _ (fault-Ends out_of_bounds) (if-Ends _ _ _ (ok-Ends _) (ok-Ends _))
read_loop-Ends room (got (c ∷ s) ∷ reads) buf h =
    if-Ends _ _ _ (fault-Ends out_of_bounds)
      (if-Ends _ _ _ (ok-Ends _) (read_loop-Ends room reads (buf ++ c ∷ s) h))

pub readall-Ends : (room : ℕ) (reads : List Read) → Closes reads → Ends (readall room reads)
unfolding readall
readall-Ends room reads h = read_loop-Ends room reads [] h

module _ (buf : Bytes) (len : ℕ) where
  send_loop-Ends :
      (writes : List CInt) (total : ℕ) (n : CInt) (wire : Bytes)
      → Drains writes (len - total)
      → Ends (send_loop buf len writes total n wire)
  unfolding send_loop sent
  send_loop-Ends [] total n wire h = rw (le→ltb total len (omega (arith, h))) (ok-Ends _)
  send_loop-Ends (negsuc k ∷ writes) total n wire h = if-Ends _ _ _ (ok-Ends _) (ok-Ends _)
  send_loop-Ends (pos m ∷ writes) total n wire h =
      if-Ends _ _ _
        (send_loop-Ends writes (total + m) (pos m) _ (subst (Drains writes) (omega arith) h))
        (ok-Ends _)

pub sendall-Ends :
    (writes : List CInt) (buf : Bytes) (len : ℕ) → Drains writes len → Ends (sendall writes buf len)
unfolding sendall
sendall-Ends writes buf len h =
    send_loop-Ends buf len writes 0 (negsuc 0) [] (subst (Drains writes) (omega arith) h)
