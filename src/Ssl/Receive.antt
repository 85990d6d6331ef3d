-- ===== src/Ssl/Receive.antt =====
-- What `readall` stores, and what it returns.
use pwdmanlib.Base.{
  ℕ, suc, ◌+◌, ◌≤◌, ◌<◌, ◌≡◌, refl, sym, ap, ap₂, ◌∙◌, false, ltb, lt→ltb, if◌then◌else◌, List, [],
  ◌∷◌, ◌++◌, map, length, length-append, All, Bytes, ok, fault, out_of_bounds, append_assoc,
  append-nil, arith, spin,
}
use pwdmanlib.Vector.{pos, negsuc}
use pwdmanlib.Ssl.{Read, got, failed, read_loop, readall, sock_buff_max_read}

abbrev pub concat : List Bytes → Bytes
concat [] = []
concat (chunk ∷ chunks) = chunk ++ concat chunks

read_loop_cons :
    (room c : ℕ) (s : Bytes) (results : List Read) (buf : Bytes)
    → length buf + suc (length s) ≤ room
    → room ≤ sock_buff_max_read
    → read_loop room (got (c ∷ s) ∷ results) buf ≡ read_loop room results (buf ++ c ∷ s)
read_loop_cons room c s results buf h h' =
    unfold read_loop in
    ap₂
      (λ a b.
        if a
        then fault out_of_bounds
        else if b
        then ok (pos 0, buf ++ c ∷ s)
        else read_loop room results (buf ++ c ∷ s))
      {x = ltb room (length buf + length (c ∷ s))} {y = false}
      {u = ltb sock_buff_max_read (length buf + length (c ∷ s))} {v = false} (ground arith)
      (ground arith)

abbrev pub IsChunk : Bytes → Type 0
IsChunk s = 0 < length s

read_loop-chunks :
    (room : ℕ) (chunks : List Bytes) (results : List Read) (buf : Bytes)
    → All IsChunk chunks
    → length buf + length (concat chunks) ≤ room
    → room ≤ sock_buff_max_read
    → read_loop room (map got chunks ++ results) buf ≡ read_loop room results (buf ++ concat chunks)
read_loop-chunks room [] results buf h k m = ap (read_loop room results) (sym (append-nil buf))
read_loop-chunks room ([] ∷ chunks) results buf (h, hs) k m = absurd (omega arith)
read_loop-chunks room ((c ∷ s) ∷ chunks) results buf (h, hs) k m =
    read_loop_cons room c s (map got chunks ++ results) buf
      (omega (arith, length-append (c ∷ s) (concat chunks))) m
    ∙ read_loop-chunks room chunks results (buf ++ c ∷ s) hs
        (omega (arith, length-append (c ∷ s) (concat chunks), length-append buf (c ∷ s))) m
    ∙ ap (read_loop room results) (append_assoc buf (c ∷ s) (concat chunks))

read_loop-end :
    (room : ℕ) (results : List Read) (buf : Bytes)
    → length buf ≤ room
    → room ≤ sock_buff_max_read
    → read_loop room (got [] ∷ results) buf ≡ ok (pos 0, buf)
read_loop-end room results buf h k =
    unfold read_loop in
    ap₂
      (λ a b.
        if a then fault out_of_bounds else if b then ok (pos 0, buf ++ []) else ok (pos 0, buf))
      {x = ltb room (length buf + 0)} {y = false} {u = ltb sock_buff_max_read (length buf + 0)}
      {v = false} (ground arith) (ground arith)

read_loop-overflows :
    (room : ℕ) (s : Bytes) (results : List Read) (buf : Bytes)
    → room < length buf + length s
    → read_loop room (got s ∷ results) buf ≡ fault out_of_bounds
read_loop-overflows room s results buf h =
    unfold read_loop in (rw (lt→ltb room (length buf + length s) h) refl)

-- Reads that each bring something, and together no more than a buffer that is not longer than the
-- bound of the code, are stored one after the other: at the end of the data `readall` returns 0 with
-- them in the buffer, and at an error it returns that error with what came before it.
pub readall_stores :
    (room : ℕ) (chunks : List Bytes) (results : List Read) (k : ℕ)
    → All IsChunk chunks
    → length (concat chunks) ≤ room
    → room ≤ sock_buff_max_read
    → (readall room (map got chunks ++ got [] ∷ results) ≡ ok (pos 0, concat chunks))
      × (readall room (map got chunks ++ failed k ∷ results) ≡ ok (negsuc k, concat chunks))
readall_stores room chunks results k h l m = (
  (unfold readall in
      read_loop-chunks room chunks (got [] ∷ results) [] h (omega arith) m
      ∙ read_loop-end room results (concat chunks) l m),
  (unfold readall in
      read_loop-chunks room chunks (failed k ∷ results) [] h (omega arith) m
      ∙ (unfold read_loop in refl)),
)

-- Without an end of the data or an error behind such reads, `readall` goes on waiting.
pub readall_waits :
    (room : ℕ) (chunks : List Bytes)
    → All IsChunk chunks
    → length (concat chunks) ≤ room
    → room ≤ sock_buff_max_read
    → readall room (map got chunks) ≡ spin
readall_waits room chunks h l m =
    unfold readall in
    ap (λ reads. read_loop room reads []) (sym (append-nil (map got chunks)))
    ∙ read_loop-chunks room chunks [] [] h (omega arith) m
    ∙ (unfold read_loop in refl)

-- A read that brings more than what is left of such a buffer writes past its end, although `readall`
-- tests the number of bytes: it tests it against 6291456, whatever the buffer holds.
readall_overflows :
    (room : ℕ) (chunks : List Bytes) (s : Bytes) (results : List Read)
    → All IsChunk chunks
    → length (concat chunks) ≤ room
    → room ≤ sock_buff_max_read
    → room < length (concat chunks) + length s
    → readall room (map got chunks ++ got s ∷ results) ≡ fault out_of_bounds
readall_overflows room chunks s results h l m o =
    unfold readall in
    read_loop-chunks room chunks (got s ∷ results) [] h (omega arith) m
    ∙ read_loop-overflows room s results (concat chunks) o
