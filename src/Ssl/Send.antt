-- ===== src/Ssl/Send.antt =====
-- What `sendall` sends, and what it returns.
use pwdmanlib.Base.{
  ℕ, zero, suc, ◌+◌, ◌-◌, ◌≤◌, ◌<◌, ◌≡◌, refl, sym, ap, ap₂, subst, ◌∙◌, false, ltb, lt→ltb,
  if◌then◌else◌, List, [], ◌∷◌, ◌++◌, map, take, drop, Bytes, ok, spin, append_assoc, append-nil,
  arith, replicate, Yields, Bool, true,
}
use pwdmanlib.Vector.{CInt, pos, negsuc}
use pwdmanlib.Ssl.{status_of, sent, send_loop, sendall}

ltb_irrefl : (n : ℕ) → ltb n n ≡ false
ltb_irrefl n = ground arith

take-nil : (k : ℕ) → take {A = ℕ} k [] ≡ []
take-nil zero = refl
take-nil (suc k) = refl

drop-nil : (k : ℕ) → drop {A = ℕ} k [] ≡ []
drop-nil zero = refl
drop-nil (suc k) = refl

take-add : (m n : ℕ) (xs : Bytes) → take m xs ++ take n (drop m xs) ≡ take (m + n) xs
take-add zero n xs = ap (λ k. take k xs) {x = n} {y = 0 + n} (omega arith)
take-add (suc m) n [] = take-nil n ∙ sym (take-nil (suc m + n))
take-add (suc m) n (x ∷ xs) =
    ap (λ ys. x ∷ ys) (take-add m n xs)
    ∙ ap (λ k. take k (x ∷ xs)) {x = suc (m + n)} {y = suc m + n} (omega arith)

drop-add : (m n : ℕ) (xs : Bytes) → drop n (drop m xs) ≡ drop (m + n) xs
drop-add zero n xs = ap (λ k. drop k xs) {x = n} {y = 0 + n} (omega arith)
drop-add (suc m) n [] = drop-nil n ∙ sym (drop-nil (suc m + n))
drop-add (suc m) n (x ∷ xs) =
    drop-add m n xs ∙ ap (λ k. drop k (x ∷ xs)) {x = suc (m + n)} {y = suc m + n} (omega arith)

-- Writes that `SSL_write` may make of `left` bytes: each takes some, and none too many.
abbrev pub Complies : List ℕ → ℕ → Type 0
Complies [] left = Unit
Complies (n ∷ ns) left = (0 < n) × (n ≤ left) × Complies ns (left - n)

abbrev pub total_of : List ℕ → ℕ
total_of [] = 0
total_of (n ∷ ns) = n + total_of ns

-- `n` after those writes.
abbrev last_of : CInt → List ℕ → CInt
last_of n [] = n
last_of n (m ∷ ms) = last_of (pos m) ms

last_of-status_of : (m : ℕ) (ms : List ℕ) → status_of (last_of (pos m) ms) ≡ pos 0
unfolding status_of
last_of-status_of m [] = refl
last_of-status_of m (k ∷ ms) = last_of-status_of k ms

send_loop_cons :
    (buf : Bytes) (len m : ℕ) (results : List CInt) (total : ℕ) (n : CInt) (wire : Bytes)
    → total < len
    → send_loop buf len (pos m ∷ results) total n wire
      ≡ send_loop buf len results (total + m) (pos m) (wire ++ take m (drop total buf))
send_loop_cons buf len m results total n wire h =
    unfold send_loop in
    ap
      (λ b.
        if b
        then send_loop buf len results (total + m) (pos m) (wire ++ take m (drop total buf))
        else sent buf len total n wire)
      (lt→ltb total len h)

-- The loop passes over writes that comply.
send_loop-writes :
    (buf : Bytes) (len : ℕ) (ns : List ℕ) (results : List CInt) (total : ℕ) (n : CInt)
    (wire : Bytes)
    → Complies ns (len - total)
    → send_loop buf len (map pos ns ++ results) total n wire
      ≡ send_loop buf len results
          (total + total_of ns)
          (last_of n ns)
          (wire ++ take (total_of ns) (drop total buf))
send_loop-writes buf len [] results total n wire h =
    ap (λ t. send_loop buf len results t n wire) {x = total} {y = total + 0} (omega arith)
    ∙ ap (send_loop buf len results (total + 0) n) (sym (append-nil wire))
send_loop-writes buf len (m ∷ ns) results total n wire (h0, h1, h) =
    send_loop_cons buf len m (map pos ns ++ results) total n wire (omega arith)
    ∙ send_loop-writes buf len ns results (total + m) (pos m) (wire ++ take m (drop total buf))
        (subst (Complies ns) {x = len - total - m} {y = len - (total + m)} (omega arith) h)
    ∙ ap
        (λ t.
          send_loop buf len results t (last_of (pos m) ns)
            (wire ++ take m (drop total buf) ++ take (total_of ns) (drop (total + m) buf)))
        {x = total + m + total_of ns} {y = total + (m + total_of ns)} (omega arith)
    ∙ ap (send_loop buf len results (total + (m + total_of ns)) (last_of (pos m) ns)) (
        append_assoc wire (take m (drop total buf)) (take (total_of ns) (drop (total + m) buf))
        ∙ ap (λ w. wire ++ w)
            (ap (λ d. take m (drop total buf) ++ take (total_of ns) d) (sym (drop-add total m buf))
              ∙ take-add m (total_of ns) (drop total buf)))

sendall_loop :
    (results : List CInt) (buf : Bytes) (len : ℕ)
    → sendall results buf len ≡ send_loop buf len results 0 (negsuc 0) []
sendall_loop results buf len = unfold sendall in refl

send_loop_end :
    (buf : Bytes) (len : ℕ) (results : List CInt) (n : CInt) (wire : Bytes)
    → send_loop buf len results len n wire ≡ sent buf len len n wire
send_loop_end buf len [] n wire =
    unfold send_loop in ap (λ b. if b then spin else sent buf len len n wire) (ltb_irrefl len)
send_loop_end buf len (negsuc k ∷ results) n wire =
    unfold send_loop in
    ap (λ b. if b then sent buf len len (negsuc k) wire else sent buf len len n wire)
      (ltb_irrefl len)
send_loop_end buf len (pos m ∷ results) n wire =
    unfold send_loop in
    ap
      (λ b.
        if b
        then send_loop buf len results (len + m) (pos m) (wire ++ take m (drop len buf))
        else sent buf len len n wire)
      (ltb_irrefl len)

send_loop-fails :
    (buf : Bytes) (len k : ℕ) (results : List CInt) (total : ℕ) (n : CInt) (wire : Bytes)
    → total < len
    → send_loop buf len (negsuc k ∷ results) total n wire ≡ sent buf len total (negsuc k) wire
send_loop-fails buf len k results total n wire h =
    unfold send_loop in
    ap (λ b. if b then sent buf len total (negsuc k) wire else sent buf len total n wire)
      (lt→ltb total len h)

send_loop-zeros :
    (buf : Bytes) (len k total : ℕ) (n : CInt) (wire : Bytes)
    → total < len
    → send_loop buf len (replicate k (pos 0)) total n wire ≡ spin
send_loop-zeros buf len zero total n wire h =
    unfold send_loop in ap (λ b. if b then spin else sent buf len total n wire) (lt→ltb total len h)
send_loop-zeros buf len (suc k) total n wire h =
    send_loop_cons buf len 0 (replicate k (pos 0)) total n wire h
    ∙ send_loop-zeros buf len k (total + 0) (pos 0) (wire ++ take 0 (drop total buf)) (omega arith)

-- When `SSL_write` takes the whole of a buffer that is not empty, in whatever portions, `sendall`
-- returns 0 with the length unchanged, and exactly the first `len` bytes have gone out in their order.
pub sendall_complete :
    (buf : Bytes) (len n : ℕ) (ns : List ℕ)
    → Complies (n ∷ ns) len
    → total_of (n ∷ ns) ≡ len
    → sendall (map pos (n ∷ ns)) buf len
      ≡ ok (record { status = pos 0; len = len; wire = take len buf })
sendall_complete buf len n ns h e =
    sendall_loop (map pos (n ∷ ns)) buf len
    ∙ ap (λ r. send_loop buf len r 0 (negsuc 0) []) (sym (append-nil (map pos (n ∷ ns))))
    ∙ send_loop-writes buf len (n ∷ ns) [] 0 (negsuc 0) []
        (subst (Complies (n ∷ ns)) {x = len} {y = len - 0} (omega arith) h)
    ∙ ap (λ t. send_loop buf len [] t (last_of (pos n) ns) (take (n + total_of ns) buf))
        {x = 0 + (n + total_of ns)} {y = len} (omega arith)
    ∙ send_loop_end buf len [] (last_of (pos n) ns) (take (n + total_of ns) buf)
    ∙ (unfold sent in
        ap₂ (λ k t. ok (record { status = k; len = len; wire = take t buf }))
          (last_of-status_of n ns) e)

-- When a write fails before the buffer is through, `sendall` returns the error of that write, sets the
-- length to the number of bytes sent before it, and exactly those bytes have gone out.
pub sendall_fails :
    (buf : Bytes) (len k : ℕ) (ns : List ℕ) (results : List CInt)
    → Complies ns len
    → total_of ns < len
    → sendall (map pos ns ++ negsuc k ∷ results) buf len
      ≡ ok (record { status = negsuc k; len = total_of ns; wire = take (total_of ns) buf })
sendall_fails buf len k ns results h e =
    sendall_loop (map pos ns ++ negsuc k ∷ results) buf len
    ∙ send_loop-writes buf len ns (negsuc k ∷ results) 0 (negsuc 0) []
        (subst (Complies ns) {x = len} {y = len - 0} (omega arith) h)
    ∙ send_loop-fails buf len k results (0 + total_of ns) (last_of (negsuc 0) ns)
        (take (total_of ns) buf) (omega arith)
    ∙ (unfold sent status_of in
        ap (λ t. ok (record { status = negsuc k; len = t; wire = take (total_of ns) buf }))
          {x = 0 + total_of ns} {y = total_of ns} (omega arith))

-- After any portions that do not complete the buffer, writes that return 0 keep `sendall` in its loop,
-- however many of them there are.
pub sendall_zero_writes :
    (buf : Bytes) (len k : ℕ) (ns : List ℕ)
    → Complies ns len
    → total_of ns < len
    → sendall (map pos ns ++ replicate k (pos 0)) buf len ≡ spin
sendall_zero_writes buf len k ns h e =
    sendall_loop (map pos ns ++ replicate k (pos 0)) buf len
    ∙ send_loop-writes buf len ns (replicate k (pos 0)) 0 (negsuc 0) []
        (subst (Complies ns) {x = len} {y = len - 0} (omega arith) h)
    ∙ send_loop-zeros buf len k (0 + total_of ns) (last_of (negsuc 0) ns) (take (total_of ns) buf)
        (omega arith)

-- For an empty buffer `sendall` writes nothing and returns -1, the code of a failure.
sendall_empty :
    (results : List CInt) (buf : Bytes)
    → sendall results buf 0 ≡ ok (record { status = negsuc 0; len = 0; wire = [] })
sendall_empty results buf =
    sendall_loop results buf 0
    ∙ send_loop_end buf 0 results (negsuc 0) []
    ∙ (unfold sent status_of in refl)

send_loop-prefix :
    (buf : Bytes) (len : ℕ) (results : List CInt) (total : ℕ) (n : CInt) (wire : Bytes)
    → wire ≡ take total buf
    → Yields (λ s. s.wire ≡ take s.len buf) (send_loop buf len results total n wire)
unfolding send_loop sent
send_loop-prefix buf len [] total n wire h = by (ltb total len)
  where
    by :
        (b : Bool)
        → Yields (λ s. s.wire ≡ take s.len buf) (if b then spin else sent buf len total n wire)
    by true = tt
    by false = unfold sent in h
send_loop-prefix buf len (negsuc k ∷ results) total n wire h = by (ltb total len)
  where
    by :
        (b : Bool)
        → Yields
            (λ s. s.wire ≡ take s.len buf)
            (if b then sent buf len total (negsuc k) wire else sent buf len total n wire)
    by true = unfold sent in h
    by false = unfold sent in h
send_loop-prefix buf len (pos m ∷ results) total n wire h =
    let next = wire ++ take m (drop total buf) in
    by (ltb total len) (
      send_loop-prefix buf len results (total + m) (pos m) next
        (ap (λ w. w ++ take m (drop total buf)) h ∙ take-add total m buf))
  where
    by :
        (b : Bool)
        → Yields
            (λ s. s.wire ≡ take s.len buf)
            (send_loop buf len results (total + m) (pos m) (wire ++ take m (drop total buf)))
        → Yields
            (λ s. s.wire ≡ take s.len buf)
            (if b
              then send_loop buf len results (total + m) (pos m) (wire ++ take m (drop total buf))
              else sent buf len total n wire)
    by true rest = rest
    by false rest = unfold sent in h

-- Whatever the writes return, what went out is a beginning of the buffer.
pub sendall-prefix :
    (results : List CInt) (buf : Bytes) (len : ℕ)
    → Yields (λ s. s.wire ≡ take s.len buf) (sendall results buf len)
unfolding sendall
sendall-prefix results buf len = send_loop-prefix buf len results 0 (negsuc 0) [] refl
