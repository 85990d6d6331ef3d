-- ===== src/Client/Send.antt =====
-- src/client/client_v2.c: what `main` does with its message. The connection is that of
-- `configClientSSL`, the sending and the receiving are `sendall` and `readall`.
pub mod Termination
use pwdmanlib.Base.{
  ℕ, zero, suc, ◌+◌, ◌-◌, ◌≤◌, ◌<◌, ◌==◌, ◌≡◌, refl, sym, ap, ◌∙◌, ◌≢◌, false, if◌then◌else◌, List,
  [], ◌∷◌, ◌++◌, length, map, take, All, Bytes, c_str, arith, Result, ok, fault, stop, spin,
  out_of_bounds, ◌>>=◌,
}
use pwdmanlib.Vector.{CInt, pos, negsuc}
use pwdmanlib.Validation.{Cert}
use pwdmanlib.Ssl.{
  ClientCalls, Connection, established, exited, crashed, config_client_ssl, sendall, Read, got,
  readall, sock_buff_def_read,
}
use pwdmanlib.Ssl.Send.{Complies, total_of, sendall_complete}
use pwdmanlib.Ssl.Receive.{concat, IsChunk, readall_stores, readall_waits}
use pwdmanlib.Ssl.Session.{IsSecured, config_client_ssl_established}

-- How `main` ends: its status, what went out, and what it prints of the response.
pub record Exchange : Type 0 where
  pub status : ℕ
  pub wire : Bytes
  pub printed : Bytes

-- `printf("Response:\n%s", response)` for a buffer that was cleared: one that is full and holds no
-- zero is read past its end.
print_response : Bytes → Bytes → Result Exchange
print_response wire response =
    if length (c_str response) == sock_buff_def_read
    then fault out_of_bounds
    else ok (record { status = 0; wire = wire; printed = c_str response })

-- `error` exits with status 0.
received : Bytes → CInt × Bytes → Result Exchange
unfolding print_response
received wire (negsuc k, response) = ok (record { status = 0; wire = wire; printed = [] })
received wire (pos n, response) = print_response wire response

receive : List Read → CInt → Bytes → Result Exchange
unfolding received
receive reads (negsuc k) wire = ok (record { status = 0; wire = wire; printed = [] })
receive reads (pos n) wire = readall sock_buff_def_read reads >>= λ r. received wire r

-- `memory` is what the allocation of the message holds, and `message_size` its size. Where
-- `configClientSSL` does not return it exits with status 255.
pub exchange : Connection → List CInt → List Read → Bytes → ℕ → Result Exchange
unfolding receive
exchange (exited cleanup) writes reads memory message_size =
    ok (record { status = 255; wire = []; printed = [] })
exchange (crashed e) writes reads memory message_size = fault e
exchange (established cert) writes reads memory message_size =
    sendall writes memory message_size >>= λ s. receive reads s.status s.wire

-- The connection is settled first.
pub run_client : ClientCalls → List CInt → List Read → Bytes → ℕ → Result Exchange
unfolding exchange
run_client calls writes reads memory message_size =
    exchange (config_client_ssl calls) writes reads memory message_size

take-append :
    (xs ys : Bytes) (n : ℕ) → length xs ≤ n → take n (xs ++ ys) ≡ xs ++ take (n - length xs) ys
take-append [] ys n h = ap (λ k. take k ys) {x = n} {y = n - 0} (omega arith)
take-append (x ∷ xs) ys zero h = absurd (omega arith)
take-append (x ∷ xs) ys (suc n) h =
    ap (λ t. x ∷ t)
      (take-append xs ys n (omega arith)
        ∙ ap (λ k. xs ++ take k ys) {x = n - length xs} {y = suc n - suc (length xs)} (omega arith))

print_response-fits :
    (wire response : Bytes)
    → length (c_str response) < sock_buff_def_read
    → print_response wire response
      ≡ ok (record { status = 0; wire = wire; printed = c_str response })
unfolding print_response
print_response-fits wire response h =
    let e : (length (c_str response) == sock_buff_def_read) ≡ false = ground arith in rw e refl

length-c_str : (s : Bytes) → length (c_str s) ≤ length s
unfolding c_str
length-c_str [] = omega arith
length-c_str (zero ∷ s) = omega arith
length-c_str (suc c ∷ s) = omega (arith, length-c_str s)

-- The client is connected to a server with the certificate of devopsec.net, its message is followed
-- by a zero in an allocation that it fits, the writes take all of the allocation, and the
-- response is shorter than the buffer. Then what goes out is the message, the zero and whatever bytes
-- the rest of the allocation holds, and what is printed is the response up to its first zero.
pub run_client_sends :
    (calls : ClientCalls) (cert : Cert) (message rest : Bytes) (message_size n : ℕ) (ns : List ℕ)
    (chunks : List Bytes) (reads : List Read)
    → IsSecured calls cert
    → length message + 1 ≤ message_size
    → Complies (n ∷ ns) message_size
    → total_of (n ∷ ns) ≡ message_size
    → All IsChunk chunks
    → length (concat chunks) < sock_buff_def_read
    → run_client calls
        (map pos (n ∷ ns))
        (map got chunks ++ got [] ∷ reads)
        (message ++ 0 ∷ rest)
        message_size
      ≡ ok (record {
        status = 0;
        wire = message ++ 0 ∷ take (message_size - length message - 1) rest;
        printed = c_str (concat chunks);
      })
unfolding run_client exchange receive received
run_client_sends calls cert message rest size n ns chunks reads secured fits c t h l =
    let s = sendall_complete (message ++ 0 ∷ rest) size n ns c t in
    let r = readall_stores sock_buff_def_read chunks reads 0 h (omega arith) (omega arith) in
    let w : take size (message ++ 0 ∷ rest) ≡ message ++ 0 ∷ take (size - length message - 1) rest =
      take-append message (0 ∷ rest) size (omega arith)
      ∙ ap (λ k. message ++ take k (0 ∷ rest)) {x = size - length message}
          {y = suc (size - length message - 1)} (omega arith) in
    rw ((config_client_ssl_established calls cert).1 secured, s, r.0, w)
      (print_response-fits _ (concat chunks) (omega (arith, length-c_str (concat chunks))))

-- A client that has sent its message waits where nothing comes back.
pub run_client_waits :
    (calls : ClientCalls) (cert : Cert) (memory : Bytes) (message_size n : ℕ) (ns : List ℕ)
    → IsSecured calls cert
    → Complies (n ∷ ns) message_size
    → total_of (n ∷ ns) ≡ message_size
    → run_client calls (map pos (n ∷ ns)) [] memory message_size ≡ spin
unfolding run_client exchange receive
run_client_waits calls cert memory size n ns secured c t =
    rw
      (
        (config_client_ssl_established calls cert).1 secured,
        sendall_complete memory size n ns c t,
        readall_waits sock_buff_def_read [] tt (omega arith) (omega arith),
      )
      refl

wire_of : Result Exchange → Bytes
wire_of (ok x) = x.wire
wire_of (fault e) = []
wire_of (stop n) = []
wire_of spin = []

-- Bytes go out only to a peer that was certified.
pub run_client_certified :
    (calls : ClientCalls) (writes : List CInt) (reads : List Read) (memory : Bytes) (size : ℕ)
    (x : Exchange)
    → run_client calls writes reads memory size ≡ ok x
    → x.wire ≢ []
    → (cert : Cert) × IsSecured calls cert
unfolding run_client exchange wire_of
run_client_certified calls writes reads memory size x h n = by (config_client_ssl calls) refl
  where
    by : (c : Connection) → config_client_ssl calls ≡ c → (cert : Cert) × IsSecured calls cert
    by (established cert) e = (cert, (config_client_ssl_established calls cert).0 e)
    by (exited cleanup) e = absurd (n (ap wire_of (sym (rw e at h))))
    by (crashed k) e = absurd (n (ap wire_of (sym (rw e at h))))
