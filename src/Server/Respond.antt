-- ===== src/Server/Respond.antt =====
-- src/server/server.h: `respond`, which reads a request, answers an error in reading, and has the
-- request parsed and routed.
pub mod Lines
pub mod Termination
use pwdmanlib.Base.{
  ℕ, ◌≤◌, zero, suc, lt→ltb, length-append, ap, ◌∙◌, ◌≢◌, ◌≡◌, refl, Bool, true, false, ltb, List,
  [], ◌∷◌, ◌++◌, map, length, take, All, Bytes, c_str, Result, ok, fault, stop, spin, out_of_bounds,
  ◌>>=◌, ◌>>◌, guard, arith,
}
use pwdmanlib.Vector.{CInt, pos, negsuc}
use pwdmanlib.StringOps.{File}
use pwdmanlib.Response.{bad_request_response, get_response_len}
use pwdmanlib.Ssl.{sendall, Read, got, failed, readall, sock_buff_def_read}
use pwdmanlib.Ssl.Accept.{ServerCalls, LoadError, config_server_ssl}
use pwdmanlib.Ssl.Send.{Complies, total_of, sendall_complete}
use pwdmanlib.Ssl.Receive.{concat, IsChunk, readall_stores}
use pwdmanlib.Server.{Request, parse_request}
use pwdmanlib.Server.Route.{Routed, route_client}

-- What went out over the connection, and what `routeClient` wrote to the socket.
pub record Responded : Type 0 where
  pub ssl_wire : Bytes
  pub routed : Routed

-- The answer to a read that failed.
answer_error : CInt → List CInt → Result Bytes
answer_error (pos n) writes = ok []
answer_error (negsuc n) writes =
    sendall writes bad_request_response (get_response_len bad_request_response) >>= λ s. ok s.wire

take-whole : take (length bad_request_response) bad_request_response ≡ bad_request_response
take-whole = refl

error_answer :
    (k n : ℕ) (ns : List ℕ)
    → Complies (n ∷ ns) (length bad_request_response)
    → total_of (n ∷ ns) ≡ length bad_request_response
    → answer_error (negsuc k) (map pos (n ∷ ns)) ≡ ok bad_request_response
error_answer k n ns c t =
    unfold answer_error get_response_len in
    rw (sendall_complete bad_request_response (length bad_request_response) n ns c t) refl

c_str-zero : (s rest : Bytes) → All (λ c. c ≢ 0) s → c_str (s ++ 0 ∷ rest) ≡ s
unfolding c_str
c_str-zero [] rest h = refl
c_str-zero (zero ∷ s) rest (ne, h) = absurd (ne refl)
c_str-zero (suc c ∷ s) rest (ne, h) = ap (λ t. suc c ∷ t) (c_str-zero s rest h)

module _ (room : ℕ → ℕ) (nulls : Bool) (files : Bytes → File) (root_dir : Bytes) where
  -- The buffer is zero behind what was read, so the request ends there or at a zero before.
  handle : Bytes → Bytes → Result Responded
  handle recv_data ssl_wire = do
    guard (ltb (length (c_str recv_data)) sock_buff_def_read) out_of_bounds
    request ← parse_request room nulls (c_str recv_data)
    ok (record {
      ssl_wire = ssl_wire;
      routed = route_client room files root_dir request.info request.path;
    })

  -- The results of the calls of `configServerSSL`, those of the reads, and those of the writes.
  pub respond : ServerCalls → List Read → List CInt → Result Responded
  unfolding handle answer_error
  respond calls reads writes = do
    errors ← config_server_ssl calls
    r ← readall sock_buff_def_read reads
    ssl_wire ← answer_error r.0 writes
    handle r.1 ssl_wire

  -- A request whose end does not come.
  pub respond_waits :
      (calls : ServerCalls) (reads : List Read) (writes : List CInt) (errors : List LoadError)
      → config_server_ssl calls ≡ ok errors
      → readall sock_buff_def_read reads ≡ spin
      → respond calls reads writes ≡ spin
  respond_waits calls reads writes errors e w = unfold respond in rw (e, w) refl

  handle-wire :
      (recv_data ssl_wire : Bytes)
      → handle recv_data ssl_wire
        ≡ (handle recv_data [] >>= λ r. ok (record { ssl_wire = ssl_wire; routed = r.routed }))
  handle-wire recv_data ssl_wire =
      unfold handle in
      split (ltb (length (c_str recv_data)) sock_buff_def_read)
        (parse_request room nulls (c_str recv_data))
    where
      give : Bytes → Request → Result Responded
      give wire request = ok (record {
        ssl_wire = wire;
        routed = route_client room files root_dir request.info request.path;
      })

      split :
          (b : Bool) (p : Result Request)
          → (guard b out_of_bounds >>= λ _. (p >>= give ssl_wire)) ≡ (
              guard b out_of_bounds >>= (λ _. (p >>= give [])) >>= λ r.
              ok (record { ssl_wire = ssl_wire; routed = r.routed }))
      split true (ok request) = refl
      split true (fault e) = refl
      split true (stop n) = refl
      split true spin = refl
      split false p = refl

  after :
      (session : Result (List LoadError)) (answer : Result Bytes) (recv_data : Bytes)
      → answer ≡ ok bad_request_response
      → (session >>= λ errors. (answer >>= λ w. handle recv_data w)) ≡ (
          (session >>= λ errors. handle recv_data []) >>= λ r.
          ok (record { ssl_wire = bad_request_response; routed = r.routed }))
  after (ok errors) answer recv_data e = rw e (handle-wire recv_data bad_request_response)
  after (fault f) answer recv_data e = refl
  after (stop n) answer recv_data e = refl
  after spin answer recv_data e = refl

  -- After a read that failed, behind reads that each brought something and together no more than
  -- the buffer holds, and with writes that take all of the page of the 400, `respond` sends that
  -- page and then goes on with what had come before the failure, as if the request had ended there.
  pub respond_after_error :
      (calls : ServerCalls) (chunks : List Bytes) (k : ℕ) (results : List Read) (n : ℕ)
      (ns : List ℕ)
      → All IsChunk chunks
      → length (concat chunks) ≤ sock_buff_def_read
      → Complies (n ∷ ns) (length bad_request_response)
      → total_of (n ∷ ns) ≡ length bad_request_response
      → respond calls (map got chunks ++ failed k ∷ results) (map pos (n ∷ ns)) ≡ (
          respond calls (map got chunks ++ got [] ∷ results) [] >>= λ r.
          ok (record { ssl_wire = bad_request_response; routed = r.routed }))
  respond_after_error calls chunks k results n ns h l c t =
      let (ended, broken) = readall_stores sock_buff_def_read chunks results k h l (omega arith) in
      unfold respond in
      rw (ended, broken)
        (after (config_server_ssl calls) (answer_error (negsuc k) (map pos (n ∷ ns)))
          (concat chunks) (error_answer k n ns c t))

  -- Without a session there is no answer.
  pub respond-refused :
      (calls : ServerCalls) (reads : List Read) (writes : List CInt)
      → config_server_ssl calls ≡ stop 1
      → respond calls reads writes ≡ stop 1
  unfolding respond
  respond-refused calls reads writes h = rw h refl

  -- The reads bring a text that ends at its first zero: `respond` has it parsed and routed, and sends
  -- nothing over the connection itself.
  pub respond-text :
      (calls : ServerCalls) (errors : List LoadError) (chunks : List Bytes) (reads : List Read)
      (writes : List CInt) (req rest : Bytes) (parsed : Result Request)
      → config_server_ssl calls ≡ ok errors
      → All IsChunk chunks
      → concat chunks ≡ req ++ 0 ∷ rest
      → All (λ c. c ≢ 0) req
      → length (concat chunks) ≤ sock_buff_def_read
      → parse_request room nulls req ≡ parsed
      → respond calls (map got chunks ++ got [] ∷ reads) writes ≡ (
          parsed >>= λ request. ok (record {
            ssl_wire = [];
            routed = route_client room files root_dir request.info request.path;
          }))
  unfolding respond handle answer_error
  respond-text calls errors chunks reads writes req rest parsed s h e nul l p =
      let (ended, broken) = readall_stores sock_buff_def_read chunks reads 0 h l (omega arith) in
      let cut : c_str (concat chunks) ≡ req = ap c_str e ∙ c_str-zero req rest nul in
      let small : ltb (length req) sock_buff_def_read ≡ true =
        lt→ltb (length req) sock_buff_def_read
          (omega (arith, length-append req (0 ∷ rest), ap length e)) in
      rw (s, ended, cut, small, p) refl
