-- ===== src/Server/Respond/Termination.antt =====
-- `respond` ends.
use pwdmanlib.Base.{
  ℕ, ◌≤◌, ltb, length, List, Bytes, c_str, out_of_bounds, ok-Ends, Ends, fault-Ends, stop-Ends,
  bind-Ends, guard-Ends, Result, ok, fault, stop, spin, ◌>>=◌, ◌>>◌, refl, false,
}
use pwdmanlib.Vector.{CInt, pos, negsuc}
use pwdmanlib.StringOps.{File}
use pwdmanlib.Response.{bad_request_response, get_response_len}
use pwdmanlib.Ssl.{Read, sock_buff_def_read}
use pwdmanlib.Ssl.Accept.{ServerCalls}
use pwdmanlib.Ssl.Accept.Termination.{config_server_ssl-Ends}
use pwdmanlib.Ssl.Termination.{Closes, Drains, readall-Ends, sendall-Ends}
use pwdmanlib.Server.Termination.{parse_request-Ends}
use pwdmanlib.Server.Respond.{answer_error, handle, respond, Responded}
use pwdmanlib.Server.Route.Termination.{route_client-Ends}

answer_error-Ends :
    (n : CInt) (writes : List CInt)
    → Drains writes (length bad_request_response)
    → Ends (answer_error n writes)
unfolding answer_error get_response_len
answer_error-Ends (pos n) writes h = ok-Ends _
answer_error-Ends (negsuc n) writes h =
    bind-Ends _ _ (sendall-Ends writes bad_request_response (length bad_request_response) h)
      (λ s. ok-Ends s.wire)

-- The call ends, and what it routed has ended too.
abbrev Answers : Result Responded → Type 0
Answers (ok r) = Ends r.routed.end
Answers spin = ⊥
Answers _ = Unit

bind-Answers {ℓ} :
    {A : Type ℓ} (m : Result A) (f : A → Result Responded)
    → Ends m
    → ((a : A) → Answers (f a))
    → Answers (m >>= f)
bind-Answers (ok a) f h k = k a
bind-Answers (fault e) f h k = tt
bind-Answers (stop n) f h k = tt
bind-Answers spin f h k = absurd (h refl)

-- The call, with what it routed.
pub answered-Ends : (m : Result Responded) → Answers m → Ends (m >>= λ r. r.routed.end >> ok r)
answered-Ends (ok r) h = bind-Ends r.routed.end (λ _. ok r) h (λ _. ok-Ends r)
answered-Ends (fault e) h = fault-Ends e
answered-Ends (stop n) h = stop-Ends n
answered-Ends spin h = absurd h

module _ (room : ℕ → ℕ) (given : (n : ℕ) → n ≤ room n) (files : Bytes → File)
    (root_dir : Bytes) where
  handle-Answers :
      (recv_data ssl_wire : Bytes) → Answers (handle room false files root_dir recv_data ssl_wire)
  unfolding handle
  handle-Answers recv_data ssl_wire =
      bind-Answers _ _
        (guard-Ends (ltb (length (c_str recv_data)) sock_buff_def_read) out_of_bounds)
        (λ _.
          bind-Answers _ _ (parse_request-Ends room given (c_str recv_data))
            (λ request. route_client-Ends room given files root_dir request.info request.path))

  -- Where the reads come to an end or to an error, and the writes to an error or through the page
  -- of the 400.
  pub respond-Answers :
      (calls : ServerCalls) (reads : List Read) (writes : List CInt)
      → Closes reads
      → Drains writes (length bad_request_response)
      → Answers (respond room false files root_dir calls reads writes)
  unfolding respond
  respond-Answers calls reads writes closes drains =
      bind-Answers _ _ (config_server_ssl-Ends calls) (λ errors.
        bind-Answers _ _ (readall-Ends sock_buff_def_read reads closes) (λ r.
          bind-Answers _ _ (answer_error-Ends r.0 writes drains)
            (λ ssl_wire. handle-Answers r.1 ssl_wire)))
