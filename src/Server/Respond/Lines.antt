-- ===== src/Server/Respond/Lines.antt =====
-- What `respond` writes to the socket.
use pwdmanlib.Base.{
  ℕ, List, Bytes, c_str, All, length, ltb, guard, out_of_bounds, Yields, bind-Yields, Bool, ◌≡◌,
  refl, take, bind_known-Yields,
}
use pwdmanlib.Vector.{CInt, pos, negsuc}
use pwdmanlib.Response.{bad_request_response, get_response_len}
use pwdmanlib.Ssl.Send.{sendall-prefix}
use pwdmanlib.Server.{parse_request}
use pwdmanlib.StringOps.{File}
use pwdmanlib.Ssl.{sendall, Read, readall, sock_buff_def_read}
use pwdmanlib.Ssl.Accept.{ServerCalls, config_server_ssl}
use pwdmanlib.Server.Route.StatusLines.{IsStatusLine, route_client_status_lines}
use pwdmanlib.Server.Respond.{Responded, answer_error, handle, respond}

-- A beginning of the page of the 400.
abbrev IsRefusal : Bytes → Type 0
IsRefusal wire = (n : ℕ) × (wire ≡ take n bad_request_response)

-- Over the connection went nothing but a beginning of the page of the 400, and to the socket nothing but
-- status lines.
abbrev pub IsStatusOnly : Responded → Type 0
IsStatusOnly r = IsRefusal r.ssl_wire × All IsStatusLine r.routed.wire

answer_error-IsRefusal :
    (status : CInt) (writes : List CInt) → Yields IsRefusal (answer_error status writes)
unfolding answer_error
answer_error-IsRefusal (pos n) writes = (0, refl)
answer_error-IsRefusal (negsuc n) writes =
    let len = get_response_len bad_request_response in
    bind_known-Yields (λ s. s.wire ≡ take s.len bad_request_response) IsRefusal
      (sendall writes bad_request_response len) _ (sendall-prefix writes bad_request_response len)
      (λ s e. (s.len, e))

module _ (room : ℕ → ℕ) (nulls : Bool) (files : Bytes → File) (root_dir : Bytes) where
  handle-IsStatusOnly :
      (recv_data ssl_wire : Bytes)
      → IsRefusal ssl_wire
      → Yields IsStatusOnly (handle room nulls files root_dir recv_data ssl_wire)
  unfolding handle
  handle-IsStatusOnly recv_data ssl_wire refusal =
      let fits = ltb (length (c_str recv_data)) sock_buff_def_read in
      bind-Yields IsStatusOnly (guard fits out_of_bounds) _ (λ _.
        bind-Yields IsStatusOnly (parse_request room nulls (c_str recv_data)) _ (λ request.
          (refusal, route_client_status_lines room files root_dir request.info request.path)))

  pub respond-IsStatusOnly :
      (calls : ServerCalls) (reads : List Read) (writes : List CInt)
      → Yields IsStatusOnly (respond room nulls files root_dir calls reads writes)
  unfolding respond
  respond-IsStatusOnly calls reads writes =
      bind-Yields IsStatusOnly (config_server_ssl calls) _ (λ errors.
        bind-Yields IsStatusOnly (readall sock_buff_def_read reads) _ (λ r.
          bind_known-Yields IsRefusal IsStatusOnly (answer_error r.0 writes) _
            (answer_error-IsRefusal r.0 writes)
            (λ ssl_wire refusal. handle-IsStatusOnly r.1 ssl_wire refusal)))
