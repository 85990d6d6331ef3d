-- ===== src/Ssl.antt =====
-- src/crypto/ssl_funcs.h. OpenSSL is not part of the program: the results of its calls come as lists
-- and records, in the order in which the code makes the calls.
mod Tests
pub mod Send
pub mod Receive
pub mod Session
pub mod Accept
pub mod Termination
pub mod Shutdown
pub mod Report
use pwdmanlib.Base.{
  ℕ, zero, suc, ◌+◌, ◌-◌, Bool, true, false, ltb, leb, if◌then◌else◌, Option, none, some, List, [],
  ◌∷◌, ◌++◌, length, take, drop, Bytes, codes, Result, ok, fault, Fault, spin, out_of_bounds,
  null_pointer,
}
use pwdmanlib.Vector.{CInt, pos, negsuc}
use pwdmanlib.Validation.{
  Verdict, match_found, match_not_found, no_san_present, malformed_certificate, error, Cert,
  validate_hostname,
}

abbrev pub sock_buff_def_read : ℕ
sock_buff_def_read = 87380

abbrev pub sock_buff_max_read : ℕ
sock_buff_max_read = 6291456

-- What `sendall` leaves: its result, the new `*len`, and the bytes that went out.
pub record Sent : Type 0 where
  pub status : CInt
  pub len : ℕ
  pub wire : Bytes

-- `n < 0 ? n : 0`
pub status_of : CInt → CInt
status_of (pos n) = pos 0
status_of (negsuc n) = negsuc n

module _ (buf : Bytes) (len : ℕ) where
  pub sent : ℕ → CInt → Bytes → Result Sent
  sent total n wire = ok (record { status = status_of n; len = total; wire = wire })

  -- The loop of `sendall` over the results of `SSL_write`; with no result left it goes on for ever.
  -- A write that returns n takes the next n bytes of the buffer.
  pub send_loop : List CInt → ℕ → CInt → Bytes → Result Sent
  unfolding sent status_of
  send_loop [] total n wire = if ltb total len then spin else sent total n wire
  send_loop (negsuc k ∷ results) total n wire =
      if ltb total len then sent total (negsuc k) wire else sent total n wire
  send_loop (pos m ∷ results) total n wire =
      let rest = send_loop results (total + m) (pos m) (wire ++ take m (drop total buf)) in
      if ltb total len then rest else sent total n wire

-- `n` starts as -1.
pub sendall : List CInt → Bytes → ℕ → Result Sent
unfolding send_loop
sendall results buf len = send_loop buf len results 0 (negsuc 0) []

-- A result of `SSL_read`: the bytes that it stored (none of them at the end of the data), or an error.
pub data Read : Type 0 where
  got : Bytes → Read
  failed : ℕ → Read

-- The loop of `readall` into a buffer of `room` bytes: its result and what the buffer holds.
pub read_loop : ℕ → List Read → Bytes → Result (CInt × Bytes)
read_loop room [] buf = spin
read_loop room (failed k ∷ results) buf = ok (negsuc k, buf)
read_loop room (got chunk ∷ results) buf =
    let rest = read_loop room results (buf ++ chunk) in
    if ltb room (length buf + length chunk)
    then fault out_of_bounds
    else if ltb sock_buff_max_read (length buf + length chunk)
    then ok (pos 0, buf ++ chunk)
    else elim chunk [ [] ↦ ok (pos 0, buf) | c ∷ s ↦ rest ]

pub readall : ℕ → List Read → Result (CInt × Bytes)
unfolding read_loop
readall room results = read_loop room results []

-- The results of the calls of `configClientSSL`.
pub record ClientCalls : Type 0 where
  pub ssl_init : Bool
  pub crypto_init : Bool
  pub ctx_new : Bool
  pub load_verify_locations : CInt
  pub ssl_new : Bool
  pub set_fd : CInt
  pub connect : CInt
  pub peer_certificate : Option Cert

-- What the function releases, in order.
pub data Cleanup : Type 0 where
  free_ctx shutdown_ssl destroy_ssl close_sock : Cleanup

pub data Connection : Type 0 where
  established : Cert → Connection
  exited : List Cleanup → Connection
  crashed : Fault → Connection

abbrev pub after_shutdown : Connection
after_shutdown = exited (shutdown_ssl ∷ destroy_ssl ∷ close_sock ∷ [])

-- `status == n`, and `status <= 0`
unfoldable pub is_value : ℕ → CInt → Bool
is_value n (pos m) = elim (leb n m) [ true ↦ leb m n | false ↦ false ]
is_value n (negsuc m) = false

unfoldable pub is_positive : CInt → Bool
is_positive (pos m) = ltb 0 m
is_positive (negsuc m) = false

abbrev pub expected_host : Bytes
expected_host = codes "devopsec.net"

-- The last two checks: a certificate was sent, and it is that of the host.
pub check_peer : Option Cert → Connection
check_peer none = after_shutdown
check_peer (some cert) = elim (validate_hostname (some expected_host) (some cert)) [
  | match_found ↦ established cert
  | _ ↦ after_shutdown
]

-- What follows on a context.
pub connect_client : ClientCalls → Connection
unfolding is_value is_positive check_peer
connect_client c =
    if is_value 1 c.load_verify_locations
    then if c.ssl_new
      then if is_value 0 c.set_fd
        then after_shutdown
        else if is_positive c.connect
        then check_peer c.peer_certificate
        else after_shutdown
      else after_shutdown
    else exited (free_ctx ∷ destroy_ssl ∷ close_sock ∷ [])

-- `initSSL` exits where a library cannot be initialised, before anything is to be released; a context
-- that could not be created is reported by `initClientCTX` and used all the same.
pub config_client_ssl : ClientCalls → Connection
unfolding connect_client
config_client_ssl c =
    if c.ssl_init
    then if c.crypto_init
      then if c.ctx_new then connect_client c else crashed null_pointer
      else exited []
    else exited []
