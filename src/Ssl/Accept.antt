-- ===== src/Ssl/Accept.antt =====
-- src/crypto/ssl_funcs.h, the side of the server: `initServerCTX`, `loadCerts` and
-- `configServerSSL`.
pub mod Termination
use pwdmanlib.Base.{
  refl, ◌≡◌, ◌↔◌, Bool, true, false, if◌then◌else◌, List, [], ◌∷◌, ◌++◌, Result, ok, fault, stop,
  ◌>>◌, null_pointer, arith,
}
use pwdmanlib.Vector.{CInt}
use pwdmanlib.Ssl.{is_value, is_positive}

-- The failures that `loadCerts` prints, and goes on.
pub data LoadError : Type 0 where
  certificate_error private_key_error mismatch : LoadError

-- Whether the two halves of the library start, whether there is a context and a connection, and the results of the other calls.
pub record ServerCalls : Type 0 where
  pub ssl_init : Bool
  pub crypto_init : Bool
  pub ctx_new : Bool
  pub use_certificate : CInt
  pub use_private_key : CInt
  pub check_private_key : CInt
  pub ssl_new : Bool
  pub accept : CInt

abbrev pub unless : Bool → LoadError → List LoadError
unless true e = []
unless false e = e ∷ []

-- The errors in the order in which they are printed. The last check fails on 0.
unfoldable pub load_certs : CInt → CInt → CInt → List LoadError
unfolding is_value
load_certs certificate private_key check =
    unless (is_value 1 certificate) certificate_error
    ++ (unless (is_value 1 private_key) private_key_error
        ++ (if is_value 0 check then mismatch ∷ [] else []))

-- `initSSL` with OpenSSL 1.1 or later.
init_ssl : Bool → Bool → Result (Unit {0})
init_ssl true true = ok tt
init_ssl true false = stop 255
init_ssl false crypto = stop 255

-- The end of `configServerSSL`.
accept_on : CInt → List LoadError → Result (List LoadError)
unfolding is_positive
accept_on accepted errors = if is_positive accepted then ok errors else stop 1

-- A missing context is reported and then used, and so is a missing connection. Where a connection is
-- returned, it comes with what `loadCerts` printed.
pub config_server_ssl : ServerCalls → Result (List LoadError)
unfolding init_ssl load_certs accept_on
config_server_ssl c =
    init_ssl c.ssl_init c.crypto_init
    >> (if c.ctx_new
        then if c.ssl_new
          then accept_on c.accept
              (load_certs c.use_certificate c.use_private_key c.check_private_key)
          else fault null_pointer
        else fault null_pointer)

branches :
    (x y a b p : Bool) (made errors : List LoadError)
    → ((init_ssl x y
          >> (if a
              then if b then if p then ok made else stop 1 else fault null_pointer
              else fault null_pointer))
        ≡ ok errors)
      ↔ ((x ≡ true) × (y ≡ true) × (a ≡ true) × (b ≡ true) × (p ≡ true) × (made ≡ errors))
unfolding init_ssl
branches true true true true true made errors = ground arith
branches true true true true false made errors = ground arith
branches true true true false p made errors = ground arith
branches true true false b p made errors = ground arith
branches true false a b p made errors = ground arith
branches false y a b p made errors = ground arith

-- `configServerSSL` returns a connection exactly when the library starts, there are a context and a
-- connection object and the handshake succeeds, whatever the certificate and the key came to: their
-- errors are only printed.
pub config_server_ssl_accepts :
    (c : ServerCalls) (errors : List LoadError)
    → (config_server_ssl c ≡ ok errors) ↔ (
        (c.ssl_init ≡ true)
        × (c.crypto_init ≡ true)
        × (c.ctx_new ≡ true)
        × (c.ssl_new ≡ true)
        × (is_positive c.accept ≡ true)
        × (load_certs c.use_certificate c.use_private_key c.check_private_key ≡ errors))
config_server_ssl_accepts c errors =
    unfold config_server_ssl accept_on in
    branches c.ssl_init c.crypto_init c.ctx_new c.ssl_new (is_positive c.accept)
      (load_certs c.use_certificate c.use_private_key c.check_private_key) errors

-- The handshake is reached.
abbrev pub IsReady : ServerCalls → Type 0
IsReady c = (c.ssl_init ≡ true) × (c.crypto_init ≡ true) × (c.ctx_new ≡ true) × (c.ssl_new ≡ true)

-- A handshake that fails ends the process.
pub config_server_ssl_refuses :
    (c : ServerCalls) → IsReady c → is_positive c.accept ≡ false → config_server_ssl c ≡ stop 1
unfolding config_server_ssl init_ssl accept_on
config_server_ssl_refuses c (x, y, a, b) p = rw (x, y, a, b, p, config_server_ssl) refl
