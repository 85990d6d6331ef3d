-- ===== src/Ssl/Report.antt =====
-- src/crypto/ssl_funcs.h: `showCerts`, `logSSLErr` and `printSSLErr`.
use pwdmanlib.Base.{ℕ, Option, none, some, List, [], ◌∷◌, ◌++◌, Bytes, codes}

-- `ERR_get_error` takes the oldest error from the queue, and gives 0 where there is none.
pub get_error : List ℕ → ℕ × List ℕ
get_error [] = (0, [])
get_error (e ∷ errors) = (e, errors)

-- What is written: the message, which has no percent sign in this code, the error whose reason is
-- given, the error that is spelled out, and those that are listed.
pub record Report : Type 0 where
  pub message : Bytes
  pub reason : ℕ
  pub spelled : ℕ
  pub listed : List ℕ

-- Each use of `ERR_get_error` takes another error. The queue is empty afterwards.
log_ssl_err : Bytes → List ℕ → Report
unfolding get_error
log_ssl_err msg errors =
    let (reason, others) = get_error errors in
    let (spelled, listed) = get_error others in
    record { message = msg; reason = reason; spelled = spelled; listed = listed }

-- The same on the stream of errors.
print_ssl_err : Bytes → List ℕ → Report
unfolding log_ssl_err
print_ssl_err msg errors = log_ssl_err msg errors

-- The subject and the issuer of the peer's certificate, if it sent one.
show_certs : Option (Bytes × Bytes) → Bytes
show_certs none = codes "No certificates were found\n"
show_certs (some (subject, issuer)) =
    codes "Server certificates:\nSubject: "
    ++ (subject ++ (codes "\nIssuer: " ++ (issuer ++ codes "\n")))
