-- ===== src/Ssl/Session.antt =====
-- When `configClientSSL` hands out a connection.
use pwdmanlib.Base.{
  ℕ, ◌≡◌, ◌≢◌, ◌↔◌, refl, sym, ap, ◌∙◌, Bool, true, false, Option, if◌then◌else◌, none, some, ◌<◌,
  arith, [], ◌∷◌, null_pointer,
}
use pwdmanlib.Vector.{CInt, pos, negsuc}
use pwdmanlib.Validation.{
  Verdict, match_found, match_not_found, no_san_present, malformed_certificate, error, Cert,
  validate_hostname,
}
use pwdmanlib.Validation.Sound.{IsCertified, validate_hostname-match_found}
use pwdmanlib.Ssl.{
  ClientCalls, Connection, established, exited, crashed, connect_client, free_ctx, destroy_ssl,
  close_sock, is_value, is_positive, check_peer, config_client_ssl, expected_host, after_shutdown,
}

-- The calls all succeeded, and the certificate of the peer names the expected host.
pub record IsSecured (c : ClientCalls) (cert : Cert) : Type 0 where
  pub initialised : c.ssl_init ≡ true
  pub crypto : c.crypto_init ≡ true
  pub context : c.ctx_new ≡ true
  pub loaded : c.load_verify_locations ≡ pos 1
  pub created : c.ssl_new ≡ true
  pub attached : c.set_fd ≢ pos 0
  pub connected : (n : ℕ) × (0 < n) × (c.connect ≡ pos n)
  pub presented : c.peer_certificate ≡ some cert
  pub certified : IsCertified expected_host cert.san cert.subject

is_value_iff : (n : ℕ) (z : CInt) → (is_value n z ≡ true) ↔ (z ≡ pos n)
unfolding is_value
is_value_iff n (pos m) = ground arith
is_value_iff n (negsuc m) = ground arith

is_positive_iff : (z : CInt) → (is_positive z ≡ true) ↔ ((n : ℕ) × (0 < n) × (z ≡ pos n))
unfolding is_positive
is_positive_iff (pos m) = (λ h. (m, ground arith, refl), λ (n, l, e). ground arith)
is_positive_iff (negsuc m) = (λ h. ground arith, λ (n, l, e). ground arith)

some-inj : {a b : Cert} → some a ≡ some b → a ≡ b
some-inj h = ground arith

on_verdict :
    (v : Verdict) (peer cert : Cert)
    → (elim v [ match_found ↦ established peer | _ ↦ after_shutdown ] ≡ established cert)
      ↔ ((v ≡ match_found) × (peer ≡ cert))
on_verdict match_found peer cert = ground arith
on_verdict match_not_found peer cert = ground arith
on_verdict no_san_present peer cert = ground arith
on_verdict malformed_certificate peer cert = ground arith
on_verdict error peer cert = ground arith

check_peer-some :
    (peer cert : Cert)
    → (check_peer (some peer) ≡ established cert)
      ↔ ((validate_hostname (some expected_host) (some peer) ≡ match_found) × (peer ≡ cert))
check_peer-some peer cert =
    unfold check_peer in on_verdict (validate_hostname (some expected_host) (some peer)) peer cert

check_peer_iff :
    (peer : Option Cert) (cert : Cert)
    → (check_peer peer ≡ established cert)
      ↔ ((peer ≡ some cert) × IsCertified expected_host cert.san cert.subject)
check_peer_iff none cert = unfold check_peer in ground arith
check_peer_iff (some peer) cert = (
  λ h.
      let (m, e) = (check_peer-some peer cert).0 h in
      (
        ap some e,
        (validate_hostname-match_found expected_host cert).0
            (ap (λ p. validate_hostname (some expected_host) (some p)) (sym e) ∙ m),
      ),
  λ (e, m).
      let same = some-inj e in
      (check_peer-some peer cert).1 (
        ap (λ p. validate_hostname (some expected_host) (some p)) same
            ∙ (validate_hostname-match_found expected_host cert).1 m,
        same,
      ),
)

branches :
    (a b f p : Bool) (rest : Connection) (cert : Cert)
    → ((if a
          then if b
            then if f then after_shutdown else if p then rest else after_shutdown
            else after_shutdown
          else exited (free_ctx ∷ destroy_ssl ∷ close_sock ∷ []))
        ≡ established cert)
      ↔ ((a ≡ true) × (b ≡ true) × (f ≡ false) × (p ≡ true) × (rest ≡ established cert))
branches true true true p rest cert = ground arith
branches true true false true rest cert = ground arith
branches true true false false rest cert = ground arith
branches true false f p rest cert = ground arith
branches false b f p rest cert = ground arith

connect_client_branches :
    (c : ClientCalls) (cert : Cert)
    → (connect_client c ≡ established cert) ↔ (
        (is_value 1 c.load_verify_locations ≡ true)
        × (c.ssl_new ≡ true)
        × (is_value 0 c.set_fd ≡ false)
        × (is_positive c.connect ≡ true)
        × (check_peer c.peer_certificate ≡ established cert))
connect_client_branches c cert =
    unfold connect_client in
    branches (is_value 1 c.load_verify_locations) c.ssl_new (is_value 0 c.set_fd)
      (is_positive c.connect) (check_peer c.peer_certificate) cert

true≢false : true ≢ false
true≢false h = ground arith

not_true : (b : Bool) → b ≢ true → b ≡ false
not_true b h = ground arith

begun :
    (a b f : Bool) (rest : Connection) (cert : Cert)
    → ((if a then if b then if f then rest else crashed null_pointer else exited [] else exited [])
        ≡ established cert)
      ↔ ((a ≡ true) × (b ≡ true) × (f ≡ true) × (rest ≡ established cert))
begun true true true rest cert = ground arith
begun true true false rest cert = ground arith
begun true false f rest cert = ground arith
begun false b f rest cert = ground arith

config_client_ssl_begun :
    (c : ClientCalls) (cert : Cert)
    → (config_client_ssl c ≡ established cert) ↔ (
        (c.ssl_init ≡ true)
        × (c.crypto_init ≡ true)
        × (c.ctx_new ≡ true)
        × (connect_client c ≡ established cert))
config_client_ssl_begun c cert =
    unfold config_client_ssl in begun c.ssl_init c.crypto_init c.ctx_new (connect_client c) cert

-- `configClientSSL` returns a connection exactly when every call before succeeded, from the
-- initialisation of the libraries and the creation of the context on, and the certificate that the peer
-- sent names devopsec.net.
pub config_client_ssl_established :
    (c : ClientCalls) (cert : Cert) → (config_client_ssl c ≡ established cert) ↔ IsSecured c cert
config_client_ssl_established c cert = (
  λ h.
      let (i, j, k, o) = (config_client_ssl_begun c cert).0 h in
      let (a, b, f, p, r) = (connect_client_branches c cert).0 o in
      let (e, m) = (check_peer_iff c.peer_certificate cert).0 r in
      record {
        initialised = i;
        crypto = j;
        context = k;
        loaded = (is_value_iff 1 c.load_verify_locations).0 a;
        created = b;
        attached = λ z. true≢false (sym ((is_value_iff 0 c.set_fd).1 z) ∙ f);
        connected = (is_positive_iff c.connect).0 p;
        presented = e;
        certified = m;
      },
  λ s. (config_client_ssl_begun c cert).1 (
    s.initialised,
    s.crypto,
    s.context,
    (connect_client_branches c cert).1 (
      (is_value_iff 1 c.load_verify_locations).1 s.loaded,
      s.created,
      not_true (is_value 0 c.set_fd) (λ t. s.attached ((is_value_iff 0 c.set_fd).0 t)),
      (is_positive_iff c.connect).1 s.connected,
      (check_peer_iff c.peer_certificate cert).1 (s.presented, s.certified),
    ),
  ),
)
