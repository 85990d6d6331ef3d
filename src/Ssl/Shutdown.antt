-- ===== src/Ssl/Shutdown.antt =====
-- src/crypto/ssl_funcs.h: `shutdownSSL`, `destroySSL`, `configCAStack`, `initClientCTX` and the
-- printing of a certificate's subject.
use pwdmanlib.Base.{
  ℕ, zero, suc, ◌+◌, ap, ◌≡◌, ◌≢◌, ◌↔◌, ◌⊎◌, inl, inr, refl, Bool, true, false, if◌then◌else◌, List,
  [], ◌∷◌, ◌++◌, Bytes, codes, Result, ok, fault, invalid_free, arith,
}
use pwdmanlib.Vector.{CInt, pos, negsuc}
use pwdmanlib.Ssl.{is_value}

-- The calls of `SSL_shutdown` and `SSL_get_error` that `shutdownSSL` makes, and the errors that it
-- prints.
pub data Action : Type 0 where
  call_shutdown get_error report_bidirectional report_ssl report_state : Action

-- The second call, after a 0.
second_shutdown : CInt → List Action
second_shutdown (negsuc zero) = call_shutdown ∷ report_bidirectional ∷ []
second_shutdown (negsuc (suc n)) = call_shutdown ∷ []
second_shutdown (pos n) = call_shutdown ∷ []

-- `err == SSL_ERROR_SSL`, which is 1.
after_failure : CInt → List Action
unfolding is_value
after_failure err =
    get_error ∷ (if is_value 1 err then report_ssl ∷ report_state ∷ [] else report_state ∷ [])

-- The results of the two calls of `SSL_shutdown` and that of `SSL_get_error`.
pub shutdown_ssl : CInt → CInt → CInt → List Action
unfolding second_shutdown after_failure
shutdown_ssl (pos zero) again err = call_shutdown ∷ second_shutdown again
shutdown_ssl (pos (suc n)) again err = call_shutdown ∷ []
shutdown_ssl (negsuc zero) again err = call_shutdown ∷ after_failure err
shutdown_ssl (negsuc (suc n)) again err = call_shutdown ∷ []

shutdowns : List Action → ℕ
shutdowns [] = 0
shutdowns (call_shutdown ∷ actions) = suc (shutdowns actions)
shutdowns (get_error ∷ actions) = shutdowns actions
shutdowns (report_bidirectional ∷ actions) = shutdowns actions
shutdowns (report_ssl ∷ actions) = shutdowns actions
shutdowns (report_state ∷ actions) = shutdowns actions

-- What `destroySSL` frees after the tables of the library.
pub data Freed : Type 0 where
  library_tables connection context : Freed

pub destroy_ssl : Bool → Bool → List Freed
destroy_ssl cssl ctx =
    library_tables ∷ ((if cssl then connection ∷ [] else []) ++ (if ctx then context ∷ [] else []))

-- The messages of `initClientCTX` and of `initServerCTX`, and whether there is a context; without a
-- method OpenSSL makes none.
init_client_ctx : Bool → Bool → ℕ × Bool
init_client_ctx true ctx = (if ctx then 0 else 1, ctx)
init_client_ctx false ctx = (2, false)

init_server_ctx : Bool → Bool → ℕ × Bool
init_server_ctx true ctx = (if ctx then 0 else 2, ctx)
init_server_ctx false ctx = (3, false)

-- The errors that `configCAStack` prints, and whether it sets the list of names.
config_ca_stack : CInt → Bool → ℕ × Bool
unfolding is_value
config_ca_stack status names =
    ((if is_value 1 status then 0 else 1) + (if names then 0 else 1), names)

-- `printSubjOneline`: it writes the text, or a question mark for an empty one, and then frees the
-- subject, which belongs to the certificate.
print_subj_oneline : Bool → Bytes → Bytes × Result (Unit {0})
print_subj_oneline subj [] = (codes "?", if subj then fault invalid_free else ok tt)
print_subj_oneline subj (c ∷ text) = (c ∷ text, if subj then fault invalid_free else ok tt)

-- One call, or two after a 0.
Calls : ℕ → CInt → Type 0
Calls n first = ((n ≡ 1) ⊎ (n ≡ 2)) × ((n ≡ 2) ↔ (first ≡ pos 0))

second-shutdowns : (again : CInt) → shutdowns (second_shutdown again) ≡ 1
unfolding second_shutdown shutdowns
second-shutdowns (negsuc zero) = refl
second-shutdowns (negsuc (suc n)) = refl
second-shutdowns (pos n) = refl

failure-shutdowns : (err : CInt) → shutdowns (after_failure err) ≡ 0
unfolding after_failure shutdowns
failure-shutdowns err = by (is_value 1 err)
  where
    by :
        (b : Bool) → shutdowns (if b then report_ssl ∷ report_state ∷ [] else report_state ∷ []) ≡ 0
    by true = refl
    by false = refl

Calls-twice : (n : ℕ) → n ≡ 2 → Calls n (pos 0)
unfolding Calls
Calls-twice n e = (inr e, (λ h. refl, λ h. e))

Calls-once : (n : ℕ) (first : CInt) → n ≡ 1 → first ≢ pos 0 → Calls n first
unfolding Calls
Calls-once n first e ne = (inl e, (λ h. absurd (omega arith), λ h. absurd (ne h)))

by_first : (first again err : CInt) → Calls (shutdowns (shutdown_ssl first again err)) first
unfolding shutdown_ssl shutdowns
by_first (pos zero) again err = Calls-twice _ (ap suc (second-shutdowns again))
by_first (pos (suc n)) again err = Calls-once _ _ refl (λ h. ground arith)
by_first (negsuc zero) again err =
    Calls-once _ _ (ap suc (failure-shutdowns err)) (λ h. ground arith)
by_first (negsuc (suc n)) again err = Calls-once _ _ refl (λ h. ground arith)

-- `shutdownSSL` calls `SSL_shutdown` once or twice, and twice exactly when the first call returns 0.
shutdown_ssl_calls :
    (first again err : CInt)
    → ((shutdowns (shutdown_ssl first again err) ≡ 1)
        ⊎ (shutdowns (shutdown_ssl first again err) ≡ 2))
      × ((shutdowns (shutdown_ssl first again err) ≡ 2) ↔ (first ≡ pos 0))
shutdown_ssl_calls first again err = unfold Calls in by_first first again err
