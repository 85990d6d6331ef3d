-- ===== src/Programs/Tests.antt =====
-- The programs run.
use pwdmanlib.Base.{◌≡◌, refl, true, none, [], ◌∷◌, ok}
use pwdmanlib.Programs.Signals.{oop_sig_handler, sig_fpe, int_div}
use pwdmanlib.Response.{get_response_len, create_reponse}
use pwdmanlib.Programs.Classes.{response_test}

sig_handler_int_div : oop_sig_handler (λ c. true) none [] (sig_fpe int_div) ≡ ok 249
unfolding oop_sig_handler
sig_handler_int_div = refl

response_lengths : response_test.0 ≡ 44 ∷ 168 ∷ 194 ∷ 196 ∷ []
unfolding response_test get_response_len create_reponse
response_lengths = refl
