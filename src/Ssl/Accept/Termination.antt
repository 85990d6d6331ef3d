-- ===== src/Ssl/Accept/Termination.antt =====
-- The handshake of the server ends.
use pwdmanlib.Base.{
  Bool, true, false, Ends, ok-Ends, fault-Ends, stop-Ends, bind-Ends, if-Ends, null_pointer,
}
use pwdmanlib.Ssl.{is_positive}
use pwdmanlib.Ssl.Accept.{ServerCalls, init_ssl, accept_on, config_server_ssl}

init_ssl-Ends : (ssl crypto : Bool) → Ends (init_ssl ssl crypto)
unfolding init_ssl
init_ssl-Ends true true = ok-Ends tt
init_ssl-Ends true false = stop-Ends 255
init_ssl-Ends false crypto = stop-Ends 255

pub config_server_ssl-Ends : (c : ServerCalls) → Ends (config_server_ssl c)
unfolding config_server_ssl accept_on
config_server_ssl-Ends c = bind-Ends _ _ (init_ssl-Ends c.ssl_init c.crypto_init) (λ started.
    if-Ends c.ctx_new _ _
      (if-Ends c.ssl_new _ _ (if-Ends (is_positive c.accept) _ _ (ok-Ends _) (stop-Ends 1))
        (fault-Ends null_pointer))
      (fault-Ends null_pointer))
