-- ===== src/Main/Program/Stops.antt =====
-- What ends the server while clients wait.
use pwdmanlib.Base.{
  ℕ, ◌≡◌, false, ap, ◌∙◌, some, List, ◌∷◌, ◌++◌, Bytes, Result, ok, stop, ◌>>=◌, Bool,
}
use pwdmanlib.StringOps.{File}
use pwdmanlib.Ssl.{is_positive}
use pwdmanlib.Ssl.Accept.{IsReady}
use pwdmanlib.Main.Serve.{Log, Arrival, empty_log, accept_loop}
use pwdmanlib.Main.Serve.Runs.{accept_loop-handshake}
use pwdmanlib.Main.Program.{Machine, serves, server_main, IsStarted, server_main-started}

module _ (room : ℕ → ℕ) (nulls : Bool) (files : Bytes → File) (m : Machine) (argv : List Bytes)
    (root_dir : Bytes) (listen_sock : ℕ) (started : IsStarted m argv root_dir listen_sock) where
  -- The end of the loop is that of the server.
  server_main-loop :
      (arrivals : List Arrival) (looped : Result Log)
      → accept_loop room nulls files root_dir arrivals empty_log ≡ looped
      → server_main room nulls files arrivals m argv
        ≡ (looped >>= λ log. ok (serves listen_sock log))
  server_main-loop arrivals looped h =
      server_main-started room nulls files arrivals m argv root_dir listen_sock started
      ∙ ap (λ r. r >>= λ log. ok (serves listen_sock log)) h

  -- A server that was started serves the clients before it, and leaves with status 1 at the first
  -- client whose handshake is reached and fails, whoever waits behind it.
  pub server_main-handshake :
      (before after : List Arrival) (a : Arrival) (sock : ℕ) (log : Log)
      → accept_loop room nulls files root_dir before empty_log ≡ ok log
      → a.sock ≡ some sock
      → IsReady a.session
      → is_positive a.session.accept ≡ false
      → server_main room nulls files (before ++ a ∷ after) m argv ≡ stop 1
  server_main-handshake before after a sock log h s ready f =
      server_main-loop (before ++ a ∷ after) (stop 1) (
        accept_loop-handshake room nulls files root_dir listen_sock before after a sock empty_log
          log h s ready f)
