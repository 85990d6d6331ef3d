-- ===== src/Main/Serve/Runs.antt =====
-- The loop of `main` over the clients that arrive, without signals.
use pwdmanlib.Base.{
  ℕ, ◌≡◌, refl, sym, ap, ◌∙◌, Option, none, some, List, [], ◌∷◌, ◌++◌, Bytes, Result, Fault, ok,
  fault, stop, ◌>>=◌, ◌>>◌, arith, false, subst, spin, Bool,
}
use pwdmanlib.StringOps.{File}
use pwdmanlib.Ssl.{is_positive}
use pwdmanlib.Ssl.Accept.{config_server_ssl, config_server_ssl_refuses, IsReady}
use pwdmanlib.Server.Respond.{Responded, respond, respond-refused}
use pwdmanlib.Main.Serve.{
  Log, Arrival, opened, served, answer, waiting, accepts, answers, Reach, here, onward,
  Reach-append, accept_loop,
}

module _ (room : ℕ → ℕ) (nulls : Bool) (files : Bytes → File) (root_dir : Bytes)
    (listen_sock : ℕ) where
  answer-refused :
      (a : Arrival)
      → config_server_ssl a.session ≡ stop 1
      → answer room nulls files root_dir a ≡ stop 1
  unfolding answer
  answer-refused a h =
      ap (λ m. m >>= λ r. r.routed.end >> ok r)
        (respond-refused room nulls files root_dir a.session a.reads a.writes h)

  pub accept_loop-none :
      (a : Arrival) (arrivals : List Arrival) (log : Log)
      → a.sock ≡ none
      → accept_loop room nulls files root_dir (a ∷ arrivals) log
        ≡ accept_loop room nulls files root_dir arrivals log
  unfolding accept_loop
  accept_loop-none a arrivals log e = rw e refl

  pub accept_loop-some :
      (a : Arrival) (arrivals : List Arrival) (log : Log) (sock : ℕ)
      → a.sock ≡ some sock
      → accept_loop room nulls files root_dir (a ∷ arrivals) log ≡ (
          answer room nulls files root_dir a >>= λ r.
          accept_loop room nulls files root_dir arrivals (served (opened log sock) sock r))
  unfolding accept_loop answer
  accept_loop-some a arrivals log sock e = rw e refl

  -- A client whose request does not end: nobody behind it is accepted.
  pub accept_loop-waits :
      (a : Arrival) (arrivals : List Arrival) (log : Log) (sock : ℕ)
      → a.sock ≡ some sock
      → respond room nulls files root_dir a.session a.reads a.writes ≡ spin
      → accept_loop room nulls files root_dir (a ∷ arrivals) log ≡ spin
  unfolding answer
  accept_loop-waits a arrivals log sock accepted waits =
      accept_loop-some a arrivals log sock accepted ∙ rw waits refl

  -- A client that was answered: its socket is closed, and the next one is waited for.
  accept_loop-answers :
      (a : Arrival) (arrivals : List Arrival) (log : Log) (sock : ℕ) (r : Responded)
      → a.sock ≡ some sock
      → respond room nulls files root_dir a.session a.reads a.writes ≡ ok r
      → r.routed.end ≡ ok tt
      → accept_loop room nulls files root_dir (a ∷ arrivals) log
        ≡ accept_loop room nulls files root_dir arrivals (served (opened log sock) sock r)
  unfolding answer
  accept_loop-answers a arrivals log sock r accepted responded ended =
      accept_loop-some a arrivals log sock accepted ∙ rw (responded, ended) refl

  -- A client whose answer was not defined: so is the loop, whoever waits.
  accept_loop-faults :
      (a : Arrival) (arrivals : List Arrival) (log : Log) (sock : ℕ) (r : Responded) (e : Fault)
      → a.sock ≡ some sock
      → respond room nulls files root_dir a.session a.reads a.writes ≡ ok r
      → r.routed.end ≡ fault e
      → accept_loop room nulls files root_dir (a ∷ arrivals) log ≡ fault e
  unfolding answer
  accept_loop-faults a arrivals log sock r e accepted responded ended =
      accept_loop-some a arrivals log sock accepted ∙ rw (responded, ended) refl

  bind-ok :
      (m : Result Responded) (k : Responded → Result Log) (log : Log)
      → (m >>= k) ≡ ok log
      → (r : Responded) × (m ≡ ok r) × (k r ≡ ok log)
  bind-ok (ok r) k log h = (r, refl, h)
  bind-ok (fault e) k log h = ground arith
  bind-ok (stop n) k log h = ground arith
  bind-ok spin k log h = ground arith

  ok-inj : (a b : Log) → ok a ≡ ok b → a ≡ b
  ok-inj a b h = ground arith

  -- The loop without signals is a run of the steps.
  pub accept_loop-Reach :
      (arrivals : List Arrival) (log log' : Log)
      → accept_loop room nulls files root_dir arrivals log ≡ ok log'
      → Reach room nulls files root_dir listen_sock (waiting log) (waiting log')
  accept_loop-Reach [] log log' h =
      subst (λ l. Reach room nulls files root_dir listen_sock (waiting log) (waiting l))
        (ok-inj log log' (unfold accept_loop in h)) here
  accept_loop-Reach (a ∷ arrivals) log log' h = by a.sock refl (accept_loop-Reach arrivals)
    where
      by :
          (sock : Option ℕ)
          → a.sock ≡ sock
          → ((l l' : Log)
              → accept_loop room nulls files root_dir arrivals l ≡ ok l'
              → Reach room nulls files root_dir listen_sock (waiting l) (waiting l'))
          → Reach room nulls files root_dir listen_sock (waiting log) (waiting log')
      by none e ih = ih log log' (sym (accept_loop-none a arrivals log e) ∙ h)
      by (some sock) e ih =
          let (r, answered, rest) =
            bind-ok (answer room nulls files root_dir a) _ log'
              (sym (accept_loop-some a arrivals log sock e) ∙ h) in
          Reach-append room nulls files root_dir listen_sock
            (onward (onward here (accepts sock)) (answers a r answered))
            (ih (served (opened log sock) sock r) log' rest)

  accept_loop-append :
      (before rest : List Arrival) (log log' : Log)
      → accept_loop room nulls files root_dir before log ≡ ok log'
      → accept_loop room nulls files root_dir (before ++ rest) log
        ≡ accept_loop room nulls files root_dir rest log'
  accept_loop-append [] rest log log' h =
      ap (accept_loop room nulls files root_dir rest) (ok-inj log log' (unfold accept_loop in h))
  accept_loop-append (a ∷ before) rest log log' h = by a.sock refl (accept_loop-append before rest)
    where
      by :
          (sock : Option ℕ)
          → a.sock ≡ sock
          → ((l l' : Log)
              → accept_loop room nulls files root_dir before l ≡ ok l'
              → accept_loop room nulls files root_dir (before ++ rest) l
                ≡ accept_loop room nulls files root_dir rest l')
          → accept_loop room nulls files root_dir (a ∷ before ++ rest) log
            ≡ accept_loop room nulls files root_dir rest log'
      by none e ih =
          accept_loop-none a (before ++ rest) log e
          ∙ ih log log' (sym (accept_loop-none a before log e) ∙ h)
      by (some sock) e ih =
          let (r, answered, more) =
            bind-ok (answer room nulls files root_dir a) _ log'
              (sym (accept_loop-some a before log sock e) ∙ h) in
          accept_loop-some a (before ++ rest) log sock e
          ∙ ap
              (λ m. m >>= λ r.
                accept_loop room nulls files root_dir (before ++ rest)
                  (served (opened log sock) sock r))
              answered
          ∙ ih (served (opened log sock) sock r) log' more

  -- The server serves the clients before it, and is ended with status 1 by the first client
  -- whose handshake is reached and fails, whoever waits behind it.
  pub accept_loop-handshake :
      (before after : List Arrival) (a : Arrival) (sock : ℕ) (log log' : Log)
      → accept_loop room nulls files root_dir before log ≡ ok log'
      → a.sock ≡ some sock
      → IsReady a.session
      → is_positive a.session.accept ≡ false
      → accept_loop room nulls files root_dir (before ++ a ∷ after) log ≡ stop 1
  accept_loop-handshake before after a sock log log' h s ready f =
      let refused : config_server_ssl a.session ≡ stop 1 =
        config_server_ssl_refuses a.session ready f in
      accept_loop-append before (a ∷ after) log log' h
      ∙ accept_loop-some a after log' sock s
      ∙ ap
          (λ m. m >>= λ r.
            accept_loop room nulls files root_dir after (served (opened log' sock) sock r))
          (answer-refused a refused)
