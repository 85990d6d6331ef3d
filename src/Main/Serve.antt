-- ===== src/Main/Serve.antt =====
-- src/server/server.c: the loop of `main` that accepts clients, as steps that the handler of the
-- signals can come between. The flag that the loop tests is never set.
pub mod Runs
pub mod Pages
pub mod Lines
pub mod Termination
use pwdmanlib.Base.{
  ℕ, zero, suc, ◌≡◌, ◌≢◌, refl, sym, ap, ap₂, ◌∙◌, Option, none, some, List, [], ◌∷◌, ◌++◌, length,
  Bytes, Result, ok, fault, stop, ◌>>=◌, ◌>>◌, append_assoc, append-nil, arith, Bool, true, false,
  ◌⊎◌, inl, inr, length-append, subst, spin,
}
use pwdmanlib.Vector.{CInt}
use pwdmanlib.StringOps.{File}
use pwdmanlib.Ssl.{Read, is_positive}
use pwdmanlib.Ssl.Accept.{ServerCalls, config_server_ssl, config_server_ssl_refuses}
use pwdmanlib.Server.Respond.{Responded, respond, respond-refused}
use pwdmanlib.Server.Startup.{
  Signal, usr1, hup, int, quit, segv, other, closed_if_open, parent_sig_handler,
}

-- What the loop has done: the sockets that it accepted and closed, and the answers that it gave.
pub record Log : Type 0 where
  pub accepted : List ℕ
  pub closed : List ℕ
  pub answers : List Responded

-- One round: the socket of the client, or `none` where `accept` fails, and the results of the calls on
-- its connection.
pub record Arrival : Type 0 where
  pub sock : Option ℕ
  pub session : ServerCalls
  pub reads : List Read
  pub writes : List CInt

abbrev pub opened : Log → ℕ → Log
opened log sock = record log { accepted = log.accepted ++ sock ∷ [] }

abbrev pub served : Log → ℕ → Responded → Log
served log sock r = record log { closed = log.closed ++ sock ∷ []; answers = log.answers ++ r ∷ [] }

abbrev pub empty_log : Log
empty_log = record { accepted = []; closed = []; answers = [] }

-- The loop waits in `accept`, serves a client, or is over: the status of the exit, and whether the
-- socket that listens was closed.
pub data State : Type 0 where
  waiting : Log → State
  serving : ℕ → Log → State
  over : ℕ → List ℕ → State

closed_if_open_lem : (sock : ℕ) → (closed_if_open sock ≡ []) ⊎ (closed_if_open sock ≡ sock ∷ [])
unfolding closed_if_open
closed_if_open_lem zero = inl refl
closed_if_open_lem (suc n) = inr refl

closes :
    (sock : ℕ) (signal : Signal)
    → ((parent_sig_handler sock signal).1 ≡ []) ⊎ ((parent_sig_handler sock signal).1 ≡ sock ∷ [])
unfolding parent_sig_handler
closes sock usr1 = inl refl
closes sock hup = closed_if_open_lem sock
closes sock int = closed_if_open_lem sock
closes sock quit = closed_if_open_lem sock
closes sock segv = closed_if_open_lem sock
closes sock other = inl refl

module _ (room : ℕ → ℕ) (nulls : Bool) (files : Bytes → File) (root_dir : Bytes) where
  -- The answer of `respond`, where what it did to the socket ended too.
  pub answer : Arrival → Result Responded
  answer a =
      respond room nulls files root_dir a.session a.reads a.writes >>= λ r. r.routed.end >> ok r

  -- The loop without signals, over the clients that arrive; it is left waiting for the next one.
  unfoldable pub accept_loop : List Arrival → Log → Result Log
  accept_loop [] log = ok log
  accept_loop (a ∷ arrivals) log = elim a.sock [
    | none ↦ accept_loop arrivals log
    | some sock ↦ answer a >>= λ r. accept_loop arrivals (served (opened log sock) sock r)
  ]

module _ (room : ℕ → ℕ) (nulls : Bool) (files : Bytes → File) (root_dir : Bytes)
    (listen_sock : ℕ) where
  pub data Step : State → State → Type 0 where
    accept_fails : {log : Log} → Step (waiting log) (waiting log)
    accepts : {log : Log} (sock : ℕ) → Step (waiting log) (serving sock (opened log sock))
    answers :
        {log : Log} {sock : ℕ} (a : Arrival) (r : Responded)
        → answer room nulls files root_dir a ≡ ok r
        → Step (serving sock log) (waiting (served log sock r))
    exits :
        {log : Log} {sock : ℕ} (a : Arrival) (status : ℕ)
        → answer room nulls files root_dir a ≡ stop status
        → Step (serving sock log) (over status [])
    interrupted_waiting :
        {log : Log} (signal : Signal) (status : ℕ) (closed : List ℕ)
        → parent_sig_handler listen_sock signal ≡ (some status, closed)
        → Step (waiting log) (over status closed)
    interrupted_serving :
        {log : Log} {sock : ℕ} (signal : Signal) (status : ℕ) (closed : List ℕ)
        → parent_sig_handler listen_sock signal ≡ (some status, closed)
        → Step (serving sock log) (over status closed)

  pub data Reach : State → State → Type 0 where
    here : {s : State} → Reach s s
    onward : {s t u : State} → Reach s t → Step t u → Reach s u

  -- What holds in each state that the loop can be in.
  pub Invariant : State → Type 0
  Invariant (waiting log) = (log.accepted ≡ log.closed) × (length log.answers ≡ length log.closed)
  Invariant (serving sock log) =
      (log.accepted ≡ log.closed ++ sock ∷ []) × (length log.answers ≡ length log.closed)
  Invariant (over status closed) = (closed ≡ []) ⊎ (closed ≡ listen_sock ∷ [])

  closed_if_open-Invariant :
      (status : ℕ) (signal : Signal) (closed : List ℕ)
      → parent_sig_handler listen_sock signal ≡ (some status, closed)
      → Invariant (over status closed)
  unfolding Invariant
  closed_if_open-Invariant status signal closed h =
      let e = ap (λ p. p.1) h in
      elim (closes listen_sock signal) [ inl c ↦ inl (sym e ∙ c) | inr c ↦ inr (sym e ∙ c) ]

  Step-Invariant : {s t : State} → Step s t → Invariant s → Invariant t
  unfolding Invariant
  Step-Invariant accept_fails k = k
  Step-Invariant (accepts {log} sock) (e, l) = (ap (λ t. t ++ sock ∷ []) e, l)
  Step-Invariant (answers {log} {sock} a r h) (e, l) =
      (e, ground (arith, length-append log.answers (r ∷ []), length-append log.closed (sock ∷ [])))
  Step-Invariant (exits a status h) k = inl refl
  Step-Invariant (interrupted_waiting signal status closed h) k =
      closed_if_open-Invariant status signal closed h
  Step-Invariant (interrupted_serving signal status closed h) k =
      closed_if_open-Invariant status signal closed h

  Reach-keeps : {s t : State} → Reach s t → Invariant s → Invariant t
  Reach-keeps here k = k
  Reach-keeps (onward r step) k = Step-Invariant step (Reach-keeps r k)

  pub Reach-append : {s t u : State} → Reach s t → Reach t u → Reach s u
  Reach-append r here = r
  Reach-append r (onward q step) = onward (Reach-append r q) step

  -- In whatever way the loop got to a state, signals included: where it waits, every socket that it
  -- accepted is closed, in their order, and each client got its answer; where it serves a client, the
  -- socket of that client is the one that is open; where it is over, at most the socket that
  -- listens was closed at the end.
  pub Reach-Invariant : (s : State) → Reach (waiting empty_log) s → Invariant s
  Reach-Invariant s r = Reach-keeps r (unfold Invariant in (refl, refl))
