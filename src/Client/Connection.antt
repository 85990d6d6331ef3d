-- ===== src/Client/Connection.antt =====
-- src/client/client.c: `start_client` and `sig_handler`.
use pwdmanlib.Base.{
  ℕ, ◌≡◌, refl, sym, ap, ◌∙◌, Bool, true, false, if◌then◌else◌, Option, none, some, List, [], ◌∷◌,
  ◌++◌, All, subst, ◌⊎◌, inl, inr, append_assoc, append-nil,
}
use pwdmanlib.Server.Startup.{Signal, usr1, hup, int, quit, segv, other}

-- What the calls on one address give.
pub record Attempt : Type 0 where
  pub socket : Option ℕ
  pub connects : Bool

-- How `start_client` ends, and the sockets that it has closed.
data Connect : Type 0 where
  connected : ℕ → List ℕ → Connect
  gave_up : ℕ → List ℕ → Connect

-- The loop over the addresses.
connect_first : List Attempt → List ℕ → Connect
connect_first [] closed = gave_up 1 closed
connect_first (a ∷ attempts) closed = elim a.socket [
  | none ↦ connect_first attempts closed
  | some sock ↦
      let rest = connect_first attempts (closed ++ sock ∷ []) in
      if a.connects then connected sock closed else rest
]

-- `getaddrinfo` gives the addresses of the host, or fails.
start_client : Option (List Attempt) → Connect
unfolding connect_first
start_client none = gave_up 1 []
start_client (some attempts) = connect_first attempts []

-- The handler closes the worker's socket whatever it is, and exits.
unfoldable pub sig_handler : ℕ → Signal → Option ℕ × List ℕ
sig_handler worker_sock hup = (some 1, worker_sock ∷ [])
sig_handler worker_sock int = (some 2, worker_sock ∷ [])
sig_handler worker_sock quit = (some 3, worker_sock ∷ [])
sig_handler worker_sock segv = (some 255, worker_sock ∷ [])
sig_handler worker_sock usr1 = (none, [])
sig_handler worker_sock other = (none, [])

-- The sockets that are opened for addresses.
abbrev pub sockets_of : List Attempt → List ℕ
sockets_of [] = []
sockets_of (a ∷ attempts) = elim a.socket [
  | none ↦ sockets_of attempts
  | some sock ↦ sock ∷ sockets_of attempts
]

-- An address that cannot be connected to.
abbrev Fails : Attempt → Type 0
Fails a = (a.socket ≡ none) ⊎ (a.connects ≡ false)

record Connected (attempts : List Attempt) (closed : List ℕ) (result : Connect) : Type 0 where
  pub before : List Attempt
  pub chosen : Attempt
  pub after : List Attempt
  pub sock : ℕ
  pub splits : attempts ≡ before ++ chosen ∷ after
  pub opened : chosen.socket ≡ some sock
  pub connects : chosen.connects ≡ true
  pub failed : All Fails before
  pub ends : result ≡ connected sock (closed ++ sockets_of before)

abbrev GivesUp : List Attempt → List ℕ → Connect → Type 0
GivesUp attempts closed result =
    All Fails attempts × (result ≡ gave_up 1 (closed ++ sockets_of attempts))

sockets_of-cons :
    (a : Attempt) (closed : List ℕ) (rest : List Attempt)
    → (closed ++ sockets_of (a ∷ [])) ++ sockets_of rest ≡ closed ++ sockets_of (a ∷ rest)
sockets_of-cons a closed rest = by a.socket refl
  where
    by :
        (socket : Option ℕ)
        → a.socket ≡ socket
        → (closed ++ sockets_of (a ∷ [])) ++ sockets_of rest ≡ closed ++ sockets_of (a ∷ rest)
    by none e = rw (e, append-nil closed) refl
    by (some sock) e = rw e (append_assoc closed (sock ∷ []) (sockets_of rest))

Ends : List Attempt → List ℕ → Connect → Type 0
Ends attempts closed result = Connected attempts closed result ⊎ GivesUp attempts closed result

-- An address that fails comes before the others.
Ends-cons :
    (a : Attempt) (rest : List Attempt) (closed : List ℕ) (result : Connect)
    → Fails a
    → Ends rest (closed ++ sockets_of (a ∷ [])) result
    → Ends (a ∷ rest) closed result
unfolding Ends
Ends-cons a rest closed result f (inl c) = inl (record {
  before = a ∷ c.before;
  chosen = c.chosen;
  after = c.after;
  sock = c.sock;
  splits = ap (λ t. a ∷ t) c.splits;
  opened = c.opened;
  connects = c.connects;
  failed = (f, c.failed);
  ends = c.ends ∙ ap (connected c.sock) (sockets_of-cons a closed c.before);
})
Ends-cons a rest closed result f (inr (fs, e)) =
    inr ((f, fs), e ∙ ap (gave_up 1) (sockets_of-cons a closed rest))

connect_first-Ends :
    (attempts : List Attempt) (closed : List ℕ)
    → Ends attempts closed (connect_first attempts closed)
connect_first-Ends [] closed =
    unfold Ends connect_first in inr (tt, ap (gave_up 1) (sym (append-nil closed)))
connect_first-Ends (a ∷ attempts) closed =
    by a.socket a.connects refl refl (connect_first-Ends attempts (closed ++ sockets_of (a ∷ [])))
  where
    by :
        (socket : Option ℕ) (connects : Bool)
        → a.socket ≡ socket
        → a.connects ≡ connects
        → Ends attempts
            (closed ++ sockets_of (a ∷ []))
            (connect_first attempts (closed ++ sockets_of (a ∷ [])))
        → Ends (a ∷ attempts) closed (connect_first (a ∷ attempts) closed)
    by none connects e c ih =
        let step : connect_first (a ∷ attempts) closed
            ≡ connect_first attempts (closed ++ sockets_of (a ∷ [])) =
          unfold connect_first in rw (e, append-nil closed) refl in
        subst (Ends (a ∷ attempts) closed) (sym step) (Ends-cons a attempts closed _ (inl e) ih)
    by (some sock) false e c ih =
        let step : connect_first (a ∷ attempts) closed
            ≡ connect_first attempts (closed ++ sockets_of (a ∷ [])) =
          unfold connect_first in rw (e, c) refl in
        subst (Ends (a ∷ attempts) closed) (sym step) (Ends-cons a attempts closed _ (inr c) ih)
    by (some sock) true e c ih =
        let step : connect_first (a ∷ attempts) closed ≡ connected sock closed =
          unfold connect_first in rw (e, c) refl in
        unfold Ends in
        inl (record {
          before = [];
          chosen = a;
          after = attempts;
          sock = sock;
          splits = refl;
          opened = e;
          connects = c;
          failed = tt;
          ends = step ∙ ap (connected sock) (sym (append-nil closed));
        })

-- `start_client` connects to the first address that has a socket that connects, with every socket
-- that it opened before closed; if there is none it has closed them all, and exits with status 1.
start_client_ends :
    (attempts : List Attempt)
    → Connected attempts [] (start_client (some attempts))
      ⊎ (All Fails attempts × (start_client (some attempts) ≡ gave_up 1 (sockets_of attempts)))
start_client_ends attempts = unfold start_client in (unfold Ends in connect_first-Ends attempts [])
