-- ===== src/Server/Startup.antt =====
-- src/server/server.h: `start_server` and the signal handlers.
use pwdmanlib.Base.{
  ℕ, ◌≡◌, refl, Bool, true, false, if◌then◌else◌, Option, none, some, List, [], ◌∷◌, ◌++◌, All,
  arith, zero, suc, ◌⊎◌, inl, inr, append_assoc, sym, ap, ◌∙◌, append-nil,
}

-- What the calls on one address give: its socket if there is one, and whether the option can be set
-- and the socket bound.
pub record Address : Type 0 where
  pub socket : Option ℕ
  pub reuses : Bool
  pub binds : Bool

-- How `start_server` ends, and the sockets that it has closed.
pub data Start : Type 0 where
  listening : ℕ → List ℕ → Start
  exited : ℕ → List ℕ → Start

-- The checks behind the loop; a descriptor of 0 is taken for none.
listen_on : Bool → Bool → ℕ → List ℕ → Start
listen_on listens reaps zero closed = exited 1 closed
listen_on false reaps (suc n) closed = exited 1 closed
listen_on true false (suc n) closed = exited 1 closed
listen_on true true (suc n) closed = listening (suc n) closed

-- The loop over the addresses.
bind_first : Bool → Bool → List Address → List ℕ → Start
unfolding listen_on
bind_first listens reaps [] closed = exited 1 closed
bind_first listens reaps (a ∷ addresses) closed = elim a.socket [
  | none ↦ bind_first listens reaps addresses closed
  | some sock ↦
      let rest = bind_first listens reaps addresses (closed ++ sock ∷ []) in
      if a.reuses
      then if a.binds then listen_on listens reaps sock closed else rest
      else exited 1 closed
]

-- `getaddrinfo` gives the addresses, or fails.
pub start_server : Option (List Address) → Bool → Bool → Start
start_server none listens reaps = exited 1 []
start_server (some addresses) listens reaps = bind_first listens reaps addresses []

-- The signals that the handlers know, and any other.
pub data Signal : Type 0 where
  usr1 hup int quit segv other : Signal

-- `if (listen_sock) { close(listen_sock); }`
unfoldable pub closed_if_open : ℕ → List ℕ
closed_if_open zero = []
closed_if_open (suc n) = suc n ∷ []

-- What the handler does: whether it closes the socket, and the status of its `exit`, if it exits.
unfoldable pub parent_sig_handler : ℕ → Signal → Option ℕ × List ℕ
unfolding closed_if_open
parent_sig_handler listen_sock usr1 = (some 0, [])
parent_sig_handler listen_sock hup = (some 1, closed_if_open listen_sock)
parent_sig_handler listen_sock int = (some 2, closed_if_open listen_sock)
parent_sig_handler listen_sock quit = (some 3, closed_if_open listen_sock)
parent_sig_handler listen_sock segv = (some 4, closed_if_open listen_sock)
parent_sig_handler listen_sock other = (none, [])

-- The calls of `signal` one after the other, up to the first that is refused, which exits.
registrations : Bool → Bool → Bool → Bool → List Signal × Option ℕ
registrations false hups segvs quits = ([], some 255)
registrations true false segvs quits = (int ∷ [], some 255)
registrations true true false quits = (int ∷ hup ∷ [], some 255)
registrations true true true false = (int ∷ hup ∷ segv ∷ [], some 255)
registrations true true true true = (int ∷ hup ∷ segv ∷ quit ∷ [], none)

-- The signals for which the handler is installed, and the status of the `exit`, if there is one.
pub set_sig_handler : (Signal → Bool) → List Signal × Option ℕ
unfolding registrations
set_sig_handler accepts = registrations (accepts int) (accepts hup) (accepts segv) (accepts quit)

-- An address that the loop passes over: it has no socket, or one that cannot be bound.
abbrev Skipped : Address → Type 0
Skipped a = (a.socket ≡ none) ⊎ ((a.reuses ≡ true) × (a.binds ≡ false))

-- The sockets of those addresses.
abbrev pub sockets_of : List Address → List ℕ
sockets_of [] = []
sockets_of (a ∷ addresses) = elim a.socket [
  | none ↦ sockets_of addresses
  | some sock ↦ sock ∷ sockets_of addresses
]

bind_first-skips-one :
    (listens reaps : Bool) (a : Address) (rest : List Address) (closed : List ℕ)
    → Skipped a
    → bind_first listens reaps (a ∷ rest) closed
      ≡ bind_first listens reaps rest (closed ++ sockets_of (a ∷ []))
bind_first-skips-one listens reaps a rest closed (inl e) =
    unfold bind_first in rw (e, append-nil closed) refl
bind_first-skips-one listens reaps a rest closed (inr (r, b)) = skip a.socket refl
  where
    skip :
        (socket : Option ℕ)
        → a.socket ≡ socket
        → bind_first listens reaps (a ∷ rest) closed
          ≡ bind_first listens reaps rest (closed ++ sockets_of (a ∷ []))
    skip none e = unfold bind_first in rw (e, append-nil closed) refl
    skip (some sock) e = unfold bind_first in rw (e, r, b) refl

sockets_of-cons :
    (a : Address) (before : List Address)
    → sockets_of (a ∷ before) ≡ sockets_of (a ∷ []) ++ sockets_of before
sockets_of-cons a before = split a.socket refl
  where
    split :
        (socket : Option ℕ)
        → a.socket ≡ socket
        → sockets_of (a ∷ before) ≡ sockets_of (a ∷ []) ++ sockets_of before
    split none e = rw e refl
    split (some sock) e = rw e refl

bind_first-skips :
    (listens reaps : Bool) (before rest : List Address) (closed : List ℕ)
    → All Skipped before
    → bind_first listens reaps (before ++ rest) closed
      ≡ bind_first listens reaps rest (closed ++ sockets_of before)
bind_first-skips listens reaps [] rest closed h =
    ap (bind_first listens reaps rest) (sym (append-nil closed))
bind_first-skips listens reaps (a ∷ before) rest closed (h, hs) =
    bind_first-skips-one listens reaps a (before ++ rest) closed h
    ∙ bind_first-skips listens reaps before rest (closed ++ sockets_of (a ∷ [])) hs
    ∙ ap (bind_first listens reaps rest) (
        append_assoc closed (sockets_of (a ∷ [])) (sockets_of before)
        ∙ ap (λ t. closed ++ t) (sym (sockets_of-cons a before)))

-- `start_server` listens on the first address that has a socket that can be bound, and has by then
-- closed every socket that it opened for an address before it.
pub start_server_listens :
    (before : List Address) (a : Address) (after : List Address) (sock : ℕ)
    → All Skipped before
    → a.socket ≡ some (suc sock)
    → a.reuses ≡ true
    → a.binds ≡ true
    → start_server (some (before ++ a ∷ after)) true true ≡ listening (suc sock) (sockets_of before)
start_server_listens before a after sock h s r b =
    unfold start_server in
    bind_first-skips true true before (a ∷ after) [] h
    ∙ (unfold bind_first listen_on in rw (s, r, b) refl)

some-inj : {a b : ℕ} → some a ≡ some b → a ≡ b
some-inj h = ground arith

of_status : ℕ → Signal
of_status zero = usr1
of_status (suc zero) = hup
of_status (suc (suc zero)) = int
of_status (suc (suc (suc zero))) = quit
of_status (suc (suc (suc (suc n)))) = segv

parent_sig_handler-status :
    (sock n : ℕ) (s : Signal) → (parent_sig_handler sock s).0 ≡ some n → s ≡ of_status n
unfolding parent_sig_handler of_status
parent_sig_handler-status sock n usr1 h = ap of_status (some-inj h)
parent_sig_handler-status sock n hup h = ap of_status (some-inj h)
parent_sig_handler-status sock n int h = ap of_status (some-inj h)
parent_sig_handler-status sock n quit h = ap of_status (some-inj h)
parent_sig_handler-status sock n segv h = ap of_status (some-inj h)
parent_sig_handler-status sock n other h = cc

status-inj :
    (sock n : ℕ) (s t : Signal)
    → (parent_sig_handler sock s).0 ≡ some n
    → (parent_sig_handler sock t).0 ≡ some n
    → s ≡ t
status-inj sock n s t h k =
    parent_sig_handler-status sock n s h ∙ sym (parent_sig_handler-status sock n t k)

Closes : ℕ → Signal → Type 0
Closes sock r = (m : ℕ) × (parent_sig_handler (suc sock) r ≡ (some (suc m), suc sock ∷ []))

Closes-int : (sock : ℕ) → Closes sock int
unfolding Closes parent_sig_handler closed_if_open
Closes-int sock = (1, refl)

Closes-hup : (sock : ℕ) → Closes sock hup
unfolding Closes parent_sig_handler closed_if_open
Closes-hup sock = (0, refl)

Closes-segv : (sock : ℕ) → Closes sock segv
unfolding Closes parent_sig_handler closed_if_open
Closes-segv sock = (3, refl)

Closes-quit : (sock : ℕ) → Closes sock quit
unfolding Closes parent_sig_handler closed_if_open
Closes-quit sock = (2, refl)

registrations-Closes : (sock : ℕ) (a b c d : Bool) → All (Closes sock) (registrations a b c d).0
unfolding registrations
registrations-Closes sock true true true true =
    (Closes-int sock, (Closes-hup sock, (Closes-segv sock, (Closes-quit sock, tt))))
registrations-Closes sock true true true false =
    (Closes-int sock, (Closes-hup sock, (Closes-segv sock, tt)))
registrations-Closes sock true true false d = (Closes-int sock, (Closes-hup sock, tt))
registrations-Closes sock true false c d = (Closes-int sock, tt)
registrations-Closes sock false b c d = tt

-- The exit status of `parent_sig_handler` tells the signal, and every signal for which
-- `set_sig_handler` installs it closes a socket that is open and exits with a status other than 0.
parent_sig_handler_exits :
    (accepts : Signal → Bool) (sock n : ℕ) (s t : Signal)
    → ((parent_sig_handler sock s).0 ≡ some n)
    → ((parent_sig_handler sock t).0 ≡ some n)
    → (s ≡ t)
      × All
          (λ r. (m : ℕ) × (parent_sig_handler (suc sock) r ≡ (some (suc m), suc sock ∷ [])))
          (set_sig_handler accepts).0
parent_sig_handler_exits accepts sock n s t h k = (
  status-inj sock n s t h k,
  (unfold set_sig_handler in
      (unfold Closes in
        registrations-Closes sock (accepts int) (accepts hup) (accepts segv) (accepts quit))),
)
