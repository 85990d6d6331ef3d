-- ===== src/Main/Serve/Lines.antt =====
-- What the loop of `main` has done where it waits: to the sockets of the clients, and with them.
use pwdmanlib.Base.{
  ℕ, ◌≡◌, refl, sym, subst, Option, none, some, List, [], ◌∷◌, Bytes, length, All, All-append, ok,
  Yields, bind-Yields, bind_known-Yields, Bool,
}
use pwdmanlib.StringOps.{File}
use pwdmanlib.Server.Respond.{Responded}
use pwdmanlib.Server.Respond.Lines.{IsStatusOnly, respond-IsStatusOnly}
use pwdmanlib.Main.Serve.{
  Log, Arrival, empty_log, opened, served, answer, accept_loop, waiting, Invariant, Reach-Invariant,
}
use pwdmanlib.Main.Serve.Runs.{accept_loop-none, accept_loop-some, accept_loop-Reach}

-- Every answer in the log is one of status lines.
abbrev pub AllStatusOnly : Log → Type 0
AllStatusOnly log = All IsStatusOnly log.answers

module _ (room : ℕ → ℕ) (nulls : Bool) (files : Bytes → File) (root_dir : Bytes) where
  answer-IsStatusOnly : (a : Arrival) → Yields IsStatusOnly (answer room nulls files root_dir a)
  unfolding answer
  answer-IsStatusOnly a =
      bind_known-Yields IsStatusOnly IsStatusOnly _ _
        (respond-IsStatusOnly room nulls files root_dir a.session a.reads a.writes)
        (λ (r : Responded) h. bind-Yields IsStatusOnly r.routed.end (λ _. ok r) (λ _. h))

  pub accept_loop-AllStatusOnly :
      (arrivals : List Arrival) (log : Log)
      → AllStatusOnly log
      → Yields AllStatusOnly (accept_loop room nulls files root_dir arrivals log)
  unfolding accept_loop
  accept_loop-AllStatusOnly [] log h = h
  accept_loop-AllStatusOnly (a ∷ arrivals) log h =
      by a.sock refl (accept_loop-AllStatusOnly arrivals)
    where
      by :
          (sock : Option ℕ)
          → a.sock ≡ sock
          → ((l : Log)
              → AllStatusOnly l
              → Yields AllStatusOnly (accept_loop room nulls files root_dir arrivals l))
          → Yields AllStatusOnly (accept_loop room nulls files root_dir (a ∷ arrivals) log)
      by none e rest =
          subst (Yields AllStatusOnly)
            (sym (accept_loop-none room nulls files root_dir 0 a arrivals log e)) (rest log h)
      by (some sock) e rest =
          subst (Yields AllStatusOnly)
            (sym (accept_loop-some room nulls files root_dir 0 a arrivals log sock e))
            (bind_known-Yields IsStatusOnly AllStatusOnly _ _ (answer-IsStatusOnly a) (λ r lines.
              rest (served (opened log sock) sock r)
                (All-append IsStatusOnly log.answers (r ∷ []) h (lines, tt))))

-- The sockets and the answers of the loop that waits, by the invariant of its steps.
pub accept_loop-closes :
    (room : ℕ → ℕ) (nulls : Bool) (files : Bytes → File) (root_dir : Bytes)
    (arrivals : List Arrival) (log : Log)
    → accept_loop room nulls files root_dir arrivals empty_log ≡ ok log
    → (log.accepted ≡ log.closed) × (length log.answers ≡ length log.closed)
unfolding Invariant
accept_loop-closes room nulls files root_dir arrivals log looped =
    Reach-Invariant room nulls files root_dir 0 (waiting log)
      (accept_loop-Reach room nulls files root_dir 0 arrivals empty_log log looped)
