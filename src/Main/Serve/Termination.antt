-- ===== src/Main/Serve/Termination.antt =====
-- The loop of `main` gets through the clients that arrive.
use pwdmanlib.Base.{
  ℕ, ◌≤◌, ◌≡◌, refl, sym, subst, Option, none, some, List, [], ◌∷◌, Bytes, length, All, Ends,
  ok-Ends, bind-Ends, false,
}
use pwdmanlib.StringOps.{File}
use pwdmanlib.Response.{bad_request_response}
use pwdmanlib.Ssl.Termination.{Closes, Drains}
use pwdmanlib.Server.Respond.Termination.{answered-Ends, respond-Answers}
use pwdmanlib.Main.Serve.{Log, Arrival, opened, served, answer, accept_loop}
use pwdmanlib.Main.Serve.Runs.{accept_loop-none, accept_loop-some}

-- The connection of a client: its reads come to an end or to an error, and its writes to an error or
-- through the page of the 400.
pub record Finishes (a : Arrival) : Type 0 where
  pub closes : Closes a.reads
  pub drains : Drains a.writes (length bad_request_response)

module _ (room : ℕ → ℕ) (given : (n : ℕ) → n ≤ room n) (files : Bytes → File)
    (root_dir : Bytes) where
  answer-Ends : (a : Arrival) → Finishes a → Ends (answer room false files root_dir a)
  unfolding answer
  answer-Ends a h =
      answered-Ends _
        (respond-Answers room given files root_dir a.session a.reads a.writes h.closes h.drains)

  -- With an allocator that gives what it is asked for, the loop of the server gets through any clients
  -- whose connections come to an end or to an error, whatever bytes they send and whatever the files
  -- hold: it is left waiting, or is undefined, or leaves the program, but no loop of `parseRequest`,
  -- `routeClient`, `sendall` and `readall` goes on for ever.
  pub accept_loop-Ends :
      (arrivals : List Arrival) (log : Log)
      → All Finishes arrivals
      → Ends (accept_loop room false files root_dir arrivals log)
  unfolding accept_loop
  accept_loop-Ends [] log h = ok-Ends log
  accept_loop-Ends (a ∷ arrivals) log (finishes, h) =
      by a.sock refl (λ l. accept_loop-Ends arrivals l h)
    where
      by :
          (sock : Option ℕ)
          → a.sock ≡ sock
          → ((l : Log) → Ends (accept_loop room false files root_dir arrivals l))
          → Ends (accept_loop room false files root_dir (a ∷ arrivals) log)
      by none e rest =
          subst Ends (sym (accept_loop-none room false files root_dir 0 a arrivals log e))
            (rest log)
      by (some sock) e rest =
          subst Ends (sym (accept_loop-some room false files root_dir 0 a arrivals log sock e))
            (bind-Ends _ _ (answer-Ends a finishes) (λ r. rest (served (opened log sock) sock r)))
