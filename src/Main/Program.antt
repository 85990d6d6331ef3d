-- ===== src/Main/Program.antt =====
-- src/server/server.c: `main` as a whole, from its arguments over the start of the server to its loop
-- over the clients, without signals.
pub mod Stops
pub mod Waits
use pwdmanlib.Base.{
  ℕ, ◌≤◌, ◌==◌, ◌≡◌, ◌↔◌, refl, sym, ap, ◌∙◌, Bool, true, false, ltb, if◌then◌else◌, Option, none,
  some, List, length, Bytes, codes, Result, ok, fault, stop, spin, null_pointer, ◌>>=◌, subst, All,
  le→ltb, ==_iff, arith, Ends, ok-Ends, fault-Ends, bind-Ends,
}
use pwdmanlib.StringOps.{File}
use pwdmanlib.Server.Startup.{Address, Start, listening, exited, start_server}
use pwdmanlib.Main.{Settled, serving, exits, main, main_ignores_options}
use pwdmanlib.Main.Serve.Termination.{Finishes, accept_loop-Ends}
use pwdmanlib.Main.Serve.{Log, Arrival, empty_log, accept_loop}

-- What `main` asks the system for: whether the four handlers can be set, the user, the tokens that
-- `strsep` gives, the variable PWD, the addresses for a port, and whether the calls behind them succeed.
pub record Machine : Type 0 where
  pub signals : Bool
  pub uid : ℕ
  pub tokens : List Bytes
  pub pwd : Option Bytes
  pub addresses : Bytes → Option (List Address)
  pub listens : Bool
  pub reaps : Bool

-- The process has left with a status, or it waits for the next client.
pub data Run : Type 0 where
  left : ℕ → Run
  serves : ℕ → Log → Run

module _ (room : ℕ → ℕ) (nulls : Bool) (files : Bytes → File) (arrivals : List Arrival) where
  serve_on : Bytes → Start → Result Run
  serve_on root_dir (exited status closed) = ok (left status)
  serve_on root_dir (listening sock closed) =
      accept_loop room nulls files root_dir arrivals empty_log >>= λ log. ok (serves sock log)

  -- A missing directory is printed first.
  start_on : Machine → Settled → Result Run
  unfolding serve_on
  start_on m (exits status) = ok (left status)
  start_on m (serving port none) = fault null_pointer
  start_on m (serving port (some root_dir)) =
      serve_on root_dir (start_server (m.addresses port) m.listens m.reaps)

  pub server_main : Machine → List Bytes → Result Run
  unfolding start_on
  server_main m argv = main m.signals m.uid argv m.tokens m.pwd >>= λ s. start_on m s

-- What `main` settles, by `main_ignores_options`.
abbrev settled : Machine → List Bytes → Settled
settled m argv =
    if m.signals
    then if m.uid == 0
      then if ltb 4 (length argv) then exits 1 else serving (codes "65501") m.pwd
      else exits 1
    else exits 255

-- The server is started, and listens on the socket.
pub record IsStarted (m : Machine) (argv : List Bytes) (root_dir : Bytes) (sock : ℕ) : Type 0 where
  pub handlers : m.signals ≡ true
  pub root : m.uid ≡ 0
  pub few : length argv ≤ 4
  pub directory : m.pwd ≡ some root_dir
  pub closed : List ℕ
  pub listens : start_server (m.addresses (codes "65501")) m.listens m.reaps ≡ listening sock closed

settled-serving :
    (m : Machine) (argv : List Bytes) (port : Bytes) (pwd : Option Bytes)
    → settled m argv ≡ serving port pwd
    → (m.signals ≡ true) × (m.uid ≡ 0) × (length argv ≤ 4) × (port ≡ codes "65501") × (pwd ≡ m.pwd)
settled-serving m argv port pwd h = ground arith

started-settled :
    (m : Machine) (argv : List Bytes) (root_dir : Bytes) (sock : ℕ)
    → IsStarted m argv root_dir sock
    → settled m argv ≡ serving (codes "65501") (some root_dir)
started-settled m argv root_dir sock h =
    let few : ltb 4 (length argv) ≡ false = le→ltb 4 (length argv) h.few in
    let root : (m.uid == 0) ≡ true = (==_iff m.uid 0).1 h.root in
    rw (h.handlers, root, few, h.directory) refl

module _ (room : ℕ → ℕ) (nulls : Bool) (files : Bytes → File) (arrivals : List Arrival) where
  server_main-settled :
      (m : Machine) (argv : List Bytes)
      → server_main room nulls files arrivals m argv
        ≡ start_on room nulls files arrivals m (settled m argv)
  unfolding server_main
  server_main-settled m argv = rw (main_ignores_options m.signals m.uid argv m.tokens m.pwd) refl

  serve_on-serves :
      (root_dir : Bytes) (start : Start) (sock : ℕ) (log : Log)
      → serve_on room nulls files arrivals root_dir start ≡ ok (serves sock log)
      → ((closed : List ℕ) × (start ≡ listening sock closed))
        × (accept_loop room nulls files root_dir arrivals empty_log ≡ ok log)
  unfolding serve_on
  serve_on-serves root_dir (exited status closed) sock log h = cc
  serve_on-serves root_dir (listening s closed) sock log h =
      by (accept_loop room nulls files root_dir arrivals empty_log) h
    where
      by :
          (looped : Result Log)
          → (looped >>= λ l. ok (serves s l)) ≡ ok (serves sock log)
          → ((closed' : List ℕ) × (listening s closed ≡ listening sock closed')) × (looped ≡ ok log)
      by (ok l) e = ((closed, cc), cc)
      by (fault f) e = cc
      by (stop n) e = cc
      by spin e = cc

  start_on-serves :
      (m : Machine) (argv : List Bytes) (s : Settled) (sock : ℕ) (log : Log)
      → settled m argv ≡ s
      → start_on room nulls files arrivals m s ≡ ok (serves sock log)
      → (root_dir : Bytes) × IsStarted m argv root_dir sock
        × (accept_loop room nulls files root_dir arrivals empty_log ≡ ok log)
  unfolding start_on
  start_on-serves m argv (exits status) sock log e h = cc
  start_on-serves m argv (serving port none) sock log e h = cc
  start_on-serves m argv (serving port (some root_dir)) sock log e h =
      let (handlers, root, few, same, pwd) = settled-serving m argv port (some root_dir) e in
      let ((closed, listens), looped) =
        serve_on-serves root_dir (start_server (m.addresses port) m.listens m.reaps) sock log h in
      (
        root_dir,
        record {
          handlers = handlers;
          root = root;
          few = few;
          directory = sym pwd;
          closed = closed;
          listens = ap (λ p. start_server (m.addresses p) m.listens m.reaps) (sym same) ∙ listens;
        },
        looped,
      )

  -- The server with a started socket goes into its loop.
  pub server_main-started :
      (m : Machine) (argv : List Bytes) (root_dir : Bytes) (sock : ℕ)
      → IsStarted m argv root_dir sock
      → server_main room nulls files arrivals m argv
        ≡ (accept_loop room nulls files root_dir arrivals empty_log >>= λ log. ok (serves sock log))
  unfolding start_on serve_on
  server_main-started m argv root_dir sock h =
      server_main-settled m argv
      ∙ ap (start_on room nulls files arrivals m) (started-settled m argv root_dir sock h)
      ∙ rw h.listens refl

  -- The server comes to wait for a client behind the ones that arrive exactly where it could set its
  -- handlers, runs as root, was given at most three arguments, has a directory in PWD, listens on the
  -- port 65501, whatever its options say, and got through those clients; what it has done is what its
  -- loop did from there.
  pub server_main_serves :
      (m : Machine) (argv : List Bytes) (sock : ℕ) (log : Log)
      → (server_main room nulls files arrivals m argv ≡ ok (serves sock log)) ↔ (
          (root_dir : Bytes) × IsStarted m argv root_dir sock
          × (accept_loop room nulls files root_dir arrivals empty_log ≡ ok log))
  server_main_serves m argv sock log = (
    λ h.
        start_on-serves m argv (settled m argv) sock log refl
          (sym (server_main-settled m argv) ∙ h),
    λ (root_dir, started, looped).
        server_main-started m argv root_dir sock started
        ∙ ap (λ r. r >>= λ l. ok (serves sock l)) looped,
  )

module _ (room : ℕ → ℕ) (files : Bytes → File) (arrivals : List Arrival) where
  serve_on-Ends :
      (root_dir : Bytes) (start : Start)
      → ((n : ℕ) → n ≤ room n)
      → All Finishes arrivals
      → Ends (serve_on room false files arrivals root_dir start)
  unfolding serve_on
  serve_on-Ends root_dir (exited status closed) given finishes = ok-Ends (left status)
  serve_on-Ends root_dir (listening sock closed) given finishes =
      bind-Ends (accept_loop room false files root_dir arrivals empty_log)
        (λ log. ok (serves sock log))
        (accept_loop-Ends room given files root_dir arrivals empty_log finishes)
        (λ log. ok-Ends (serves sock log))

  start_on-Ends :
      (m : Machine) (s : Settled)
      → ((n : ℕ) → n ≤ room n)
      → All Finishes arrivals
      → Ends (start_on room false files arrivals m s)
  unfolding start_on
  start_on-Ends m (exits status) given finishes = ok-Ends (left status)
  start_on-Ends m (serving port none) given finishes = fault-Ends null_pointer
  start_on-Ends m (serving port (some root_dir)) given finishes =
      serve_on-Ends root_dir (start_server (m.addresses port) m.listens m.reaps) given finishes

  -- With an allocator that gives what it is asked for, and whose memory does not read as NULL before it
  -- is written, the server gets through any clients whose connections come to an end or to an error,
  -- whatever its arguments, the system, the bytes that the clients send and what the files hold: it is
  -- left waiting, or is undefined, or leaves the program, but no loop from `main` down to
  -- `parseRequest`, `routeClient`, `sendall` and `readall` goes on for ever.
  pub server_main-Ends :
      (m : Machine) (argv : List Bytes)
      → ((n : ℕ) → n ≤ room n)
      → All Finishes arrivals
      → Ends (server_main room false files arrivals m argv)
  server_main-Ends m argv given finishes =
      subst Ends (sym (server_main-settled room false files arrivals m argv))
        (start_on-Ends m (settled m argv) given finishes)
