-- ===== src/Main/Tests.antt =====
-- The settings for concrete arguments.
mod Pages
use pwdmanlib.Base.{◌≡◌, true, some, List, [], ◌∷◌, Bytes, codes, false, length, All, ℕ, take}
use pwdmanlib.Base.{ok, ◌↔◌, arith, ◌≢◌, spin, none, stop, refl, ◌++◌}
use pwdmanlib.Vector.{pos, negsuc}
use pwdmanlib.StringOps.{File, absent}
use pwdmanlib.Ssl.Accept.{ServerCalls}
use pwdmanlib.Server.Startup.{int, parent_sig_handler, closed_if_open}
use pwdmanlib.Main.Serve.{
  Arrival, accept_loop, empty_log, Invariant, Reach-Invariant, over, here, onward, accepts,
  interrupted_serving,
}
use pwdmanlib.Response.{bad_request_response}
use pwdmanlib.Server.Route.StatusLines.{IsStatusLine}
use pwdmanlib.Main.Program.Waits.{server_main_waits}
use pwdmanlib.Main.Program.Stops.{server_main-handshake}
use pwdmanlib.Server.Startup.{start_server_listens}
use pwdmanlib.Main.Program.{
  Machine, serves, server_main, IsStarted, server_main_serves, server_main-Ends,
}
use pwdmanlib.Ssl.{got, failed}

abbrev arguments : List Bytes
arguments = codes "server" ∷ codes "-p" ∷ codes "80" ∷ []

abbrev files : Bytes → File
files path = absent

abbrev pub session : ServerCalls
session = record {
  ssl_init = true;
  crypto_init = true;
  ctx_new = true;
  use_certificate = pos 1;
  use_private_key = pos 1;
  check_private_key = pos 1;
  ssl_new = true;
  accept = pos 1;
}

-- A client whose handshake fails, behind a failing `accept`.
abbrev failing : Arrival
failing = record {
  sock = some 5;
  session = record session { accept = negsuc 0 };
  reads = [];
  writes = [];
}

abbrev none_came : Arrival
none_came = record { sock = none; session = session; reads = []; writes = [] }

Reach-Invariant_example : Invariant (λ n. n) false files (codes "/srv") 3 (over 2 (3 ∷ []))
Reach-Invariant_example =
    Reach-Invariant (λ n. n) false files (codes "/srv") 3 (over 2 (3 ∷ []))
      (onward (onward here (accepts 5))
        (interrupted_serving int 2 (3 ∷ []) (unfold parent_sig_handler closed_if_open in refl)))

-- A client whose request is cut off by an error, and whose answer is too.
abbrev cut_off : Arrival
cut_off = record {
  sock = some 6;
  session = session;
  reads = got (codes "GET /?x") ∷ failed 0 ∷ [];
  writes = pos 100 ∷ negsuc 0 ∷ [];
}

-- One that sends nothing, and gets nothing.
abbrev silent : Arrival
silent = record { sock = some 7; session = session; reads = got [] ∷ []; writes = negsuc 0 ∷ [] }

abbrev machine : Machine
machine = record {
  signals = true;
  uid = 0;
  tokens = arguments;
  pwd = some (codes "/srv");
  addresses = λ port. some (record { socket = some 3; reuses = true; binds = true } ∷ []);
  listens = true;
  reaps = true;
}

server_main-Ends_example :
    server_main (λ n. n) false files (cut_off ∷ silent ∷ []) machine arguments ≢ spin
server_main-Ends_example =
    server_main-Ends (λ n. n) files (cut_off ∷ silent ∷ []) machine arguments (λ n. omega arith)
      (record { closes = tt; drains = tt }, (record { closes = tt; drains = tt }, tt))

server_main_serves_example :
    (server_main (λ n. n) false files (none_came ∷ []) machine arguments ≡ ok (serves 3 empty_log))
    ↔ ((root_dir : Bytes) × IsStarted machine arguments root_dir 3
        × (accept_loop (λ n. n) false files root_dir (none_came ∷ []) empty_log ≡ ok empty_log))
server_main_serves_example =
    server_main_serves (λ n. n) false files (none_came ∷ []) machine arguments 3 empty_log

started : IsStarted machine arguments (codes "/srv") 3
started = record {
  handlers = refl;
  root = refl;
  few = omega arith;
  directory = refl;
  closed = [];
  listens =
      start_server_listens [] (record { socket = some 3; reuses = true; binds = true }) [] 2 tt refl
        refl refl;
}

server_main-handshake_example :
    server_main
      (λ n. n)
      false
      files
      ((none_came ∷ []) ++ failing ∷ none_came ∷ [])
      machine
      arguments
    ≡ stop 1
unfolding accept_loop pwdmanlib.Ssl.is_positive
server_main-handshake_example =
    server_main-handshake (λ n. n) false files machine arguments (codes "/srv") 3 started
      (none_came ∷ []) (none_came ∷ []) failing 5 empty_log refl refl (refl, refl, refl, refl) refl

server_main_waits_example :
    (empty_log.accepted ≡ empty_log.closed)
    × (length empty_log.answers ≡ length empty_log.closed)
    × All
        (λ r.
          ((n : ℕ) × (r.ssl_wire ≡ take n bad_request_response)) × All IsStatusLine r.routed.wire)
        empty_log.answers
server_main_waits_example =
    server_main_waits (λ n. n) false files (none_came ∷ []) machine arguments 3 empty_log
      ((server_main_serves (λ n. n) false files (none_came ∷ []) machine arguments 3 empty_log).1
        (codes "/srv", started, unfold accept_loop in refl))
