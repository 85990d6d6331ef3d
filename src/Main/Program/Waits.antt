-- ===== src/Main/Program/Waits.antt =====
-- What the server has done when it waits for a client.
use pwdmanlib.Base.{ℕ, ◌≡◌, List, length, Bytes, All, ok, yielded, Bool, take}
use pwdmanlib.Response.{bad_request_response}
use pwdmanlib.StringOps.{File}
use pwdmanlib.Server.Route.StatusLines.{IsStatusLine}
use pwdmanlib.Main.Serve.{Log, Arrival, empty_log, accept_loop}
use pwdmanlib.Main.Serve.Lines.{AllStatusOnly, accept_loop-closes, accept_loop-AllStatusOnly}
use pwdmanlib.Main.Program.{Machine, serves, server_main, server_main_serves}

-- Whatever its arguments, the system, the clients and the files: where the server comes to wait for a
-- client, it has closed every socket that it accepted, in their order, has one answer for each, and
-- of each answer what went out over the connection is a beginning of the page of the 400, perhaps an
-- empty one, and what was written to the socket is nothing but status lines: no byte of a file.
pub server_main_waits :
    (room : ℕ → ℕ) (nulls : Bool) (files : Bytes → File) (arrivals : List Arrival) (m : Machine)
    (argv : List Bytes) (sock : ℕ) (log : Log)
    → server_main room nulls files arrivals m argv ≡ ok (serves sock log)
    → (log.accepted ≡ log.closed)
      × (length log.answers ≡ length log.closed)
      × All
          (λ r.
            ((n : ℕ) × (r.ssl_wire ≡ take n bad_request_response)) × All IsStatusLine r.routed.wire)
          log.answers
server_main_waits room nulls files arrivals m argv sock log h =
    let (root_dir, started, looped) =
      (server_main_serves room nulls files arrivals m argv sock log).0 h in
    let (closed, answered) = accept_loop-closes room nulls files root_dir arrivals log looped in
    (
      closed,
      answered,
      yielded AllStatusOnly (accept_loop room nulls files root_dir arrivals empty_log) log
          (accept_loop-AllStatusOnly room nulls files root_dir arrivals empty_log tt) looped,
    )
