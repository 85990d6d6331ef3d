-- ===== src/Client/Program/Termination.antt =====
-- `main` of the client ends on Linux.
use pwdmanlib.Base.{
  ◌+◌, ◌≡◌, refl, ap, ◌∙◌, Bool, true, false, leb, length, Option, none, some, List, Bytes,
  null_pointer, out_of_bounds, Result, ok, fault, stop, spin, ◌>>=◌, Ends, ok-Ends, fault-Ends,
  stop-Ends, bind-Ends, if-Ends,
}
use pwdmanlib.Ssl.Termination.{Closes, Drains}
use pwdmanlib.Client.{Args, build, message_size}
use pwdmanlib.Client.OpenConnection.{open_connection-Ends}
use pwdmanlib.Client.Send.Termination.{run_client-Ends}
use pwdmanlib.Client.Program.{
  LinuxCalls, Prepared, quits, ready, args_of, fill, fill_built, prepare_args, prepare, linux,
  linux_main, prepare_args-ready,
}

fill-Ends : (a : Args) (memory : Option Bytes) (message : Bytes) → Ends (fill a memory message)
unfolding fill
fill-Ends a none message = fault-Ends null_pointer
fill-Ends a (some memory) message =
    if-Ends (leb (length message + 1) (length memory)) _ _ (ok-Ends _) (fault-Ends out_of_bounds)

fill_built-Ends : (a : Args) (memory built : Option Bytes) → Ends (fill_built a memory built)
unfolding fill_built
fill_built-Ends a memory none = ok-Ends quits
fill_built-Ends a memory (some message) = fill-Ends a memory message

prepare_args-Ends :
    (allocated : Bool) (memory : Option Bytes) (args : Option Args)
    → Ends (prepare_args allocated memory args)
unfolding prepare_args
prepare_args-Ends allocated memory none = ok-Ends quits
prepare_args-Ends false memory (some a) = ok-Ends quits
prepare_args-Ends true memory (some a) = fill_built-Ends a memory (build a)

linux-Ends :
    (c : LinuxCalls) (p : Prepared)
    → ((a : Args) (text : Bytes) → p ≡ ready a text → Drains c.writes (message_size a))
    → Closes c.reads
    → Ends (linux c p)
unfolding linux
linux-Ends c quits drains closes = ok-Ends _
linux-Ends c (ready a memory) drains closes = bind-Ends _ _ (open_connection-Ends c.host) (λ opened.
    run_client-Ends c.tls c.writes c.reads memory (message_size a) (drains a memory refl) closes)

-- Whatever its arguments and its memory, the client ends where its reads come to an end or to an error,
-- and its writes to an error or through the size of the message.
pub linux_main-Ends :
    (allocated : Bool) (memory : Option Bytes) (c : LinuxCalls) (argv : List Bytes)
    → ((a : Args) → args_of argv ≡ some a → Drains c.writes (message_size a))
    → Closes c.reads
    → Ends (linux_main allocated memory c argv)
unfolding linux_main prepare
linux_main-Ends allocated memory c argv drains closes =
    by (prepare_args allocated memory (args_of argv)) refl
  where
    by :
        (prepared : Result Prepared)
        → prepare_args allocated memory (args_of argv) ≡ prepared
        → Ends (prepared >>= λ p. linux c p)
    by (ok p) e =
        linux-Ends c p
          (λ a text q.
            drains a (
              (prepare_args-ready allocated memory (args_of argv) a text (e ∙ ap (λ r. ok r) q)).0))
          closes
    by (fault f) e = fault-Ends f
    by (stop n) e = stop-Ends n
    by spin e = absurd (prepare_args-Ends allocated memory (args_of argv) e)
