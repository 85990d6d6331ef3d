-- ===== src/Client/Program.antt =====
-- src/client/client_v2.c: `main` from its arguments to its end, on either platform, with what it
-- does before the connection.
pub mod Termination
use pwdmanlib.Base.{
  ℕ, ◌+◌, ◌-◌, ◌≤◌, ◌<◌, ◌≡◌, ◌≢◌, refl, sym, ap, subst, ◌∙◌, Bool, true, false, leb, if◌then◌else◌,
  Option, none, some, List, [], ◌∷◌, ◌++◌, length, map, take, drop, All, Bytes, c_str, Result, ok,
  fault, stop, spin, out_of_bounds, null_pointer, ◌>>=◌, arith, inl, inr, Bool-cases, le→leb,
}
use pwdmanlib.Vector.{CInt, pos}
use pwdmanlib.Validation.{Cert}
use pwdmanlib.Ssl.{ClientCalls, Read, got, sock_buff_def_read}
use pwdmanlib.Ssl.Session.{IsSecured}
use pwdmanlib.Client.{Args, build, message_size}
use pwdmanlib.Client.OpenConnection.{HostCalls, open_connection}
use pwdmanlib.Ssl.Send.{Complies, total_of}
use pwdmanlib.Ssl.Receive.{concat, IsChunk}
use pwdmanlib.Client.Send.{
  Exchange, run_client, run_client_sends, run_client_waits, run_client_certified,
}

-- `argv` without the name of the program; `none` where `argc < 5`. The port plays no part in the
-- message.
unfoldable pub args_of : List Bytes → Option Args
args_of (host ∷ port ∷ method ∷ path ∷ rest) =
    some (record { host_arg = host; method = method; path_arg = path; rest = rest })
args_of _ = none

-- What comes before the connection: an exit with status 0, or a message in its allocation.
pub data Prepared : Type 0 where
  quits : Prepared
  ready : Args → Bytes → Prepared

-- The message and its terminator are written into the allocation, of which the rest is left.
fill : Args → Option Bytes → Bytes → Result Prepared
fill a none message = fault null_pointer
fill a (some memory) message =
    if leb (length message + 1) (length memory)
    then ok (ready a (message ++ 0 ∷ drop (length message + 1) memory))
    else fault out_of_bounds

-- A query string with a space ends the program before anything is written.
fill_built : Args → Option Bytes → Option Bytes → Result Prepared
unfolding fill
fill_built a memory none = ok quits
fill_built a memory (some message) = fill a memory message

-- `allocated` is whether there is memory for the size, and `memory` what the allocation of the message
-- holds at first.
prepare_args : Bool → Option Bytes → Option Args → Result Prepared
unfolding fill_built
prepare_args allocated memory none = ok quits
prepare_args false memory (some a) = ok quits
prepare_args true memory (some a) = fill_built a memory (build a)

pub prepare : Bool → Option Bytes → List Bytes → Result Prepared
unfolding prepare_args args_of
prepare allocated memory argv = prepare_args allocated memory (args_of argv)

abbrev quiet : ℕ → Exchange
quiet status = record { status = status; wire = []; printed = [] }

-- The results of the calls on Linux.
pub record LinuxCalls : Type 0 where
  pub host : HostCalls
  pub tls : ClientCalls
  pub writes : List CInt
  pub reads : List Read

-- A connection that failed is passed on all the same.
linux : LinuxCalls → Prepared → Result Exchange
linux c quits = ok (quiet 0)
linux c (ready a memory) =
    open_connection c.host >>= λ _. run_client c.tls c.writes c.reads memory (message_size a)

pub linux_main : Bool → Option Bytes → LinuxCalls → List Bytes → Result Exchange
unfolding prepare linux
linux_main allocated memory c argv = prepare allocated memory argv >>= λ p. linux c p

fill-ready :
    (a b : Args) (memory : Option Bytes) (message text : Bytes)
    → fill a memory message ≡ ok (ready b text)
    → a ≡ b
unfolding fill
fill-ready a b none message text h = cc
fill-ready a b (some memory) message text h =
    elim (Bool-cases (leb (length message + 1) (length memory))) [
      | inl fits ↦ cc (rw fits at h)
      | inr not_fits ↦ cc (rw not_fits at h)
    ]

fill_built-ready :
    (a b : Args) (memory built : Option Bytes) (text : Bytes)
    → fill_built b memory built ≡ ok (ready a text)
    → (b ≡ a) × (built ≢ none)
unfolding fill_built
fill_built-ready a b memory none text h = cc
fill_built-ready a b memory (some message) text h = (fill-ready b a memory message text h, λ n. cc)

prepare_args-ready :
    (allocated : Bool) (memory : Option Bytes) (args : Option Args) (a : Args) (text : Bytes)
    → prepare_args allocated memory args ≡ ok (ready a text)
    → (args ≡ some a) × (build a ≢ none)
unfolding prepare_args
prepare_args-ready allocated memory none a text h = cc
prepare_args-ready false memory (some b) a text h = cc
prepare_args-ready true memory (some b) a text h =
    let (same, built) = fill_built-ready a b memory (build b) text h in
    (ap some same, subst (λ c. build c ≢ none) same built)

linux-certified :
    (c : LinuxCalls) (p : Prepared) (x : Exchange)
    → linux c p ≡ ok x
    → x.wire ≢ []
    → ((a : Args) × (text : Bytes) × (p ≡ ready a text)) × ((cert : Cert) × IsSecured c.tls cert)
unfolding linux
linux-certified c quits x h n = absurd (n (ap wire_of (sym h)))
  where
    wire_of : Result Exchange → Bytes
    wire_of (ok y) = y.wire
    wire_of r = []
linux-certified c (ready a text) x h n = ((a, text, refl), by (open_connection c.host) refl)
  where
    by :
        (opened : Result (CInt × List ℕ))
        → open_connection c.host ≡ opened
        → (cert : Cert) × IsSecured c.tls cert
    by (ok r) e = run_client_certified c.tls c.writes c.reads text (message_size a) x (rw e at h) n
    by (fault f) e = cc (rw e at h)
    by (stop k) e = cc (rw e at h)
    by spin e = cc (rw e at h)

-- Whatever its arguments, its memory and the calls, the client only ever sends where it has at least
-- four arguments that make a message, and over a connection whose every step succeeded and whose
-- peer has the certificate of devopsec.net.
pub linux_main_certified :
    (allocated : Bool) (memory : Option Bytes) (c : LinuxCalls) (argv : List Bytes) (x : Exchange)
    → linux_main allocated memory c argv ≡ ok x
    → x.wire ≢ []
    → ((a : Args) × (args_of argv ≡ some a) × (build a ≢ none))
      × ((cert : Cert) × IsSecured c.tls cert)
unfolding linux_main prepare
linux_main_certified allocated memory c argv x h n =
    by (prepare_args allocated memory (args_of argv)) refl
  where
    by :
        (prepared : Result Prepared)
        → prepare_args allocated memory (args_of argv) ≡ prepared
        → ((a : Args) × (args_of argv ≡ some a) × (build a ≢ none))
          × ((cert : Cert) × IsSecured c.tls cert)
    by (ok p) e =
        let ((a, text, q), secured) = linux-certified c p x (rw e at h) n in
        let (given, built) =
          prepare_args-ready allocated memory (args_of argv) a text (e ∙ ap (λ r. ok r) q) in
        ((a, given, built), secured)
    by (fault f) e = cc (rw e at h)
    by (stop k) e = cc (rw e at h)
    by spin e = cc (rw e at h)

-- The same client where nothing comes back.
pub linux_main_waits :
    (c : LinuxCalls) (argv : List Bytes) (a : Args) (cert : Cert) (message memory : Bytes)
    (opened : CInt × List ℕ) (n : ℕ) (ns : List ℕ)
    → args_of argv ≡ some a
    → build a ≡ some message
    → length message + 1 ≤ length memory
    → open_connection c.host ≡ ok opened
    → IsSecured c.tls cert
    → c.writes ≡ map pos (n ∷ ns)
    → Complies (n ∷ ns) (message_size a)
    → total_of (n ∷ ns) ≡ message_size a
    → c.reads ≡ []
    → linux_main true (some memory) c argv ≡ spin
unfolding linux_main prepare prepare_args fill_built fill linux
linux_main_waits c argv a cert message memory opened n ns given built fits host secured writes
      complies total silent =
    rw
      (
        given,
        built,
        le→leb (length message + 1) (length memory) (omega arith),
        host,
        writes,
        silent,
      )
      (run_client_waits c.tls cert (message ++ 0 ∷ drop (length message + 1) memory)
        (message_size a) n ns secured complies total)

-- With at least four arguments that make a message which fits the size that is counted for it, an
-- allocation that gives that size, a host that can be looked up, a connection that is secured,
-- writes that take all of the allocation and a response that is shorter than the buffer, the client
-- sends the message, the zero behind it and what else the allocation held, prints the response up to
-- its first zero, and ends with status 0.
pub linux_main_sends :
    (c : LinuxCalls) (argv : List Bytes) (a : Args) (cert : Cert) (message memory : Bytes)
    (opened : CInt × List ℕ) (n : ℕ) (ns : List ℕ) (chunks : List Bytes) (reads : List Read)
    → args_of argv ≡ some a
    → build a ≡ some message
    → length message + 1 ≤ message_size a
    → message_size a ≤ length memory
    → open_connection c.host ≡ ok opened
    → IsSecured c.tls cert
    → c.writes ≡ map pos (n ∷ ns)
    → Complies (n ∷ ns) (message_size a)
    → total_of (n ∷ ns) ≡ message_size a
    → c.reads ≡ map got chunks ++ got [] ∷ reads
    → All IsChunk chunks
    → length (concat chunks) < sock_buff_def_read
    → linux_main true (some memory) c argv
      ≡ ok (record {
        status = 0;
        wire =
            message
            ++ 0 ∷ take (message_size a - length message - 1) (drop (length message + 1) memory);
        printed = c_str (concat chunks);
      })
unfolding linux_main prepare prepare_args fill_built fill linux
linux_main_sends c argv a cert message memory opened n ns chunks reads given built fits big host
      secured writes complies total answers chunked short =
    rw
      (
        given,
        built,
        le→leb (length message + 1) (length memory) (omega arith),
        host,
        writes,
        answers,
      )
      (run_client_sends c.tls cert message (drop (length message + 1) memory) (message_size a) n ns
        chunks reads secured fits complies total chunked short)
