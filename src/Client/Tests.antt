-- ===== src/Client/Tests.antt =====
-- Requests with concrete arguments.
use pwdmanlib.Base.{
  spin, ◌-◌, take, drop, replicate, c_str, map, Option, none, some, ◌⊎◌, All, ltb, if◌then◌else◌,
  ok, fault, null_pointer, invalid_free, ◌++◌, ℕ, ◌+◌, ◌≤◌, ◌≡◌, ◌≢◌, ◌↔◌, refl, true, false, List,
  [], ◌∷◌, length, Bytes, codes, arith,
}
use pwdmanlib.Vector.{pos, negsuc}
use pwdmanlib.Validation.{Cert, common_name}
use pwdmanlib.Ssl.{ClientCalls, got, failed}
use pwdmanlib.Ssl.Session.{IsSecured}
use pwdmanlib.Ssl.Receive.{concat}
use pwdmanlib.Client.OpenConnection.{open_connection, HostCalls}
use pwdmanlib.StringOps.Pieces.{lacks_test}
use pwdmanlib.Client.Send.{Exchange}
use pwdmanlib.Client.Program.{
  LinuxCalls, args_of, linux_main, linux_main_sends, linux_main_certified,
}
use pwdmanlib.Client.Program.Termination.{linux_main-Ends}
use pwdmanlib.Client.{Args, build, path, host, data_arg, is_get, get_message, message_size}
use pwdmanlib.Client.Fits.{mark_size, get_message_fits}

abbrev get : Args
get = record {
  host_arg = codes "devopsec.net";
  method = codes "GET";
  path_arg = codes "/";
  rest = codes "a=1" ∷ [];
}

abbrev post : Args
post = record {
  host_arg = codes "::1";
  method = codes "POST";
  path_arg = codes "/login";
  rest = codes "user=foo" ∷ codes "Accept: text/html" ∷ [];
}

get_message_fits_example :
    (length (get_message get) + 1 ≤ message_size get)
    ↔ (length (host get) + mark_size (data_arg get.rest) ≤ 9)
get_message_fits_example = get_message_fits get (unfold is_get pwdmanlib.Base.strcmp in refl)

abbrev refused : HostCalls
refused = record { address_length = some 4; socket = pos 3; connect = negsuc 0 }

abbrev cert : Cert
cert = record { subject = common_name (codes "DevOpSec.net"); san = none }

abbrev calls : ClientCalls
calls = record {
  ssl_init = true;
  crypto_init = true;
  ctx_new = true;
  load_verify_locations = pos 1;
  ssl_new = true;
  set_fd = pos 1;
  connect = pos 1;
  peer_certificate = some cert;
}

calls-IsSecured : IsSecured calls cert
calls-IsSecured = record {
  initialised = refl;
  crypto = refl;
  context = refl;
  loaded = refl;
  created = refl;
  attached = λ h. ground arith;
  connected = (1, omega arith, refl);
  presented = refl;
  certified = (
    codes "DevOpSec.net",
    refl,
    record {
      clean = lacks_test 0 (codes "DevOpSec.net") refl;
      same = unfold pwdmanlib.Base.to_lower in refl;
    },
  );
}

abbrev argv : List Bytes
argv = codes "::1" ∷ codes "80" ∷ codes "GET" ∷ codes "/" ∷ []

abbrev args : Args
args = record { host_arg = codes "::1"; method = codes "GET"; path_arg = codes "/"; rest = [] }

abbrev memory : Bytes
memory = replicate (message_size args) 7

abbrev linux_calls : LinuxCalls
linux_calls = record {
  host = record { address_length = some 4; socket = pos 3; connect = pos 0 };
  tls = calls;
  writes = map pos (20 ∷ (message_size args - 20) ∷ []);
  reads = map got (codes "200" ∷ []) ++ got [] ∷ [];
}

abbrev sent : Exchange
sent = record {
  status = 0;
  wire =
      get_message args
      ++ 0
        ∷ take (message_size args - length (get_message args) - 1)
            (drop (length (get_message args) + 1) memory);
  printed = c_str (concat (codes "200" ∷ []));
}

-- A run without a response.
abbrev silent_calls : LinuxCalls
silent_calls = record linux_calls { reads = got [] ∷ [] }

abbrev unanswered : Exchange
unanswered = record sent { printed = [] }

unanswered_run : linux_main true (some memory) silent_calls argv ≡ ok unanswered
unfolding args_of build open_connection pwdmanlib.Client.host path pwdmanlib.Client.or_else
    pwdmanlib.StringOps.is_empty get_message pwdmanlib.Client.query_text message_size is_get
    pwdmanlib.Client.get_size pwdmanlib.Client.headers_size pwdmanlib.Client.header_lines
    pwdmanlib.Base.strcmp c_str
unanswered_run =
    linux_main_sends silent_calls argv args cert (get_message args) memory (pos 3, 3 ∷ []) 20
      ((message_size args - 20) ∷ []) [] [] refl refl (omega arith) (omega arith) refl
      calls-IsSecured refl (omega arith, omega arith, (omega arith, omega arith, tt)) refl refl tt
      (omega arith)

linux_main_certified_example :
    ((a : Args) × (args_of argv ≡ some a) × (build a ≢ none)) × ((c : Cert) × IsSecured calls c)
unfolding get_message pwdmanlib.Client.or_else pwdmanlib.StringOps.is_empty
linux_main_certified_example =
    linux_main_certified true (some memory) silent_calls argv unanswered unanswered_run (λ e. cc)

-- The client with a connection that breaks while it sends.
abbrev broken_calls : LinuxCalls
broken_calls = record linux_calls { writes = pos 20 ∷ negsuc 0 ∷ []; reads = failed 0 ∷ [] }

linux_main-Ends_example : linux_main true (some memory) broken_calls argv ≢ spin
linux_main-Ends_example = linux_main-Ends true (some memory) broken_calls argv (λ a e. tt) tt
