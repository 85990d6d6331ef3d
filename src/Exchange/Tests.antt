-- ===== src/Exchange/Tests.antt =====
-- A request from the client to the server.
use pwdmanlib.Base.{
  ℕ, ◌+◌, ◌-◌, ◌*◌, ◌≡◌, refl, Bool, true, false, ◌&&◌, if◌then◌else◌, List, [], ◌∷◌, ◌++◌, map,
  length, replicate, Bytes, codes, none, some, ok, fault, out_of_bounds, arith,
}
use pwdmanlib.Vector.{pos}
use pwdmanlib.Ssl.{got}
use pwdmanlib.StringOps.Pieces.{lacks_test}
use pwdmanlib.Dict.Refine.{of_bindings}
use pwdmanlib.Fawkes.Request.{request_info}
use pwdmanlib.Server.{null, text, parse_request}
use pwdmanlib.Server.Headers.{bind_all}
use pwdmanlib.Server.Parts.{IsLaidOut}
use pwdmanlib.Server.Parse.{request_fits}
use pwdmanlib.Server.Query.{Param, IsParam, query_fits, query_text}
use pwdmanlib.Server.Target.{pairs}
use pwdmanlib.Client.{Args, path, message_size, post_message, get_message}
use pwdmanlib.Client.Program.{LinuxCalls}
use pwdmanlib.Main.Serve.{Arrival}
use pwdmanlib.Exchange.Get.{get_parts, parse_request-get_message}
use pwdmanlib.Exchange.Post.{post_parts, sent_headers, parse_request-post_message}
use pwdmanlib.Exchange.Samples.{room, given, calls, session}

abbrev args : Args
args = record {
  host_arg = codes "::1";
  method = codes "POST";
  path_arg = codes "/login";
  rest = codes "k=1" ∷ codes "Accept: x" ∷ [];
}

given-IsLaidOut : IsLaidOut room (post_parts args given b'k' (codes "=1"))
unfolding path pwdmanlib.Client.host pwdmanlib.Client.or_else pwdmanlib.StringOps.is_empty
    pwdmanlib.Client.print_decimal
given-IsLaidOut = record {
  method_space = lacks_test 32 (codes "POST") refl;
  target_space = lacks_test 32 (codes "/login") refl;
  proto_space = lacks_test 32 (codes "HTTP/1.0") refl;
  method_return = lacks_test 13 (codes "POST") refl;
  target_return = lacks_test 13 (codes "/login") refl;
  proto_return = lacks_test 13 (codes "HTTP/1.0") refl;
  header_parts = (
    (
      lacks_test 58 (codes "Host") refl,
      lacks_test 13 (codes "Host") refl,
      lacks_test 13 (codes "::1") refl,
    ),
    (
      (
        lacks_test 58 (codes "Accept") refl,
        lacks_test 13 (codes "Accept") refl,
        lacks_test 13 (codes "x") refl,
      ),
      (
        (
          lacks_test 58 (codes "Content-Length") refl,
          lacks_test 13 (codes "Content-Length") refl,
          lacks_test 13 (codes "3") refl,
        ),
        tt,
      ),
    ),
  );
  body_return = lacks_test 13 (codes "k=1") refl;
  body_fits = omega arith;
  few = omega arith;
}

parse_request-post_message_example : parse_request room true (post_message args) ≡ (
    if request_fits room (post_parts args given b'k' (codes "=1"))
    then ok (record {
      info = request_info (codes "POST") (codes "HTTP/1.0");
      path = path args;
      headers = of_bindings 50 (bind_all 50 [] (sent_headers args given (codes "k=1")));
      body = text (codes "k=1");
      query = of_bindings 20 [];
    })
    else fault out_of_bounds)
unfolding path pwdmanlib.Client.or_else pwdmanlib.StringOps.is_empty
parse_request-post_message_example =
    parse_request-post_message room true args given b'k' (codes "=1") (λ n. omega arith)
      (λ h. ground arith) refl given-IsLaidOut (lacks_test 63 (codes "/login") refl) (omega arith)

abbrev param : Param
param = record { key_first = b'k'; key_rest = []; value_first = b'1'; value_rest = [] }

param-IsParam : IsParam param
param-IsParam = record {
  key_equals = lacks_test 61 (codes "k") refl;
  key_and = lacks_test 38 (codes "k") refl;
  key_mark = lacks_test 63 (codes "k") refl;
  value_and = lacks_test 38 (codes "1") refl;
  value_mark = lacks_test 63 (codes "1") refl;
}

abbrev query_args : Args
query_args = record args { method = codes "GET" }

query-IsLaidOut : IsLaidOut room (get_parts query_args given (codes "k=1"))
unfolding path pwdmanlib.Client.host pwdmanlib.Client.or_else pwdmanlib.StringOps.is_empty
query-IsLaidOut = record {
  method_space = lacks_test 32 (codes "GET") refl;
  target_space = lacks_test 32 (codes "/login?k=1") refl;
  proto_space = given-IsLaidOut.proto_space;
  method_return = lacks_test 13 (codes "GET") refl;
  target_return = lacks_test 13 (codes "/login?k=1") refl;
  proto_return = given-IsLaidOut.proto_return;
  header_parts = (
    (
      lacks_test 58 (codes "Host") refl,
      lacks_test 13 (codes "Host") refl,
      lacks_test 13 (codes "::1") refl,
    ),
    (
      (
        lacks_test 58 (codes "Accept") refl,
        lacks_test 13 (codes "Accept") refl,
        lacks_test 13 (codes "x") refl,
      ),
      tt,
    ),
  );
  body_return = tt;
  body_fits = omega arith;
  few = omega arith;
}

parse_request-get_message_example : parse_request room true (get_message query_args) ≡ (
    if query_fits room 1 && request_fits room (get_parts query_args given (query_text [] param))
    then ok (record {
      info = request_info (codes "GET") (codes "HTTP/1.0");
      path = path query_args;
      headers = of_bindings 50 (bind_all 50 [] ((codes "Host", codes "::1") ∷ given));
      body = null;
      query = of_bindings 20 (bind_all 20 [] (pairs [] param));
    })
    else fault out_of_bounds)
unfolding path pwdmanlib.Client.host pwdmanlib.Client.or_else pwdmanlib.StringOps.is_empty
parse_request-get_message_example =
    parse_request-get_message room true query_args given [] param (λ n. omega arith) refl refl
      query-IsLaidOut (lacks_test 63 (codes "/login") refl) tt param-IsParam (omega arith)
      (omega arith)

abbrev poll : Args
poll = record { host_arg = codes "::1"; method = codes "GET"; path_arg = codes "/"; rest = [] }

abbrev memory : Bytes
memory = replicate (message_size poll) 7

abbrev linux_calls : LinuxCalls
linux_calls = record {
  host = record { address_length = some 4; socket = pos 3; connect = pos 0 };
  tls = calls;
  writes = map pos (20 ∷ (message_size poll - 20) ∷ []);
  reads = [];
}

-- The first four bytes have come.
abbrev arrival : Arrival
arrival = record { sock = some 5; session = session; reads = got (codes "GET ") ∷ []; writes = [] }
