-- ===== src/Server/Tests.antt =====
-- The server on concrete requests, files, addresses and signals.
use pwdmanlib.Base.{
  ℕ, ◌+◌, ◌≡◌, refl, inr, true, false, some, [], ◌∷◌, ◌++◌, Bytes, codes, ok, arith, map, length,
  ◌>>=◌,
}
use pwdmanlib.Vector.{pos}
use pwdmanlib.StringOps.{File, readable}
use pwdmanlib.Ssl.Accept.{ServerCalls}
use pwdmanlib.Server.Startup.{Address, listening, start_server, sockets_of, start_server_listens}
use pwdmanlib.Base.{Bool, not, ◌&&◌, ◌==◌}
use pwdmanlib.Dict.Refine.{of_bindings}
use pwdmanlib.Fawkes.Request.{request_info}
use pwdmanlib.StringOps.Pieces.{Lacks}
use pwdmanlib.Server.{text, parse_request}
use pwdmanlib.Response.{bad_request_response}
use pwdmanlib.Ssl.{got, failed}
use pwdmanlib.Server.Respond.{respond, respond_after_error}
use pwdmanlib.Server.Headers.{bind_all}
use pwdmanlib.Server.Parts.{Parts, IsLaidOut, request_text}
use pwdmanlib.Server.Parse.{request_fits, parse_request_lem}
use pwdmanlib.Server.Malformed.{malformed_text, malformed_fits, parse_request-bad_header}
use pwdmanlib.Base.{fault, uninitialised, out_of_bounds, spin, if◌then◌else◌}
use pwdmanlib.Server.Target.{pairs, parse_request-query}
use pwdmanlib.Server.Query.{Param, IsParam, query_fits}

-- A check by evaluation that a byte does not occur.
abbrev lacks : ℕ → Bytes → Bool
lacks b [] = true
lacks b (c ∷ s) = not (c == b) && lacks b s

lacks_test : (b : ℕ) (s : Bytes) → lacks b s ≡ true → Lacks b s
lacks_test b [] h = tt
lacks_test b (c ∷ s) h = (ground arith, lacks_test b s (ground arith))

abbrev room : ℕ → ℕ
room n = n + 24

abbrev files : Bytes → File
files path = readable (codes "<html>")

-- A handshake that succeeds without a certificate.
abbrev session : ServerCalls
session = record {
  ssl_init = true;
  crypto_init = true;
  ctx_new = true;
  use_certificate = pos 0;
  use_private_key = pos 0;
  check_private_key = pos 0;
  ssl_new = true;
  accept = pos 1;
}

abbrev address : Address
address = record { socket = some 4; reuses = true; binds = true }

abbrev taken : Address
taken = record { socket = some 3; reuses = true; binds = false }

start_server_listens_example :
    start_server (some ((taken ∷ []) ++ address ∷ [])) true true
    ≡ listening 4 (sockets_of (taken ∷ []))
start_server_listens_example =
    start_server_listens (taken ∷ []) address [] 3 (inr (refl, refl), tt) refl refl refl

abbrev parts : Parts
parts = record {
  method = codes "GET";
  target = codes "/a";
  proto_first = b'H';
  proto_rest = codes "TTP/1.1";
  headers = (codes "Host", codes "x") ∷ [];
  body = codes "k=1";
}

parts-IsLaidOut : IsLaidOut room parts
parts-IsLaidOut = record {
  method_space = lacks_test 32 (codes "GET") refl;
  target_space = lacks_test 32 (codes "/a") refl;
  proto_space = lacks_test 32 (codes "HTTP/1.1") refl;
  method_return = lacks_test 13 (codes "GET") refl;
  target_return = lacks_test 13 (codes "/a") refl;
  proto_return = lacks_test 13 (codes "HTTP/1.1") refl;
  header_parts = (
    (
      lacks_test 58 (codes "Host") refl,
      lacks_test 13 (codes "Host") refl,
      lacks_test 13 (codes "x") refl,
    ),
    tt,
  );
  body_return = lacks_test 13 (codes "k=1") refl;
  body_fits = omega arith;
  few = omega arith;
}

parse_request_lem_example : parse_request room true (request_text parts) ≡ (
    if request_fits room parts
    then ok (record {
      info = request_info (codes "GET") (codes "HTTP/1.1");
      path = codes "/a";
      headers = of_bindings 50 (bind_all 50 [] ((codes "Host", codes "x") ∷ []));
      body = text (codes "k=1");
      query = of_bindings 20 [];
    })
    else fault out_of_bounds)
parse_request_lem_example =
    parse_request_lem room true (λ n. omega arith) parts parts-IsLaidOut
      (lacks_test 63 (codes "/a") refl) (omega arith)

abbrev param : Param
param = record {
  key_first = b'u';
  key_rest = codes "ser";
  value_first = b'f';
  value_rest = codes "oo";
}

param-IsParam : IsParam param
param-IsParam = record {
  key_equals = lacks_test 61 (codes "user") refl;
  key_and = lacks_test 38 (codes "user") refl;
  key_mark = lacks_test 63 (codes "user") refl;
  value_and = lacks_test 38 (codes "foo") refl;
  value_mark = lacks_test 63 (codes "foo") refl;
}

abbrev query_parts : Parts
query_parts = record parts { target = codes "/a?user=foo&user=foo" }

query_parts-IsLaidOut : IsLaidOut room query_parts
query_parts-IsLaidOut = record {
  method_space = parts-IsLaidOut.method_space;
  target_space = lacks_test 32 (codes "/a?user=foo&user=foo") refl;
  proto_space = parts-IsLaidOut.proto_space;
  method_return = parts-IsLaidOut.method_return;
  target_return = lacks_test 13 (codes "/a?user=foo&user=foo") refl;
  proto_return = parts-IsLaidOut.proto_return;
  header_parts = parts-IsLaidOut.header_parts;
  body_return = parts-IsLaidOut.body_return;
  body_fits = parts-IsLaidOut.body_fits;
  few = parts-IsLaidOut.few;
}

parse_request-query_example : parse_request room true (request_text query_parts) ≡ (
    if query_fits room 2 && request_fits room query_parts
    then ok (record {
      info = request_info (codes "GET") (codes "HTTP/1.1");
      path = codes "/a";
      headers = of_bindings 50 (bind_all 50 [] ((codes "Host", codes "x") ∷ []));
      body = text (codes "k=1");
      query = of_bindings 20 (bind_all 20 [] (pairs (param ∷ []) param));
    })
    else fault out_of_bounds)
parse_request-query_example =
    parse_request-query room true (λ n. omega arith) query_parts (codes "/a") (param ∷ []) param
      query_parts-IsLaidOut refl (lacks_test 63 (codes "/a") refl) (param-IsParam, tt) param-IsParam
      (omega arith) (omega arith)

parse_request-bad_header_example :
    parse_request room true (malformed_text parts (codes "Accept")) ≡ (
      if malformed_fits room parts (codes "Accept")
      then (if true then spin else fault uninitialised)
      else fault out_of_bounds)
parse_request-bad_header_example =
    parse_request-bad_header room true (λ n. omega arith) parts (codes "Accept") parts-IsLaidOut
      (lacks_test 63 (codes "/a") refl) (omega arith) (lacks_test 58 (codes "Accept") refl)
      (lacks_test 13 (codes "Accept") refl)

-- A read that fails behind a part of a request.
respond_after_error_example :
    respond room true files
      (codes "/srv")
      session
      (map got (codes "GET " ∷ []) ++ failed 0 ∷ [])
      (map pos (length bad_request_response ∷ []))
    ≡ (respond room true files
          (codes "/srv")
          session
          (map got (codes "GET " ∷ []) ++ got [] ∷ [])
          []
        >>= λ r. ok (record { ssl_wire = bad_request_response; routed = r.routed }))
respond_after_error_example =
    respond_after_error room true files (codes "/srv") session (codes "GET " ∷ []) 0 []
      (length bad_request_response) [] (omega arith, tt) (omega arith)
      (omega arith, omega arith, tt) refl
