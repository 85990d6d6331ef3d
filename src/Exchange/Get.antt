-- ===== src/Exchange/Get.antt =====
-- The message that the client builds for a GET with a query string is a request as the server expects
-- it.
use pwdmanlib.Base.{
  ℕ, ◌+◌, ◌≤◌, ◌≡◌, ◌≢◌, refl, sym, ap, ◌∙◌, some, List, [], ◌∷◌, ◌++◌, length, append_assoc, All,
  Bytes, codes, ok, arith, Bool, if◌then◌else◌, fault, out_of_bounds, ◌&&◌, ◌*◌, ◌^◌, ◌<◌,
}
use pwdmanlib.Dict.Refine.{of_bindings}
use pwdmanlib.Fawkes.Request.{request_info}
use pwdmanlib.StringOps.Split.{spell}
use pwdmanlib.StringOps.Pieces.{Lacks}
use pwdmanlib.Server.{null, parse_request}
use pwdmanlib.Server.Headers.{header_text, header_texts, bind_all}
use pwdmanlib.Server.Parts.{Parts, IsLaidOut, request_text}
use pwdmanlib.Server.Parse.{request_fits}
use pwdmanlib.Server.Query.{Param, IsParam, query_fits}
use pwdmanlib.Server.Target.{pairs, parse_request-query}
use pwdmanlib.Client
use pwdmanlib.Server.Query
use pwdmanlib.Client.{Args, host, path, header_lines, get_message}

-- The parts of the message with the headers `hs` and the query string `query`.
abbrev pub get_parts : Args → List (Bytes × Bytes) → Bytes → Parts
get_parts a hs query = record {
  method = codes "GET";
  target = path a ++ (codes "?" ++ query);
  proto_first = b'H';
  proto_rest = codes "TTP/1.0";
  headers = (codes "Host", host a) ∷ hs;
  body = [];
}

lines :
    (hs : List (Bytes × Bytes))
    → spell (codes "\r\n") (header_texts hs ++ [] ∷ []) []
      ≡ header_lines (header_texts hs) ++ codes "\r\n"
unfolding header_lines
lines [] = refl
lines ((n, v) ∷ hs) =
    ap (λ t. header_text (n, v) ++ (codes "\r\n" ++ t)) (lines hs)
    ∙ sym (
        append_assoc (header_text (n, v)) (codes "\r\n" ++ header_lines (header_texts hs))
          (codes "\r\n"))

query_text-given : (d : Bytes) → d ≢ [] → Client.query_text (some d) ≡ codes "?" ++ d
unfolding Client.query_text pwdmanlib.StringOps.is_empty
query_text-given [] ne = absurd (ne refl)
query_text-given (c ∷ d) ne = refl

-- What follows the request line.
abbrev behind : Args → List (Bytes × Bytes) → Bytes
behind a hs =
    codes "\r\nHost: "
    ++ (host a ++ (codes "\r\n" ++ spell (codes "\r\n") (header_texts hs ++ [] ∷ []) []))

get_message-request_text :
    (a : Args) (hs : List (Bytes × Bytes)) (d : Bytes)
    → a.method ≡ codes "GET"
    → d ≢ []
    → a.rest ≡ d ∷ header_texts hs
    → get_message a ≡ request_text (get_parts a hs d)
unfolding get_message Client.or_else pwdmanlib.StringOps.is_empty
get_message-request_text a hs d m ne e =
    rw (m, e, query_text-given d ne)
      (ap
          (λ t.
            codes "GET "
            ++ (path a
                ++ ((codes "?" ++ d)
                    ++ (codes " HTTP/1.0\r\nHost: " ++ (host a ++ (codes "\r\n" ++ t))))))
          (sym (lines hs))
        ∙ ap (λ t. codes "GET " ++ t)
            (sym (append_assoc (path a) (codes "?" ++ d) (codes " HTTP/1.0" ++ behind a hs)))
        ∙ ap (λ t. codes "GET " ++ t)
            (sym (append_assoc (path a ++ (codes "?" ++ d)) (codes " HTTP/1.0") (behind a hs))))

query_text-ne : (ps : List Param) (last : Param) → Query.query_text ps last ≢ []
query_text-ne [] last h = ground arith
query_text-ne (p ∷ ps) last h = ground arith

-- A GET of the client for a path without a question mark that fits its eight bytes, with fewer than
-- 2^30 - 1 parameters that have keys and values and fewer than 2^31 - 5 headers that have names and
-- values, in the parts of which no separator occurs, with an allocator that gives what it is asked for:
-- where the arrays of `strsplit` and `parseQueryStr` take the NULL behind what was asked for, the server
-- parses the message to that path, to the query of the parameters, to the headers with that of the host
-- in front, and to no body; where one does not, it writes out of bounds.
pub parse_request-get_message :
    (room : ℕ → ℕ) (nulls : Bool) (a : Args) (hs : List (Bytes × Bytes)) (ps : List Param)
    (last : Param)
    → ((n : ℕ) → n ≤ room n)
    → a.method ≡ codes "GET"
    → a.rest ≡ Query.query_text ps last ∷ header_texts hs
    → IsLaidOut room (get_parts a hs (Query.query_text ps last))
    → Lacks b'?' (path a)
    → All IsParam ps
    → IsParam last
    → length (path a) + 1 ≤ room 8
    → 2 * length ps + 3 < 2 ^ 31
    → parse_request room nulls (get_message a) ≡ (
        if query_fits room (length ps + 1)
          && request_fits room (get_parts a hs (Query.query_text ps last))
        then ok (record {
          info = request_info (codes "GET") (codes "HTTP/1.0");
          path = path a;
          headers = of_bindings 50 (bind_all 50 [] ((codes "Host", host a) ∷ hs));
          body = null;
          query = of_bindings 20 (bind_all 20 [] (pairs ps last));
        })
        else fault out_of_bounds)
parse_request-get_message room nulls a hs ps last given m e laid_out mark hps hlast fits few =
    ap (parse_request room nulls)
      (get_message-request_text a hs (Query.query_text ps last) m (query_text-ne ps last) e)
    ∙ parse_request-query room nulls given (get_parts a hs (Query.query_text ps last)) (path a) ps
        last laid_out refl mark hps hlast fits few
