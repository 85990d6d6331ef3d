-- ===== src/Exchange/Post.antt =====
-- The message that the client builds for a method other than GET is a request as the server expects
-- it.
use pwdmanlib.Base.{
  ℕ, ◌+◌, ◌≤◌, ◌≡◌, ◌≢◌, refl, sym, ap, ◌∙◌, some, List, [], ◌∷◌, ◌++◌, length, append_assoc, Bytes,
  codes, ok, Bool, if◌then◌else◌, fault, out_of_bounds,
}
use pwdmanlib.Dict.Refine.{of_bindings}
use pwdmanlib.Fawkes.Request.{request_info}
use pwdmanlib.StringOps.Split.{spell}
use pwdmanlib.StringOps.Pieces.{Lacks}
use pwdmanlib.Server.{text, parse_request}
use pwdmanlib.Server.Headers.{header_text, header_texts, bind_all}
use pwdmanlib.Server.Parts.{Parts, IsLaidOut, request_text}
use pwdmanlib.Server.Parse.{request_fits, parse_request_lem}
use pwdmanlib.Client.Fits.{or_else-given}
use pwdmanlib.Client.{Args, host, path, header_lines, decimal, content_length, post_message}

-- The headers of the message: that of the host, those given, and that of the length of the body.
abbrev pub sent_headers : Args → List (Bytes × Bytes) → Bytes → List (Bytes × Bytes)
sent_headers a hs body =
    (codes "Host", host a) ∷ (hs ++ (codes "Content-Length", decimal (length body)) ∷ [])

-- The parts of the message with the headers `hs` and the body `c ∷ s`.
abbrev pub post_parts : Args → List (Bytes × Bytes) → ℕ → Bytes → Parts
post_parts a hs c s = record {
  method = a.method;
  target = path a;
  proto_first = b'H';
  proto_rest = codes "TTP/1.0";
  headers = sent_headers a hs (c ∷ s);
  body = c ∷ s;
}

lines :
    (hs : List (Bytes × Bytes)) (name value body : Bytes)
    → spell (codes "\r\n") (header_texts (hs ++ (name, value) ∷ []) ++ [] ∷ []) body
      ≡ header_lines (header_texts hs)
        ++ (header_text (name, value) ++ (codes "\r\n" ++ (codes "\r\n" ++ body)))
unfolding header_lines
lines [] name value body = refl
lines ((n, v) ∷ hs) name value body =
    let rest = header_text (name, value) ++ (codes "\r\n" ++ (codes "\r\n" ++ body)) in
    ap (λ t. header_text (n, v) ++ (codes "\r\n" ++ t)) (lines hs name value body)
    ∙ ap (λ t. header_text (n, v) ++ t)
        (sym (append_assoc (codes "\r\n") (header_lines (header_texts hs)) rest))
    ∙ sym (append_assoc (header_text (n, v)) (codes "\r\n" ++ header_lines (header_texts hs)) rest)

length_line :
    (body : Bytes)
    → content_length (some body) ++ (codes "\r\n" ++ body)
      ≡ header_text (codes "Content-Length", decimal (length body))
        ++ (codes "\r\n" ++ (codes "\r\n" ++ body))
length_line body =
    ap (λ t. codes "Content-Length: " ++ t) (append_assoc (decimal (length body)) (codes "\r\n") _)

-- What follows the request line.
abbrev behind : Args → List (Bytes × Bytes) → ℕ → Bytes → Bytes
behind a hs c s =
    codes "\r\nHost: "
    ++ (host a
        ++ (codes "\r\n"
            ++ spell (codes "\r\n")
                (header_texts (hs ++ (codes "Content-Length", decimal (length (c ∷ s))) ∷ [])
                  ++ [] ∷ [])
                (c ∷ s)))

post_message-request_text :
    (a : Args) (hs : List (Bytes × Bytes)) (c : ℕ) (s : Bytes)
    → a.method ≢ []
    → a.rest ≡ (c ∷ s) ∷ header_texts hs
    → post_message a ≡ request_text (post_parts a hs c s)
unfolding post_message
post_message-request_text a hs c s ne e =
    rw (e, or_else-given a.method (codes "POST") ne, length_line (c ∷ s))
      (ap
          (λ t.
            a.method
            ++ (codes " "
                ++ (path a ++ (codes " HTTP/1.0\r\nHost: " ++ (host a ++ (codes "\r\n" ++ t))))))
          (sym (lines hs (codes "Content-Length") (decimal (length (c ∷ s))) (c ∷ s)))
        ∙ ap (λ t. a.method ++ (codes " " ++ t))
            (sym (append_assoc (path a) (codes " HTTP/1.0") (behind a hs c s)))
        ∙ sym
            (append_assoc a.method (codes " " ++ (path a ++ codes " HTTP/1.0")) (behind a hs c s)))

-- The message that the client builds for a method other than GET, one that is not empty, with a
-- path without a question mark that fits its eight bytes, fewer than 2^31 - 6 headers that have
-- names and values, and a body that is not empty and fits its eight bytes, in the parts of which no
-- separator occurs, with an allocator that gives what it is asked for: where the arrays of
-- `strsplit` take the NULL behind their cells, the server parses it to that method and path, to the
-- headers with that of the host in front and that of the length behind them, and to that body;
-- where one does not, it writes out of bounds.
pub parse_request-post_message :
    (room : ℕ → ℕ) (nulls : Bool) (a : Args) (hs : List (Bytes × Bytes)) (c : ℕ) (s : Bytes)
    → ((n : ℕ) → n ≤ room n)
    → a.method ≢ []
    → a.rest ≡ (c ∷ s) ∷ header_texts hs
    → IsLaidOut room (post_parts a hs c s)
    → Lacks b'?' (path a)
    → length (path a) + 1 ≤ room 8
    → parse_request room nulls (post_message a) ≡ (
        if request_fits room (post_parts a hs c s)
        then ok (record {
          info = request_info a.method (codes "HTTP/1.0");
          path = path a;
          headers = of_bindings 50 (bind_all 50 [] (sent_headers a hs (c ∷ s)));
          body = text (c ∷ s);
          query = of_bindings 20 [];
        })
        else fault out_of_bounds)
parse_request-post_message room nulls a hs c s given ne e laid_out mark fits =
    ap (parse_request room nulls) (post_message-request_text a hs c s ne e)
    ∙ parse_request_lem room nulls given (post_parts a hs c s) laid_out mark fits
