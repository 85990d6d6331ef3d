-- ===== src/Server/Parse.antt =====
-- What `parseRequest` makes of a request that is put together from its parts.
use pwdmanlib.Base.{
  ℕ, suc, ◌+◌, ◌^◌, ◌≤◌, ◌<◌, ◌≡◌, ◌≢◌, refl, ap, ◌∙◌, Bool, true, false, ◌&&◌, leb, if◌then◌else◌,
  Option, none, some, List, [], ◌∷◌, ◌++◌, map, length, length-append, drop, Bytes, codes,
  strstr-lacks, ok, fault, out_of_bounds, Bool-cases, inl, inr, arith,
}
use pwdmanlib.Dict.{Dict}
use pwdmanlib.Dict.Refine.{of_bindings, init_dict-of_bindings}
use pwdmanlib.Fawkes.Request.{request_info}
use pwdmanlib.StringOps.{trailing, Tokens, strsplit, is_empty}
use pwdmanlib.StringOps.Pieces.{Lacks}
use pwdmanlib.Server.{
  Body, string_at, copy_to_pointer_size, parse_target, set_headers, find_body, header_rounds,
  parse_request,
}
use pwdmanlib.Server.Headers.{
  counts-few, header_text, header_texts, bind_all, le→leb, set_headers-texts, find_body-skips,
  find_body-texts, split-fits, split-overflows, cells_fit, stored,
}
use pwdmanlib.Server.Parts.{
  Parts, proto, line_of, pieces_of, request_text, IsLaidOut, header_texts-Lacks, line_of-Lacks,
  length-header_texts,
}

-- The steps of `parseRequest` when none of them fails.
parse_request-steps :
    (room : ℕ → ℕ) (nulls : Bool) (req line target prot method : Bytes) (tokens sub_tokens : Tokens)
    (t : Bytes × Dict Bytes) (headers : Dict Bytes) (body : Body)
    → strsplit room req (codes "\r\n") ≡ ok tokens
    → tokens.len < 2 ^ 31
    → string_at tokens.cells 0 ≡ ok line
    → strsplit room line (codes " ") ≡ ok sub_tokens
    → sub_tokens.len < 2 ^ 31
    → string_at sub_tokens.cells 1 ≡ ok target
    → parse_target room target (of_bindings 20 []) ≡ ok t
    → set_headers room nulls (header_rounds tokens.len) (drop 1 tokens.cells) (of_bindings 50 [])
      ≡ ok headers
    → find_body room tokens.len tokens.cells ≡ ok body
    → string_at sub_tokens.cells 2 ≡ ok prot
    → string_at sub_tokens.cells 0 ≡ ok method
    → parse_request room nulls req
      ≡ ok (record {
        info = request_info method prot;
        path = t.0;
        headers = headers;
        body = body;
        query = t.1;
      })
unfolding parse_request
parse_request-steps room nulls req line target prot method tokens sub_tokens t headers body a few b
      c few' d e f g h i =
    rw
      (
        a,
        counts-few tokens.len few,
        b,
        c,
        counts-few sub_tokens.len few',
        init_dict-of_bindings {V = Bytes} 50,
        init_dict-of_bindings {V = Bytes} 20,
        d,
        e,
        f,
        g,
        h,
        i,
      )
      refl

-- A failure behind the first `strsplit`: of the second one, of the target, or of the headers.
pub parse_request-split_fails :
    (room : ℕ → ℕ) (nulls : Bool) (req line : Bytes) (tokens : Tokens)
    → strsplit room req (codes "\r\n") ≡ ok tokens
    → tokens.len < 2 ^ 31
    → string_at tokens.cells 0 ≡ ok line
    → strsplit room line (codes " ") ≡ fault out_of_bounds
    → parse_request room nulls req ≡ fault out_of_bounds
unfolding parse_request
parse_request-split_fails room nulls req line tokens a few b c =
    rw (a, counts-few tokens.len few, b, c) refl

parse_request-target_fails :
    (room : ℕ → ℕ) (nulls : Bool) (req line target : Bytes) (tokens sub_tokens : Tokens)
    → strsplit room req (codes "\r\n") ≡ ok tokens
    → tokens.len < 2 ^ 31
    → string_at tokens.cells 0 ≡ ok line
    → strsplit room line (codes " ") ≡ ok sub_tokens
    → sub_tokens.len < 2 ^ 31
    → string_at sub_tokens.cells 1 ≡ ok target
    → parse_target room target (of_bindings 20 []) ≡ fault out_of_bounds
    → parse_request room nulls req ≡ fault out_of_bounds
unfolding parse_request
parse_request-target_fails room nulls req line target tokens sub_tokens a few b c few' d e =
    rw
      (
        a,
        counts-few tokens.len few,
        b,
        c,
        counts-few sub_tokens.len few',
        init_dict-of_bindings {V = Bytes} 50,
        init_dict-of_bindings {V = Bytes} 20,
        d,
        e,
      )
      refl

pub parse_target-path :
    (room : ℕ → ℕ) (path : Bytes) (query : Dict Bytes)
    → Lacks b'?' path
    → length path + 1 ≤ room 8
    → parse_target room path query ≡ ok (path, query)
unfolding parse_target copy_to_pointer_size
parse_target-path room path query h fits =
    rw (strstr-lacks path b'?' [] h, parse_target, le→leb (length path + 1) (room 8) fits)

header_rounds_lem : (n : ℕ) → n + 4 < 2 ^ 31 → header_rounds (n + 3) ≡ n
header_rounds_lem n h = omega arith

-- The cells behind the request line.
cells-behind :
    (hs : List (Bytes × Bytes)) (cells : List (Option Bytes))
    → map some (header_texts hs ++ [] ∷ []) ++ cells ≡ map some (header_texts hs) ++ some [] ∷ cells
cells-behind [] cells = refl
cells-behind (h ∷ hs) cells = ap (λ t. some (header_text h) ∷ t) (cells-behind hs cells)

length-pieces_of : (r : Parts) → length (pieces_of r) + 1 ≡ length r.headers + 3
length-pieces_of r =
    omega (arith, length-append (header_texts r.headers) ([] ∷ []), length-header_texts r.headers)

line_of-ne : (r : Parts) → line_of r ≢ []
line_of-ne r = split r.method
  where
    split : (m : Bytes) → m ++ (codes " " ++ (r.target ++ (codes " " ++ proto r))) ≢ []
    split [] h = ground arith
    split (c ∷ m) h = ground arith

and-left : (a b : Bool) → a && b ≡ true → a ≡ true
and-left true b h = refl
and-left false b h = h

and-right : (a b : Bool) → a && b ≡ true → b ≡ true
and-right true b h = h
and-right false b h = absurd (ground arith)

-- Whether the arrays of both calls of `strsplit`, for the lines of the request and for the three words of
-- its first line, take the NULL behind the cells that were asked for.
abbrev pub request_fits : (ℕ → ℕ) → Parts → Bool
request_fits room r = cells_fit room (pieces_of r) r.body && leb 32 (room 24)

module _ (room : ℕ → ℕ) (nulls : Bool) (given : (n : ℕ) → n ≤ room n) where
  headers-found :
      (r : Parts)
      → IsLaidOut room r
      → set_headers room nulls
          (header_rounds (length (pieces_of r) + 1))
          (map some (header_texts r.headers ++ [] ∷ []) ++ trailing r.body)
          (of_bindings 50 [])
        ≡ ok (of_bindings 50 (bind_all 50 [] r.headers))
  headers-found r h =
      ap
        (λ n.
          set_headers room nulls n (map some (header_texts r.headers ++ [] ∷ []) ++ trailing r.body)
            (of_bindings 50 []))
        (ap header_rounds (length-pieces_of r) ∙ header_rounds_lem (length r.headers) h.few)
      ∙ ap (λ cells. set_headers room nulls (length r.headers) cells (of_bindings 50 []))
          (cells-behind r.headers (trailing r.body))
      ∙ set_headers-texts room given nulls r.headers (some [] ∷ trailing r.body) [] h.header_parts
          (omega arith)

  body-found :
      (r : Parts)
      → IsLaidOut room r
      → find_body room
          (length (pieces_of r) + 1)
          (some (line_of r) ∷ (map some (header_texts r.headers ++ [] ∷ []) ++ trailing r.body))
        ≡ ok (stored r.body)
  body-found r h =
      let rest = map some (header_texts r.headers) ++ some [] ∷ trailing r.body in
      ap
        (λ n.
          find_body room n
            (some (line_of r) ∷ (map some (header_texts r.headers ++ [] ∷ []) ++ trailing r.body)))
        {x = length (pieces_of r) + 1} {y = suc (length r.headers + 2)}
        (omega (arith, length-pieces_of r))
      ∙ ap (λ cells. find_body room (suc (length r.headers + 2)) (some (line_of r) ∷ cells))
          (cells-behind r.headers (trailing r.body))
      ∙ find_body-skips room given (length r.headers + 2) (line_of r) rest (line_of-ne r)
      ∙ find_body-texts room given 1 r.headers r.body h.body_fits

  split_request :
      (r : Parts)
      → IsLaidOut room r
      → cells_fit room (pieces_of r) r.body ≡ true
      → strsplit room (request_text r) (codes "\r\n")
        ≡ ok (record {
          cells =
              some (line_of r) ∷ (map some (header_texts r.headers ++ [] ∷ []) ++ trailing r.body);
          len = length (pieces_of r) + 1;
        })
  split_request r h e =
      split-fits room given 13 (10 ∷ []) (pieces_of r) r.body
        (line_of-Lacks room r h, header_texts-Lacks r.headers h.header_parts) h.body_return e

  -- The words of the request line.
  pub split_line :
      (r : Parts)
      → IsLaidOut room r
      → leb 32 (room 24) ≡ true
      → strsplit room (line_of r) (codes " ")
        ≡ ok
            (record { cells = some r.method ∷ some r.target ∷ some (proto r) ∷ none ∷ []; len = 3 })
  unfolding is_empty trailing
  split_line r h e =
      split-fits room given b' ' [] (r.method ∷ r.target ∷ []) (proto r)
        (h.method_space, (h.target_space, tt)) h.proto_space e

  pub split_line-overflows :
      (r : Parts)
      → IsLaidOut room r
      → leb 32 (room 24) ≡ false
      → strsplit room (line_of r) (codes " ") ≡ fault out_of_bounds
  unfolding is_empty
  split_line-overflows r h e =
      split-overflows room given b' ' [] (r.method ∷ r.target ∷ []) (proto r)
        (h.method_space, (h.target_space, tt)) h.proto_space e

  few-pieces : (r : Parts) → IsLaidOut room r → length (pieces_of r) + 1 < 2 ^ 31
  few-pieces r h = omega (arith, h.few, length-pieces_of r)

  -- Where an array does not take its NULL.
  parse_request-overflows :
      (r : Parts)
      → IsLaidOut room r
      → request_fits room r ≡ false
      → parse_request room nulls (request_text r) ≡ fault out_of_bounds
  parse_request-overflows r h e = elim (Bool-cases (cells_fit room (pieces_of r) r.body)) [
    | inr short ↦
        unfold parse_request in
        rw
          (split-overflows room given 13 (10 ∷ []) (pieces_of r) r.body
            (line_of-Lacks room r h, header_texts-Lacks r.headers h.header_parts) h.body_return
            short)
          refl
    | inl fits ↦
        parse_request-split_fails room nulls (request_text r) (line_of r) _ (split_request r h fits)
          (few-pieces r h) (unfold string_at in refl) (split_line-overflows r h (rw fits at e))
  ]

  -- A request whose target is parsed to a path and a query.
  pub parse_request-target :
      (r : Parts) (path : Bytes) (query : Dict Bytes)
      → IsLaidOut room r
      → parse_target room r.target (of_bindings 20 []) ≡ ok (path, query)
      → parse_request room nulls (request_text r) ≡ (
          if request_fits room r
          then ok (record {
            info = request_info r.method (proto r);
            path = path;
            headers = of_bindings 50 (bind_all 50 [] r.headers);
            body = stored r.body;
            query = query;
          })
          else fault out_of_bounds)
  parse_request-target r path query h e = elim (Bool-cases (request_fits room r)) [
    | inr short ↦ rw short (parse_request-overflows r h short)
    | inl fits ↦ rw fits (
        parse_request-steps room nulls (request_text r) (line_of r) r.target (proto r) r.method _ _
          _ _ _ (split_request r h (and-left _ _ fits)) (few-pieces r h) (unfold string_at in refl)
          (split_line r h (and-right _ _ fits)) (omega arith) (unfold string_at in refl) e
          (headers-found r h) (body-found r h) (unfold string_at in refl)
          (unfold string_at in refl))
  ]

  -- A request whose target is not parsed, since an array of `parseQueryStr` overflows.
  pub parse_request-target_overflows :
      (r : Parts)
      → IsLaidOut room r
      → parse_target room r.target (of_bindings 20 []) ≡ fault out_of_bounds
      → parse_request room nulls (request_text r) ≡ fault out_of_bounds
  parse_request-target_overflows r h e = elim (Bool-cases (request_fits room r)) [
    | inr short ↦ parse_request-overflows r h short
    | inl fits ↦
        parse_request-target_fails room nulls (request_text r) (line_of r) r.target _ _
          (split_request r h (and-left _ _ fits)) (few-pieces r h) (unfold string_at in refl)
          (split_line r h (and-right _ _ fits)) (omega arith) (unfold string_at in refl) e
  ]

  -- A request without a query string, with a protocol that is not empty, with fewer than 2^31 - 4
  -- headers that each have a name and a value, whose parts do not contain the separators and whose path
  -- and body fit the eight bytes that are asked for, with an allocator that gives what it is asked
  -- for: where the arrays of both calls of `strsplit` take the NULL behind the cells that were asked for,
  -- `parseRequest` returns the path, the body, NULL for an empty one, and the information byte of
  -- method and protocol, keeps the headers that fit the dictionary, and an empty query; where one
  -- does not, it writes out of bounds.
  pub parse_request_lem :
      (r : Parts)
      → IsLaidOut room r
      → Lacks b'?' r.target
      → length r.target + 1 ≤ room 8
      → parse_request room nulls (request_text r) ≡ (
          if request_fits room r
          then ok (record {
            info = request_info r.method (proto r);
            path = r.target;
            headers = of_bindings 50 (bind_all 50 [] r.headers);
            body = stored r.body;
            query = of_bindings 20 [];
          })
          else fault out_of_bounds)
  parse_request_lem r h mark fits =
      parse_request-target r r.target (of_bindings 20 []) h
        (parse_target-path room r.target (of_bindings 20 []) mark fits)
