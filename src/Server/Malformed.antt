-- ===== src/Server/Malformed.antt =====
-- Requests that `parseRequest` is not prepared for.
use pwdmanlib.Base.{
  ℕ, suc, ◌+◌, ◌^◌, ◌≤◌, ◌<◌, ◌≡◌, refl, ap, ◌∙◌, Bool, true, false, ◌&&◌, leb, if◌then◌else◌,
  Option, none, some, List, [], ◌∷◌, ◌++◌, map, length, length-append, drop, All, Bytes, codes,
  strstr-lacks, Result, ok, fault, spin, ◌>>=◌, uninitialised, out_of_bounds, Bool-cases, inl, inr,
  arith,
}
use pwdmanlib.Dict.{Dict}
use pwdmanlib.Dict.Assoc.{Bindings}
use pwdmanlib.Dict.Refine.{of_bindings, init_dict-of_bindings}
use pwdmanlib.StringOps.{trailing, Tokens, strsplit}
use pwdmanlib.StringOps.Split.{spell}
use pwdmanlib.StringOps.Pieces.{Lacks}
use pwdmanlib.Server.{
  string_at, parse_header, parse_target, set_headers, header_value, header_rounds, parse_request,
}
use pwdmanlib.Server.Headers.{
  counts-few, header_text, header_texts, IsHeader, bind_one, length-bind_one, set_tuple-bind_one,
  parse_header-text, split-fits, split-overflows, cells_fit,
}
use pwdmanlib.Server.Parts.{
  Parts, line_of, IsLaidOut, line_of-Lacks, header_text-Lacks, length-header_texts,
}
use pwdmanlib.Server.Parse.{
  parse_target-path, parse_request-split_fails, split_line, split_line-overflows,
}

-- The text of a request with a line `bad` behind its headers.
abbrev pub malformed_text : Parts → Bytes → Bytes
malformed_text r bad =
    spell (codes "\r\n") (line_of r ∷ (header_texts r.headers ++ bad ∷ [] ∷ [])) r.body

-- What reading a value that was never written comes to: the same header again and again, or an undefined
-- value.
abbrev unwritten {ℓ} : {A : Type ℓ} → Bool → Result A
unwritten nulls = if nulls then spin else fault uninitialised

unwritten-bind :
    {A B : Type 0} (nulls : Bool) (f : A → Result B) → (unwritten nulls >>= f) ≡ unwritten nulls
unwritten-bind true f = refl
unwritten-bind false f = refl

parse_request-headers_fail :
    (room : ℕ → ℕ) (nulls : Bool) (req line target : Bytes) (tokens sub_tokens : Tokens)
    (t : Bytes × Dict Bytes)
    → strsplit room req (codes "\r\n") ≡ ok tokens
    → tokens.len < 2 ^ 31
    → string_at tokens.cells 0 ≡ ok line
    → strsplit room line (codes " ") ≡ ok sub_tokens
    → sub_tokens.len < 2 ^ 31
    → string_at sub_tokens.cells 1 ≡ ok target
    → parse_target room target (of_bindings 20 []) ≡ ok t
    → set_headers room nulls (header_rounds tokens.len) (drop 1 tokens.cells) (of_bindings 50 [])
      ≡ unwritten nulls
    → parse_request room nulls req ≡ unwritten nulls
unfolding parse_request
parse_request-headers_fail room nulls req line target tokens sub_tokens t a few b c few' d e f =
    rw
      (
        a,
        counts-few tokens.len few,
        b,
        c,
        counts-few sub_tokens.len few',
        init_dict-of_bindings {V = Bytes} 50,
        init_dict-of_bindings {V = Bytes} 20,
        d,
        e,
        f,
      )
      (unwritten-bind nulls _)

rounds_lem : (n : ℕ) → n + 4 < 2 ^ 31 → header_rounds (n + 4) ≡ n + 1
rounds_lem n h = omega arith

-- The cells behind the request line.
cells-bad :
    (hs : List (Bytes × Bytes)) (bad : Bytes) (cells : List (Option Bytes))
    → map some (header_texts hs ++ bad ∷ [] ∷ []) ++ cells
      ≡ map some (header_texts hs) ++ some bad ∷ some [] ∷ cells
cells-bad [] bad cells = refl
cells-bad (h ∷ hs) bad cells = ap (λ t. some (header_text h) ∷ t) (cells-bad hs bad cells)

pieces-Lacks :
    (hs : List (Bytes × Bytes)) (bad : Bytes)
    → All IsHeader hs
    → Lacks 13 bad
    → All (Lacks 13) (header_texts hs ++ bad ∷ [] ∷ [])
pieces-Lacks [] bad h l = (l, (tt, tt))
pieces-Lacks ((name, value) ∷ hs) bad (h, h') l =
    (header_text-Lacks name value h, pieces-Lacks hs bad h' l)

-- Whether both arrays of `strsplit` take the NULL behind their cells.
abbrev pub malformed_fits : (ℕ → ℕ) → Parts → Bytes → Bool
malformed_fits room r bad =
    cells_fit room (line_of r ∷ (header_texts r.headers ++ bad ∷ [] ∷ [])) r.body
    && leb 32 (room 24)

header_value-none : (nulls : Bool) → header_value nulls none ≡ unwritten nulls
unfolding header_value
header_value-none true = refl
header_value-none false = refl

module _ (room : ℕ → ℕ) (nulls : Bool) (given : (n : ℕ) → n ≤ room n) where
  value_missing :
      (left : ℕ) (bad : Bytes) (cells : List (Option Bytes)) (m : Bindings Bytes)
      → Lacks b':' bad
      → set_headers room nulls (suc left) (some bad ∷ cells) (of_bindings 50 m) ≡ unwritten nulls
  unfolding set_headers parse_header
  value_missing left bad cells m l =
      rw (strstr-lacks bad b':' (b' ' ∷ []) l, parse_header, header_value-none nulls)
        (unwritten-bind nulls _)

  set_headers-bad :
      (hs : List (Bytes × Bytes)) (bad : Bytes) (cells : List (Option Bytes)) (m : Bindings Bytes)
      → All IsHeader hs
      → Lacks b':' bad
      → length m ≤ 50
      → set_headers room nulls
          (length hs + 1)
          (map some (header_texts hs) ++ some bad ∷ cells)
          (of_bindings 50 m)
        ≡ unwritten nulls
  unfolding set_headers header_value
  set_headers-bad [] bad cells m h l few = value_missing 0 bad cells m l
  set_headers-bad ((name, value) ∷ hs) bad cells m ((colon, cr, cr'), h) l few =
      let rest = map some (header_texts hs) ++ some bad ∷ cells in
      ap
        (λ n. set_headers room nulls n (some (header_text (name, value)) ∷ rest) (of_bindings 50 m))
        {x = suc (length hs) + 1} {y = suc (length hs + 1)} (omega arith)
      ∙ rw (parse_header-text room given name value colon, set_headers)
          (set_tuple-bind_one 50 m name value (set_headers room nulls (length hs + 1) rest) few
              (omega arith)
            ∙ set_headers-bad hs bad cells (bind_one 50 m name value) h l
                (length-bind_one 50 m name value few))

  abbrev bad_pieces : Parts → Bytes → List Bytes
  bad_pieces r bad = line_of r ∷ (header_texts r.headers ++ bad ∷ [] ∷ [])

  length-bad_pieces :
      (r : Parts) (bad : Bytes) → length (bad_pieces r bad) + 1 ≡ length r.headers + 4
  length-bad_pieces r bad =
      omega (
        arith,
        length-append (header_texts r.headers) (bad ∷ [] ∷ []),
        length-header_texts r.headers,
      )

  headers-fail :
      (r : Parts) (bad : Bytes)
      → IsLaidOut room r
      → Lacks b':' bad
      → set_headers room nulls
          (header_rounds (length (bad_pieces r bad) + 1))
          (map some (header_texts r.headers ++ bad ∷ [] ∷ []) ++ trailing r.body)
          (of_bindings 50 [])
        ≡ unwritten nulls
  headers-fail r bad h l =
      ap
        (λ n.
          set_headers room nulls n
            (map some (header_texts r.headers ++ bad ∷ [] ∷ []) ++ trailing r.body)
            (of_bindings 50 []))
        (ap header_rounds (length-bad_pieces r bad) ∙ rounds_lem (length r.headers) h.few)
      ∙ ap (λ cells. set_headers room nulls (length r.headers + 1) cells (of_bindings 50 []))
          (cells-bad r.headers bad (trailing r.body))
      ∙ set_headers-bad r.headers bad (some [] ∷ trailing r.body) [] h.header_parts l (omega arith)

  -- A line without a colon behind fewer than 2^31 - 4 headers that are well formed, in a request without
  -- a query string, with a protocol that is not empty, whose parts do not contain the separators and
  -- whose path and body fit their eight bytes, with an allocator that gives what it is asked for: where
  -- the arrays of both calls of `strsplit` take the NULL behind their cells, `parseRequest` reads a value
  -- that was never written, and where that reads as NULL it parses the same line again for ever; where
  -- an array does not take its NULL, it writes out of bounds before.
  pub parse_request-bad_header :
      (r : Parts) (bad : Bytes)
      → IsLaidOut room r
      → Lacks b'?' r.target
      → length r.target + 1 ≤ room 8
      → Lacks b':' bad
      → Lacks 13 bad
      → parse_request room nulls (malformed_text r bad) ≡ (
          if malformed_fits room r bad
          then (if nulls then spin else fault uninitialised)
          else fault out_of_bounds)
  parse_request-bad_header r bad h mark fits l cr =
      let lacks : All (Lacks 13) (bad_pieces r bad) =
        (line_of-Lacks room r h, pieces-Lacks r.headers bad h.header_parts cr) in
      let few : length (bad_pieces r bad) + 1 < 2 ^ 31 =
        omega (arith, h.few, length-bad_pieces r bad) in
      elim (Bool-cases (cells_fit room (bad_pieces r bad) r.body)) [
        | inr short ↦ rw short (
            unfold parse_request in
            rw
              (split-overflows room given 13 (10 ∷ []) (bad_pieces r bad) r.body lacks h.body_return
                short)
              refl)
        | inl enough ↦
            (let tokens =
                split-fits room given 13 (10 ∷ []) (bad_pieces r bad) r.body lacks h.body_return
                  enough in
              elim (Bool-cases (leb 32 (room 24))) [
                | inr short ↦
                    rw (enough, short)
                      (parse_request-split_fails room nulls (malformed_text r bad) (line_of r) _
                        tokens few (unfold string_at in refl)
                        (split_line-overflows room nulls given r h short))
                | inl wide ↦
                    rw (enough, wide)
                      (parse_request-headers_fail room nulls (malformed_text r bad) (line_of r)
                        r.target _ _ _ tokens few (unfold string_at in refl)
                        (split_line room nulls given r h wide) (omega arith)
                        (unfold string_at in refl)
                        (parse_target-path room r.target (of_bindings 20 []) mark fits)
                        (headers-fail r bad h l))
              ])
      ]
