-- ===== src/Server/Query.antt =====
-- What `parseQueryStr` makes of a target that is put together from a path and parameters.
use pwdmanlib.Base.{
  ℕ, suc, ◌+◌, ◌*◌, ◌^◌, ◌≤◌, ◌<◌, ◌≡◌, ◌≢◌, refl, ap, ap₂, ◌∙◌, Bool, true, false, ◌&&◌, leb,
  if◌then◌else◌, Option, none, some, List, [], ◌∷◌, ◌++◌, map, length, All, Bytes, codes,
  strstr-after, ok, fault, out_of_bounds, guard, ◌>>◌, Bool-cases, inl, inr, arith,
}
use pwdmanlib.StringOps.{strsplit, trailing, is_empty, Tokens}
use pwdmanlib.StringOps.Split.{spell}
use pwdmanlib.StringOps.Pieces.{Lacks, take-prefix, drop-token}
use pwdmanlib.Server.{if_some_text, pieces, query_tokens, string_at, parse_query_str}
use pwdmanlib.Server.Headers.{counts-few, split-fits, split-overflows, cells_fit}
use pwdmanlib.Server.Parts.{Lacks-append}

-- A parameter: a key and a value, neither of them empty.
pub record Param : Type 0 where
  pub key_first : ℕ
  pub key_rest : Bytes
  pub value_first : ℕ
  pub value_rest : Bytes

abbrev pub key_of : Param → Bytes
key_of p = p.key_first ∷ p.key_rest

abbrev pub value_of : Param → Bytes
value_of p = p.value_first ∷ p.value_rest

abbrev param_text : Param → Bytes
param_text p = key_of p ++ (codes "=" ++ value_of p)

abbrev param_texts : List Param → List Bytes
param_texts [] = []
param_texts (p ∷ ps) = param_text p ∷ param_texts ps

-- The keys and the values in turn.
abbrev pub flat : List Param → List Bytes
flat [] = []
flat (p ∷ ps) = key_of p ∷ value_of p ∷ flat ps

-- The separators do not occur where they would split a key or a value.
pub record IsParam (p : Param) : Type 0 where
  pub key_equals : Lacks b'=' (key_of p)
  pub key_and : Lacks b'&' (key_of p)
  pub key_mark : Lacks b'?' (key_of p)
  pub value_and : Lacks b'&' (value_of p)
  pub value_mark : Lacks b'?' (value_of p)

pieces-param_text : (p : Param) → IsParam p → pieces (param_text p) ≡ key_of p ∷ value_of p ∷ []
unfolding pieces if_some_text
pieces-param_text p h = rw (
  strstr-after (key_of p) b'=' [] (value_of p) h.key_equals,
  pieces,
  take-prefix (key_of p) (codes "=" ++ value_of p),
  drop-token (key_of p) (codes "=") (value_of p),
)

query_tokens-step :
    (p : Param) (n : ℕ) (cells : List (Option Bytes)) (tokens : List Bytes)
    → IsParam p
    → query_tokens n cells ≡ ok tokens
    → query_tokens (suc n) (some (param_text p) ∷ cells) ≡ ok (key_of p ∷ value_of p ∷ tokens)
query_tokens-step p n cells tokens h e = unfold query_tokens in rw (e, pieces-param_text p h) refl

query_tokens-texts :
    (ps : List Param) (last : Param) (cells : List (Option Bytes))
    → All IsParam ps
    → IsParam last
    → query_tokens (length ps + 1) (map some (param_texts ps) ++ some (param_text last) ∷ cells)
      ≡ ok (flat ps ++ key_of last ∷ value_of last ∷ [])
query_tokens-texts [] last cells h hl = unfold query_tokens in rw (pieces-param_text last hl) refl
query_tokens-texts (p ∷ ps) last cells (h, hs) hl =
    ap
      (λ n.
        query_tokens n
          (some (param_text p) ∷ (map some (param_texts ps) ++ some (param_text last) ∷ cells)))
      {x = suc (length ps) + 1} {y = suc (length ps + 1)} (omega arith)
    ∙ query_tokens-step p (length ps + 1) _ _ h (query_tokens-texts ps last cells hs hl)

param_text-and : (p : Param) → IsParam p → Lacks b'&' (param_text p)
param_text-and p h =
    Lacks-append b'&' (key_of p) (codes "=" ++ value_of p) h.key_and (equals≢and, h.value_and)
  where
    equals≢and : ◌≢◌ {A = ℕ} b'=' b'&'
    equals≢and e = ground arith

param_texts-and : (ps : List Param) → All IsParam ps → All (Lacks b'&') (param_texts ps)
param_texts-and [] h = tt
param_texts-and (p ∷ ps) (h, hs) = (param_text-and p h, param_texts-and ps hs)

param_text-mark : (p : Param) → IsParam p → Lacks b'?' (param_text p)
param_text-mark p h =
    Lacks-append b'?' (key_of p) (codes "=" ++ value_of p) h.key_mark (equals≢mark, h.value_mark)
  where
    equals≢mark : ◌≢◌ {A = ℕ} b'=' b'?'
    equals≢mark e = ground arith

abbrev pub query_text : List Param → Param → Bytes
query_text ps last = spell (codes "&") (param_texts ps) (param_text last)

query_text-mark :
    (ps : List Param) (last : Param)
    → All IsParam ps
    → IsParam last
    → Lacks b'?' (query_text ps last)
query_text-mark [] last h hl = param_text-mark last hl
query_text-mark (p ∷ ps) last (h, hs) hl =
    Lacks-append b'?' (param_text p) (codes "&" ++ query_text ps last) (param_text-mark p h)
      (and≢mark, query_text-mark ps last hs hl)
  where
    and≢mark : ◌≢◌ {A = ℕ} b'&' b'?'
    and≢mark e = ground arith

query_text-ne : (ps : List Param) (last : Param) → query_text ps last ≢ []
query_text-ne [] last h = ground arith
query_text-ne (p ∷ ps) last h = ground arith

length-param_texts : (ps : List Param) → length (param_texts ps) ≡ length ps
length-param_texts [] = refl
length-param_texts (p ∷ ps) = ap suc (length-param_texts ps)

length-flat :
    (ps : List Param) (rest : List Bytes) → length (flat ps ++ rest) ≡ 2 * length ps + length rest
length-flat [] rest = omega arith
length-flat (p ∷ ps) rest = omega (arith, length-flat ps rest)

-- The arrays of `parseQueryStr` for `n` parameters: the two of `strsplit`, and the one of the result,
-- each with the NULL that is written behind what was asked for.
abbrev pub query_fits : (ℕ → ℕ) → ℕ → Bool
query_fits room n =
    leb 24 (room 16)
    && (leb (8 * (n + 1)) (room (8 * n)) && leb (8 * (2 * n + 2)) (room (8 * (n * 2 + 1))))

trailing-ne : (last : Bytes) → last ≢ [] → trailing last ≡ some last ∷ none ∷ []
unfolding trailing
trailing-ne [] ne = absurd (ne refl)
trailing-ne (c ∷ s) ne = refl

cells_fit-ne :
    (room : ℕ → ℕ) (ts : List Bytes) (last : Bytes)
    → last ≢ []
    → cells_fit room ts last ≡ leb (8 * (length ts + 2)) (room (8 * (length ts + 1)))
unfolding is_empty
cells_fit-ne room ts [] ne = absurd (ne refl)
cells_fit-ne room ts (c ∷ s) ne = refl

module _ (room : ℕ → ℕ) (given : (n : ℕ) → n ≤ room n) where
  parse_query_str-steps :
      (str path params : Bytes) (tokens sub_tokens : Tokens) (rest : List Bytes)
      → strsplit room str (codes "?") ≡ ok tokens
      → string_at tokens.cells 1 ≡ ok params
      → strsplit room params (codes "&") ≡ ok sub_tokens
      → string_at tokens.cells 0 ≡ ok path
      → sub_tokens.len < 2 ^ 31
      → query_tokens sub_tokens.len sub_tokens.cells ≡ ok rest
      → length rest + 1 < 2 ^ 31
      → parse_query_str room str ≡ (
          if leb (8 * (length rest + 2)) (room (8 * (sub_tokens.len * 2 + 1)))
          then ok (path ∷ rest)
          else fault out_of_bounds)
  unfolding parse_query_str
  parse_query_str-steps str path params tokens sub_tokens rest a b c d small e short =
      rw (a, b, c, d, counts-few _ small, e, counts-few _ short)
        (last (leb (8 * (length rest + 2)) (room (8 * (sub_tokens.len * 2 + 1)))))
    where
      last :
          (w : Bool)
          → (guard w out_of_bounds >> ok (path ∷ rest))
            ≡ (if w then ok (path ∷ rest) else fault out_of_bounds)
      last true = refl
      last false = refl

  module _ (path : Bytes) (ps : List Param) (last : Param) (hp : Lacks b'?' path)
      (h : All IsParam ps) (hl : IsParam last) where
    abbrev target : Bytes
    target = spell (codes "?") (path ∷ []) (query_text ps last)

    split_target :
        leb 24 (room 16) ≡ true
        → strsplit room target (codes "?")
          ≡ ok (record { cells = some path ∷ some (query_text ps last) ∷ none ∷ []; len = 2 })
    split_target e =
        split-fits room given b'?' [] (path ∷ []) (query_text ps last) (hp, tt)
          (query_text-mark ps last h hl)
          (cells_fit-ne room (path ∷ []) (query_text ps last) (query_text-ne ps last) ∙ e)
        ∙ ap (λ cells. ok (record { cells = some path ∷ cells; len = 2 }))
            (trailing-ne (query_text ps last) (query_text-ne ps last))

    split_target-overflows :
        leb 24 (room 16) ≡ false → strsplit room target (codes "?") ≡ fault out_of_bounds
    split_target-overflows e =
        split-overflows room given b'?' [] (path ∷ []) (query_text ps last) (hp, tt)
          (query_text-mark ps last h hl)
          (cells_fit-ne room (path ∷ []) (query_text ps last) (query_text-ne ps last) ∙ e)

    params_fit :
        cells_fit room (param_texts ps) (param_text last)
        ≡ leb (8 * (length ps + 1 + 1)) (room (8 * (length ps + 1)))
    params_fit =
        cells_fit-ne room (param_texts ps) (param_text last) (λ e. ground arith)
        ∙ ap (λ n. leb (8 * (n + 2)) (room (8 * (n + 1)))) (length-param_texts ps)
        ∙ ap (λ n. leb (8 * n) (room (8 * (length ps + 1)))) {x = length ps + 2}
            {y = length ps + 1 + 1} (omega arith)

    split_params :
        leb (8 * (length ps + 1 + 1)) (room (8 * (length ps + 1))) ≡ true
        → strsplit room (query_text ps last) (codes "&")
          ≡ ok (record {
            cells = map some (param_texts ps) ++ some (param_text last) ∷ none ∷ [];
            len = length ps + 1;
          })
    split_params e =
        split-fits room given b'&' [] (param_texts ps) (param_text last) (param_texts-and ps h)
          (param_text-and last hl) (params_fit ∙ e)
        ∙ ap₂ (λ cells n. ok (record { cells = map some (param_texts ps) ++ cells; len = n + 1 }))
            (trailing-ne (param_text last) (λ e. ground arith)) (length-param_texts ps)

    split_params-overflows :
        leb (8 * (length ps + 1 + 1)) (room (8 * (length ps + 1))) ≡ false
        → strsplit room (query_text ps last) (codes "&") ≡ fault out_of_bounds
    split_params-overflows e =
        split-overflows room given b'&' [] (param_texts ps) (param_text last) (param_texts-and ps h)
          (param_text-and last hl) (params_fit ∙ e)

    params_overflow :
        leb 24 (room 16) ≡ true
        → leb (8 * (length ps + 1 + 1)) (room (8 * (length ps + 1))) ≡ false
        → parse_query_str room target ≡ fault out_of_bounds
    unfolding parse_query_str string_at
    params_overflow e f = rw (split_target e, split_params-overflows f) refl

    -- Both arrays of `strsplit` take their NULLs.
    params_split :
        leb 24 (room 16) ≡ true
        → leb (8 * (length ps + 1 + 1)) (room (8 * (length ps + 1))) ≡ true
        → 2 * length ps + 3 < 2 ^ 31
        → parse_query_str room target ≡ (
            if leb (8 * (2 * (length ps + 1) + 2)) (room (8 * ((length ps + 1) * 2 + 1)))
            then ok (path ∷ (flat ps ++ key_of last ∷ value_of last ∷ []))
            else fault out_of_bounds)
    params_split e f few =
        let rest = flat ps ++ key_of last ∷ value_of last ∷ [] in
        let total = length-flat ps (key_of last ∷ value_of last ∷ []) in
        parse_query_str-steps target path (query_text ps last) _ _ rest (split_target e)
          (unfold string_at in refl) (split_params f) (unfold string_at in refl) (omega arith)
          (query_tokens-texts ps last (none ∷ []) h hl) (omega (arith, total))
        ∙ ap
            (λ n.
              if leb (8 * (n + 2)) (room (8 * ((length ps + 1) * 2 + 1)))
              then ok (path ∷ rest)
              else fault out_of_bounds)
            {x = length rest} {y = 2 * (length ps + 1)} (omega (arith, total))

  -- `parseQueryStr` on a path and parameters that each have a key and a value, without the separators
  -- inside: where the arrays take the NULLs behind them it returns the path and then the keys and the
  -- values in turn, and where one does not it writes out of bounds.
  pub parse_query_str_lem :
      (path : Bytes) (ps : List Param) (last : Param)
      → Lacks b'?' path
      → All IsParam ps
      → IsParam last
      → 2 * length ps + 3 < 2 ^ 31
      → parse_query_str room (spell (codes "?") (path ∷ []) (query_text ps last)) ≡ (
          if query_fits room (length ps + 1)
          then ok (path ∷ (flat ps ++ key_of last ∷ value_of last ∷ []))
          else fault out_of_bounds)
  parse_query_str_lem path ps last hp h hl few = elim (Bool-cases (leb 24 (room 16))) [
    | inr e ↦
        rw e (unfold parse_query_str in (rw (split_target-overflows path ps last hp h hl e) refl))
    | inl e ↦ elim (Bool-cases (leb (8 * (length ps + 1 + 1)) (room (8 * (length ps + 1))))) [
      | inr f ↦ rw (e, f) (params_overflow path ps last hp h hl e f)
      | inl f ↦ rw (e, f) (params_split path ps last hp h hl e f few)
    ]
  ]
