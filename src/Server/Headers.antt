-- ===== src/Server/Headers.antt =====
-- What the loops of `parseRequest` make of headers and a body that are put together from their parts.
use pwdmanlib.Base.{
  ℕ, suc, ◌+◌, ◌*◌, ◌≤◌, ◌<◌, ◌^◌, ◌≡◌, ◌≢◌, refl, ap, ◌∙◌, Bool, true, false, ltb, leb, lt→ltb,
  if◌then◌else◌, Option, none, some, List, [], ◌∷◌, ◌++◌, map, length, length-append, All, Bytes,
  codes, strstr-after, Result, ok, fault, out_of_bounds, ◌>>=◌, arith,
}
use pwdmanlib.Dict.{Dict, Status, success, failure, set_tuple}
use pwdmanlib.Dict.Assoc.{Bindings, has, insert, length-insert}
use pwdmanlib.Dict.Refine.{of_bindings, set_tuple_refines}
use pwdmanlib.StringOps.{strsplit, is_empty, trailing}
use pwdmanlib.StringOps.Split.{spell}
use pwdmanlib.StringOps.Pieces.{Lacks, strsplit-spell, take-prefix, drop-token}
use pwdmanlib.Server.{
  counts, Body, null, text, copy_to_pointer_size, parse_header, set_headers, find_body,
  header_value,
}

abbrev pub header_text : Bytes × Bytes → Bytes
header_text (name, value) = name ++ (codes ": " ++ value)

abbrev pub header_texts : List (Bytes × Bytes) → List Bytes
header_texts [] = []
header_texts (h ∷ hs) = header_text h ∷ header_texts hs

-- A header whose name has no colon, and neither part a carriage return.
abbrev pub IsHeader : Bytes × Bytes → Type 0
IsHeader (name, value) = Lacks b':' name × Lacks 13 name × Lacks 13 value

-- The pairs that a dictionary of `size` slots keeps: a name that comes again gets the later value,
-- and a new name is dropped once the slots are full.
pub bind_one : ℕ → Bindings Bytes → Bytes → Bytes → Bindings Bytes
bind_one size m name value =
    if has name m
    then insert name (some value) m
    else if ltb (length m) size
    then insert name (some value) m
    else m

unfoldable pub bind_all : ℕ → Bindings Bytes → List (Bytes × Bytes) → Bindings Bytes
bind_all size m [] = m
bind_all size m ((name, value) ∷ hs) = bind_all size (bind_one size m name value) hs

pub length-bind_one :
    (size : ℕ) (m : Bindings Bytes) (name value : Bytes)
    → length m ≤ size
    → length (bind_one size m name value) ≤ size
unfolding bind_one
length-bind_one size m name value h = ground (arith, length-insert name (some value) m)

abbrev kept : ℕ → Bool → Bool → Bindings Bytes → Bindings Bytes → Result (Status × Dict Bytes)
kept size a b i m =
    if a
    then ok (success, of_bindings size i)
    else if b
    then ok (success, of_bindings size i)
    else ok (failure, of_bindings size m)

kept-bind :
    {R : Type 0} (size : ℕ) (a b : Bool) (i m : Bindings Bytes) (f : Dict Bytes → Result R)
    → (kept size a b i m >>= λ r. f r.1)
      ≡ f (of_bindings size (if a then i else if b then i else m))
kept-bind size true b i m f = refl
kept-bind size false true i m f = refl
kept-bind size false false i m f = refl

pub set_tuple-bind_one :
    {R : Type 0} (size : ℕ) (m : Bindings Bytes) (name value : Bytes) (f : Dict Bytes → Result R)
    → length m ≤ size
    → size < 2 ^ 31
    → (set_tuple (of_bindings size m) (some name) (some value) >>= λ r. f r.1)
      ≡ f (of_bindings size (bind_one size m name value))
unfolding bind_one
set_tuple-bind_one size m name value f few h =
    ap (λ q. q >>= λ r. f r.1) (set_tuple_refines size name (some value) m (omega arith))
    ∙ kept-bind size (has name m) (ltb (length m) size) (insert name (some value) m) m f

-- What is kept of a body: an empty one leaves a NULL.
abbrev pub stored : Bytes → Body
stored [] = null
stored (c ∷ s) = text (c ∷ s)

pub counts-few : (n : ℕ) → n < 2 ^ 31 → counts n ≡ ok tt
counts-few n h = unfold counts in rw (lt→ltb n (2 ^ 31) h) refl

pub le→leb : (a b : ℕ) → a ≤ b → leb a b ≡ true
le→leb a b h = ground arith

-- Whether the cells of a text and their NULL fit the allocation of `strsplit`: a cell for each piece is
-- asked for, and the NULL comes behind them unless the last piece is empty.
abbrev pub cells_fit : (ℕ → ℕ) → List Bytes → Bytes → Bool
cells_fit room ts last =
    leb (8 * (length ts + (if is_empty last then 1 else 2))) (room (8 * (length ts + 1)))

module _ (room : ℕ → ℕ) (given : (n : ℕ) → n ≤ room n) where
  pub parse_header-text :
      (name value : Bytes)
      → Lacks b':' name
      → parse_header room (name ++ (codes ": " ++ value))
        ≡ ok (record { name = name; value = some value })
  unfolding parse_header
  parse_header-text name value h =
      let str = name ++ (codes ": " ++ value) in
      let e = strstr-after name b':' (b' ' ∷ []) value h in
      let saved : ltb (length name) (room (length str)) ≡ true =
        lt→ltb (length name) (room (length str))
          (omega (arith, given (length str), length-append name (codes ": " ++ value))) in
      rw (
        e,
        parse_header,
        saved,
        take-prefix name (codes ": " ++ value),
        drop-token name (codes ": ") value,
      )

  pub set_headers-texts :
      (nulls : Bool) (hs : List (Bytes × Bytes)) (cells : List (Option Bytes)) (m : Bindings Bytes)
      → All IsHeader hs
      → length m ≤ 50
      → set_headers room nulls (length hs) (map some (header_texts hs) ++ cells) (of_bindings 50 m)
        ≡ ok (of_bindings 50 (bind_all 50 m hs))
  unfolding set_headers header_value bind_all
  set_headers-texts nulls [] cells m h few = refl
  set_headers-texts nulls ((name, value) ∷ hs) cells m ((colon, cr, cr'), h) few =
      rw (parse_header-text name value colon) (
        set_tuple-bind_one 50 m name value
          (set_headers room nulls (length hs) (map some (header_texts hs) ++ cells)) few
          (omega arith)
        ∙ set_headers-texts nulls hs cells (bind_one 50 m name value) h
            (length-bind_one 50 m name value few))

  -- The loop that looks for the body passes over what is not empty.
  pub find_body-skips :
      (n : ℕ) (s : Bytes) (cells : List (Option Bytes))
      → s ≢ []
      → find_body room (suc n) (some s ∷ cells) ≡ find_body room n cells
  unfolding find_body
  find_body-skips n [] cells ne = absurd (ne refl)
  find_body-skips n (c ∷ s) cells ne = refl

  concat-ne : (c : ℕ) (s t : Bytes) → s ++ (c ∷ t) ≢ []
  concat-ne c [] t h = ground arith
  concat-ne c (d ∷ s) t h = ground arith

  -- The empty line behind the headers is found, and with it the body.
  pub find_body-texts :
      (n : ℕ) (hs : List (Bytes × Bytes)) (body : Bytes)
      → length body + 1 ≤ room 8
      → find_body room (length hs + suc n) (map some (header_texts hs) ++ some [] ∷ trailing body)
        ≡ ok (stored body)
  unfolding find_body copy_to_pointer_size trailing
  find_body-texts n [] [] fits =
      ap (λ k. find_body room k (some [] ∷ none ∷ [])) {x = 0 + suc n} {y = suc n} (omega arith)
  find_body-texts n [] (c ∷ s) fits =
      ap (λ k. find_body room k (some [] ∷ some (c ∷ s) ∷ none ∷ [])) {x = 0 + suc n} {y = suc n}
        (omega arith)
      ∙ rw (le→leb (length (c ∷ s) + 1) (room 8) fits) refl
  find_body-texts n ((name, value) ∷ hs) body fits =
      let rest = map some (header_texts hs) ++ some [] ∷ trailing body in
      ap (λ k. find_body room k (some (header_text (name, value)) ∷ rest))
        {x = suc (length hs) + suc n} {y = suc (length hs + suc n)} (omega arith)
      ∙ find_body-skips (length hs + suc n) (header_text (name, value)) rest
          (concat-ne b':' name (codes " " ++ value))
      ∙ find_body-texts n hs body fits

  -- A text whose cells fit.
  pub split-fits :
      (b : ℕ) (d : Bytes) (ts : List Bytes) (last : Bytes)
      → All (Lacks b) ts
      → Lacks b last
      → cells_fit room ts last ≡ true
      → strsplit room (spell (b ∷ d) ts last) (b ∷ d)
        ≡ ok (record { cells = map some ts ++ trailing last; len = length ts + 1 })
  split-fits b d ts last h hl e =
      strsplit-spell room given b d ts last h hl
      ∙ ap
          (λ t.
            if t
            then ok (record { cells = map some ts ++ trailing last; len = length ts + 1 })
            else fault out_of_bounds)
          e

  -- A text whose NULL is written behind its cells.
  pub split-overflows :
      (b : ℕ) (d : Bytes) (ts : List Bytes) (last : Bytes)
      → All (Lacks b) ts
      → Lacks b last
      → cells_fit room ts last ≡ false
      → strsplit room (spell (b ∷ d) ts last) (b ∷ d) ≡ fault out_of_bounds
  split-overflows b d ts last h hl e =
      strsplit-spell room given b d ts last h hl
      ∙ ap
          (λ t.
            if t
            then ok (record { cells = map some ts ++ trailing last; len = length ts + 1 })
            else fault out_of_bounds)
          e
