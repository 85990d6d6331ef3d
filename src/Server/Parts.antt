-- ===== src/Server/Parts.antt =====
-- A request that is put together from its parts, and where its separators do not occur.
use pwdmanlib.Base.{
  ℕ, suc, ◌+◌, ◌^◌, ◌≤◌, ◌<◌, ◌≡◌, ◌≢◌, refl, ap, List, [], ◌∷◌, ◌++◌, length, All, All-append,
  Bytes, codes, arith,
}
use pwdmanlib.StringOps.Split.{spell}
use pwdmanlib.StringOps.Pieces.{Lacks}
use pwdmanlib.Server.Headers.{header_text, header_texts, IsHeader}

-- A request: its method, target and protocol, its headers, and its body.
pub record Parts : Type 0 where
  pub method : Bytes
  pub target : Bytes
  pub proto_first : ℕ
  pub proto_rest : Bytes
  pub headers : List (Bytes × Bytes)
  pub body : Bytes

abbrev pub proto : Parts → Bytes
proto r = r.proto_first ∷ r.proto_rest

abbrev pub line_of : Parts → Bytes
line_of r = spell (codes " ") (r.method ∷ r.target ∷ []) (proto r)

abbrev pub pieces_of : Parts → List Bytes
pieces_of r = line_of r ∷ (header_texts r.headers ++ [] ∷ [])

-- The text of the request, with an empty line before the body.
abbrev pub request_text : Parts → Bytes
request_text r = spell (codes "\r\n") (pieces_of r) r.body

-- The separators do not occur where they would split a part, and the body fits the memory that it is
-- copied into.
pub record IsLaidOut (room : ℕ → ℕ) (r : Parts) : Type 0 where
  pub method_space : Lacks b' ' r.method
  pub target_space : Lacks b' ' r.target
  pub proto_space : Lacks b' ' (proto r)
  pub method_return : Lacks 13 r.method
  pub target_return : Lacks 13 r.target
  pub proto_return : Lacks 13 (proto r)
  pub header_parts : All IsHeader r.headers
  pub body_return : Lacks 13 r.body
  pub body_fits : length r.body + 1 ≤ room 8
  pub few : length r.headers + 4 < 2 ^ 31

pub Lacks-append : (b : ℕ) (s t : Bytes) → Lacks b s → Lacks b t → Lacks b (s ++ t)
Lacks-append b s t h k = All-append (λ c. c ≢ b) s t h k

space≢return : ◌≢◌ {A = ℕ} b' ' 13
space≢return h = ground arith

colon≢return : ◌≢◌ {A = ℕ} b':' 13
colon≢return h = ground arith

pub header_text-Lacks :
    (name value : Bytes) → IsHeader (name, value) → Lacks 13 (header_text (name, value))
header_text-Lacks name value (colon, cr, cr') =
    Lacks-append 13 name (codes ": " ++ value) cr (colon≢return, (space≢return, cr'))

pub header_texts-Lacks :
    (hs : List (Bytes × Bytes)) → All IsHeader hs → All (Lacks 13) (header_texts hs ++ [] ∷ [])
header_texts-Lacks [] h = (tt, tt)
header_texts-Lacks ((name, value) ∷ hs) (h, hs') =
    (header_text-Lacks name value h, header_texts-Lacks hs hs')

pub line_of-Lacks : (room : ℕ → ℕ) (r : Parts) → IsLaidOut room r → Lacks 13 (line_of r)
line_of-Lacks room r h =
    Lacks-append 13 r.method _ h.method_return
      (space≢return, Lacks-append 13 r.target _ h.target_return (space≢return, h.proto_return))

pub length-header_texts : (hs : List (Bytes × Bytes)) → length (header_texts hs) ≡ length hs
length-header_texts [] = refl
length-header_texts (h ∷ hs) = ap suc (length-header_texts hs)
