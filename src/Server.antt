-- ===== src/Server.antt =====
-- src/server/server.h, the parsers of a request. `room` is as in StringOps. A cell or a member that
-- the code never writes is `none`, or `unset`.
mod Tests
pub mod Headers
pub mod Parts
pub mod Parse
pub mod Query
pub mod Target
pub mod Malformed
pub mod Termination
pub mod Process
pub mod Route
pub mod Strtol
pub mod Respond
pub mod Startup
use pwdmanlib.Base.{
  ℕ, zero, suc, ◌+◌, ◌-◌, ◌*◌, ◌%◌, ◌^◌, Bool, true, false, ltb, leb, if◌then◌else◌, Option, none,
  some, List, [], ◌∷◌, ◌++◌, length, take, drop, get_elem?, Bytes, codes, strstr, Result, ok, fault,
  null_pointer, out_of_bounds, uninitialised, overflow, spin, ◌>>=◌, ◌>>◌, demand, guard,
}
use pwdmanlib.StringOps.{Tokens, strsplit, is_empty}
use pwdmanlib.Dict.{Dict, Status, init_dict, set_tuple}
use pwdmanlib.Fawkes.Request.{request_info}

-- The two cells that `parseHeader` allocates.
pub record Header : Type 0 where
  pub name : Bytes
  pub value : Option Bytes

-- The body: allocated and never written, NULL, or a string.
pub data Body : Type 0 where
  unset null : Body
  text : Bytes → Body

pub record Request : Type 0 where
  pub info : ℕ
  pub path : Bytes
  pub headers : Dict Bytes
  pub body : Body
  pub query : Dict Bytes

-- The tokens of one parameter: a token is stored for what is behind the sign only if it is not empty.
pub if_some_text : Bytes → List Bytes
if_some_text [] = []
if_some_text (c ∷ s) = (c ∷ s) ∷ []

pub pieces : Bytes → List Bytes
unfolding if_some_text
pieces sub_str = elim (strstr sub_str (codes "=")) [
  | none ↦ if_some_text sub_str
  | some n ↦ take n sub_str ∷ if_some_text (drop (n + 1) sub_str)
]

-- The loop of `parseQueryStr` over the parameters.
pub query_tokens : ℕ → List (Option Bytes) → Result (List Bytes)
query_tokens zero cells = ok []
query_tokens (suc count) [] = fault out_of_bounds
query_tokens (suc count) (none ∷ cells) = fault null_pointer
query_tokens (suc count) (some sub_str ∷ cells) =
    query_tokens count cells >>= λ tokens. ok (pieces sub_str ++ tokens)

-- `cells[i]`, a pointer that is then followed.
pub string_at : List (Option Bytes) → ℕ → Result Bytes
string_at cells i = demand out_of_bounds (get_elem? cells i) >>= λ cell. demand null_pointer cell

-- The loop that sets the query: keys and values take turns, and the last value may be NULL.
set_query : List Bytes → Dict Bytes → Result (Dict Bytes)
set_query [] d = ok d
set_query (key ∷ []) d = set_tuple d (some key) none >>= λ r. ok r.1
set_query (key ∷ val ∷ tokens) d = set_tuple d (some key) (some val) >>= λ r. set_query tokens r.1

-- `strcpy` into an allocation of `sizeof(char *)` bytes.
pub copy_to_pointer_size : (ℕ → ℕ) → Bytes → Result Bytes
copy_to_pointer_size room s = guard (leb (length s + 1) (room 8)) out_of_bounds >> ok s

-- `*num_tokens - 2`, less the 1 that `i` starts at, as a number of rounds.
abbrev pub header_rounds : ℕ → ℕ
header_rounds num_tokens = (num_tokens + 2 ^ 64 - 2) % 2 ^ 64 - 1

-- The index of a loop is an `int`, which is raised once for each of `count` cells.
pub counts : ℕ → Result (Unit {0})
counts count = guard (ltb count (2 ^ 31)) overflow

module _ (room : ℕ → ℕ) where
  pub parse_header : Bytes → Result Header
  parse_header str = elim (strstr str (codes ": ")) [
    | none ↦ ok (record { name = str; value = none })
    | some n ↦
        guard (ltb n (room (length str))) out_of_bounds
        >> ok (record { name = take n str; value = some (drop (n + 2) str) })
  ]

  -- The tokens before the NULL; their number is what is stored in `num_qtokens`.
  pub parse_query_str : Bytes → Result (List Bytes)
  unfolding counts
  parse_query_str str = do
    tokens ← strsplit room str (codes "?")
    params ← string_at tokens.cells 1
    sub_tokens ← strsplit room params (codes "&")
    path ← string_at tokens.cells 0
    counts sub_tokens.len
    rest ← query_tokens sub_tokens.len sub_tokens.cells
    counts (length rest + 1)
    guard (leb (8 * (length rest + 2)) (room (8 * (sub_tokens.len * 2 + 1)))) out_of_bounds
    ok (path ∷ rest)

  -- The path and the query.
  pub parse_target : Bytes → Dict Bytes → Result (Bytes × Dict Bytes)
  parse_target target query = elim (strstr target (codes "?")) [
    | none ↦ copy_to_pointer_size room target >>= λ path. ok (path, query)
    | some n ↦ parse_query_str target >>= λ tokens.
        guard (leb 3 (length tokens + 1)) uninitialised
        >> (demand out_of_bounds (get_elem? tokens 0) >>= λ first.
            copy_to_pointer_size room first >>= λ path.
            set_query (drop 1 tokens) query >>= λ q. ok (path, q))
  ]

  -- The loop that looks for the empty line: `left` rounds over the cells.
  pub find_body : ℕ → List (Option Bytes) → Result Body
  find_body zero cells = ok unset
  find_body (suc left) [] = fault out_of_bounds
  find_body (suc left) (none ∷ cells) = find_body left cells
  find_body (suc left) (some (c ∷ s) ∷ cells) = find_body left cells
  find_body (suc left) (some [] ∷ []) = fault out_of_bounds
  find_body (suc left) (some [] ∷ none ∷ cells) = ok null
  find_body (suc left) (some [] ∷ some str ∷ cells) =
      copy_to_pointer_size room str >>= λ s. ok (text s)

-- The test of `header[1]`. A cell that was never written may read as NULL, and then `i--; continue`
-- parses the same header again, for ever.
header_value : Bool → Option Bytes → Result Bytes
header_value nulls (some value) = ok value
header_value true none = spin
header_value false none = fault uninitialised

-- `nulls` is whether memory that was allocated and not written reads as NULL.
module _ (room : ℕ → ℕ) (nulls : Bool) where
  -- The loop that sets the headers: `left` rounds over the cells.
  pub set_headers : ℕ → List (Option Bytes) → Dict Bytes → Result (Dict Bytes)
  set_headers zero cells d = ok d
  set_headers (suc left) [] d = fault out_of_bounds
  set_headers (suc left) (none ∷ cells) d = fault null_pointer
  set_headers (suc left) (some str ∷ cells) d = do
    header ← parse_header room str
    value ← header_value nulls header.value
    r ← set_tuple d (some header.name) (some value)
    set_headers left cells r.1

  pub parse_request : Bytes → Result Request
  unfolding counts
  parse_request req = do
    tokens ← strsplit room req (codes "\r\n")
    counts tokens.len
    line ← string_at tokens.cells 0
    sub_tokens ← strsplit room line (codes " ")
    counts sub_tokens.len
    no_headers ← init_dict true true 50
    no_query ← init_dict true true 20
    target ← string_at sub_tokens.cells 1
    t ← parse_target room target no_query
    headers ← set_headers (header_rounds tokens.len) (drop 1 tokens.cells) no_headers
    body ← find_body room tokens.len tokens.cells
    proto ← string_at sub_tokens.cells 2
    method ← string_at sub_tokens.cells 0
    ok (record {
      info = request_info method proto;
      path = t.0;
      headers = headers;
      body = body;
      query = t.1;
    })
