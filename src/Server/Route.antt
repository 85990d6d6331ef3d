-- ===== src/Server/Route.antt =====
-- src/server/server.h: `routeClient` and `respond`.
pub mod StatusLines
pub mod Termination
use pwdmanlib.Base.{
  ℕ, zero, suc, ◌+◌, Bool, true, false, leb, if◌then◌else◌, Option, none, some, List, [], ◌∷◌, ◌++◌,
  length, Bytes, codes, strcmp, Result, ok, fault, spin, stop, null_pointer, out_of_bounds, All,
  All-append, ◌⊎◌, inl, inr, ◌≡◌, refl, Bool-cases, ◌<◌, le→leb, arith,
}
use pwdmanlib.StringOps.{File, read_file, is_empty}
use pwdmanlib.Server.Strtol.{is_minus_one}
use pwdmanlib.Fawkes.{Code, invalid, valid, decode_reqmts, decode_proto, decode_method}

-- The status lines, with the bytes that the code's lengths take of them: that of the 400 counts the
-- terminator.
abbrev bad_request_line : Bytes
bad_request_line = codes "HTTP/1.1 400 Bad Request\r\n" ++ 0 ∷ []

abbrev not_found_line : Bytes
not_found_line = codes "HTTP/1.1 404 Not Found\r\n"

abbrev server_error_line : Bytes
server_error_line = codes "HTTP/1.1 500 Server Error\r\n"

abbrev ok_line : Bytes
ok_line = codes "HTTP/1.1 200 OK\r\n"

-- What was written to the socket, one entry for each call, and how the function ends.
pub record Routed : Type 0 where
  pub wire : List Bytes
  pub end : Result (Unit {0})

abbrev pub path_max : ℕ
path_max = 4096

-- The three checks, each of which answers and goes on.
rejections : ℕ → List Bytes
rejections info =
    elim (decode_reqmts info) [ invalid ↦ bad_request_line ∷ [] | valid n ↦ [] ]
    ++ elim (decode_proto info) [ invalid ↦ bad_request_line ∷ [] | valid n ↦ [] ]
    ++ elim (decode_method info) [ invalid ↦ bad_request_line ∷ [] | valid n ↦ [] ]

-- What follows once the file is read. `sendall` is called with the descriptor in the place of the
-- connection: its first write follows that pointer, and an empty file leaves without a write.
-- The flags: the text reads as -1, and it is empty.
answer_file : Bool → Bool → List Bytes → Routed
answer_file true empty wire = record { wire = wire ++ not_found_line ∷ []; end = ok tt }
answer_file false true wire = record {
  wire = wire ++ ok_line ∷ server_error_line ∷ [];
  end = ok tt;
}
answer_file false false wire = record { wire = wire ++ ok_line ∷ []; end = fault out_of_bounds }

serve_file : Bytes → List Bytes → Routed
unfolding is_minus_one answer_file
serve_file resp_data wire = answer_file (is_minus_one resp_data) (is_empty resp_data) wire

-- What `readFile` returned, or how it ended.
serve_result : Result (Option Bytes) → List Bytes → Routed
unfolding serve_file
serve_result (ok none) wire = record { wire = wire; end = fault null_pointer }
serve_result (ok (some resp_data)) wire = serve_file resp_data wire
serve_result (fault e) wire = record { wire = wire; end = fault e }
serve_result (stop n) wire = record { wire = wire; end = stop n }
serve_result spin wire = record { wire = wire; end = spin }

module _ (room : ℕ → ℕ) (files : Bytes → File) (root_dir : Bytes) where
  unfoldable pub resource_path : Bytes → Bytes
  resource_path path = root_dir ++ (if strcmp path (codes "/") then codes "/index.html" else path)

  serve_path : Bytes → List Bytes → Routed
  unfolding serve_result
  serve_path path wire =
      if leb (length path + 1) path_max
      then serve_result (read_file room (files path)) wire
      else record { wire = wire; end = fault out_of_bounds }

  -- The `switch`: the cases from 3 on, and the -1, are those of the default, and that of 2 has no
  -- `break`.
  dispatch : Code → Bytes → List Bytes → Routed
  unfolding serve_path resource_path
  dispatch (valid (suc zero)) path wire = serve_path (resource_path path) wire
  dispatch (valid (suc (suc zero))) path wire = record {
    wire = wire ++ ok_line ∷ server_error_line ∷ [];
    end = ok tt;
  }
  dispatch method path wire = record { wire = wire ++ server_error_line ∷ []; end = ok tt }

  pub route_client : ℕ → Bytes → Routed
  unfolding dispatch rejections
  route_client info path = dispatch (decode_method info) path (rejections info)

-- What the methods behind GET are answered, HEAD being the first of them.
abbrev unserved : ℕ → Routed
unserved zero = record { wire = ok_line ∷ server_error_line ∷ []; end = ok tt }
unserved (suc k) = record { wire = server_error_line ∷ []; end = ok tt }

unserved_ends : (k : ℕ) → (unserved k).end ≡ ok tt
unserved_ends zero = refl
unserved_ends (suc k) = refl

-- A request that passes the checks is answered by its method.
route_client-unserved :
    (room : ℕ → ℕ) (files : Bytes → File) (root_dir : Bytes) (info p k : ℕ) (path : Bytes)
    → decode_reqmts info ≡ valid 1
    → decode_proto info ≡ valid p
    → decode_method info ≡ valid (suc (suc k))
    → route_client room files root_dir info path ≡ unserved k
unfolding route_client dispatch rejections
route_client-unserved room files root_dir info p zero path checked proto method =
    rw (checked, proto, method) refl
route_client-unserved room files root_dir info p (suc k) path checked proto method =
    rw (checked, proto, method) refl

-- The answer to a GET with the text that was read.
abbrev pub missing : Routed
missing = record { wire = not_found_line ∷ []; end = ok tt }

abbrev hollow : Routed
hollow = record { wire = ok_line ∷ server_error_line ∷ []; end = ok tt }

abbrev pub crashed : Routed
crashed = record { wire = ok_line ∷ []; end = fault out_of_bounds }

abbrev pub got_text : Bytes → Routed
got_text text = if is_minus_one text then missing else if is_empty text then hollow else crashed

answer_file-got_text :
    (minus empty : Bool)
    → answer_file minus empty [] ≡ (if minus then missing else if empty then hollow else crashed)
unfolding answer_file
answer_file-got_text true empty = refl
answer_file-got_text false true = refl
answer_file-got_text false false = refl

pub route_client-get :
    (room : ℕ → ℕ) (files : Bytes → File) (root_dir : Bytes) (info p : ℕ) (path text : Bytes)
    → decode_reqmts info ≡ valid 1
    → decode_proto info ≡ valid p
    → decode_method info ≡ valid 1
    → length (resource_path room files root_dir path) < path_max
    → read_file room (files (resource_path room files root_dir path)) ≡ ok (some text)
    → route_client room files root_dir info path ≡ got_text text
unfolding route_client dispatch rejections serve_path serve_result serve_file
route_client-get room files root_dir info p path text checked proto method fits read =
    rw
      (
        checked,
        proto,
        method,
        le→leb (length (resource_path room files root_dir path) + 1) path_max (omega arith),
        read,
      )
      (answer_file-got_text (is_minus_one text) (is_empty text))
