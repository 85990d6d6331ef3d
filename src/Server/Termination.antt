-- ===== src/Server/Termination.antt =====
-- src/server/server.h: the loops of the parsers, of `routeClient` and of `respond` end, whatever the
-- bytes of the request.
use pwdmanlib.Base.{
  ℕ, zero, suc, ◌+◌, ◌≡◌, refl, ltb, leb, Option, none, some, List, [], ◌∷◌, ◌++◌, length, ◌≤◌,
  drop, get_elem?, Bytes, codes, strstr, ok, null_pointer, out_of_bounds, uninitialised, overflow,
  false, ◌^◌, Result, ◌>>=◌, demand, Ends, ok-Ends, fault-Ends, bind-Ends, demand-Ends,
  guarded-Ends,
}
use pwdmanlib.Dict.{Dict, set_tuple}
use pwdmanlib.Dict.Termination.{set_tuple-Ends, init_dict-Ends}
use pwdmanlib.StringOps.Termination.{strsplit-Ends}
use pwdmanlib.Server.{
  unset, null, text, query_tokens, pieces, string_at, set_query, copy_to_pointer_size,
  header_rounds, parse_header, parse_query_str, parse_target, set_headers, find_body, parse_request,
  counts, header_value,
}

query_tokens-Ends : (count : ℕ) (cells : List (Option Bytes)) → Ends (query_tokens count cells)
unfolding query_tokens
query_tokens-Ends zero cells = ok-Ends []
query_tokens-Ends (suc count) [] = fault-Ends out_of_bounds
query_tokens-Ends (suc count) (none ∷ cells) = fault-Ends null_pointer
query_tokens-Ends (suc count) (some s ∷ cells) =
    bind-Ends (query_tokens count cells) (λ tokens. ok (pieces s ++ tokens))
      (query_tokens-Ends count cells) (λ tokens. ok-Ends (pieces s ++ tokens))

string_at-Ends : (cells : List (Option Bytes)) (i : ℕ) → Ends (string_at cells i)
unfolding string_at
string_at-Ends cells i =
    bind-Ends (demand out_of_bounds (get_elem? cells i)) (λ cell. demand null_pointer cell)
      (demand-Ends out_of_bounds (get_elem? cells i)) (λ cell. demand-Ends null_pointer cell)

set_query-Ends : (tokens : List Bytes) (d : Dict Bytes) → Ends (set_query tokens d)
unfolding set_query
set_query-Ends [] d = ok-Ends d
set_query-Ends (key ∷ []) d =
    bind-Ends (set_tuple d (some key) none) (λ r. ok r.1) (set_tuple-Ends d (some key) none)
      (λ r. ok-Ends r.1)
set_query-Ends (key ∷ val ∷ tokens) d =
    bind-Ends (set_tuple d (some key) (some val)) (λ r. set_query tokens r.1)
      (set_tuple-Ends d (some key) (some val)) (λ r. set_query-Ends tokens r.1)

copy_to_pointer_size-Ends : (room : ℕ → ℕ) (s : Bytes) → Ends (copy_to_pointer_size room s)
unfolding copy_to_pointer_size
copy_to_pointer_size-Ends room s =
    guarded-Ends (leb (length s + 1) (room 8)) out_of_bounds (ok s) (ok-Ends s)

counted-Ends : {A : Type 0} (n : ℕ) (m : Result A) → Ends m → Ends (counts n >>= λ _. m)
unfolding counts
counted-Ends n m h = guarded-Ends (ltb n (2 ^ 31)) overflow m h

module _ (room : ℕ → ℕ) (given : (n : ℕ) → n ≤ room n) where
  parse_header-Ends : (str : Bytes) → Ends (parse_header room str)
  unfolding parse_header
  parse_header-Ends str = by (strstr str (codes ": ")) refl
    where
      by : (found : Option ℕ) → strstr str (codes ": ") ≡ found → Ends (parse_header room str)
      by none e = rw (parse_header, e) (ok-Ends (record { name = str; value = none }))
      by (some n) e =
          rw (parse_header, e)
            (guarded-Ends (ltb n (room (length str))) out_of_bounds _ (ok-Ends _))

  parse_query_str-Ends : (str : Bytes) → Ends (parse_query_str room str)
  unfolding parse_query_str
  parse_query_str-Ends str =
      bind-Ends _ _ (strsplit-Ends room given str (codes "?") (λ h. cc)) (λ tokens.
        bind-Ends _ _ (string_at-Ends tokens.cells 1) (λ params.
          bind-Ends _ _ (strsplit-Ends room given params (codes "&") (λ h. cc)) (λ sub_tokens.
            bind-Ends _ _ (string_at-Ends tokens.cells 0) (λ path. counted-Ends sub_tokens.len _ (
              bind-Ends _ _ (query_tokens-Ends sub_tokens.len sub_tokens.cells) (λ rest.
                counted-Ends (length rest + 1) _
                  (guarded-Ends _ out_of_bounds _ (ok-Ends (path ∷ rest)))))))))

  parse_target-Ends : (target : Bytes) (query : Dict Bytes) → Ends (parse_target room target query)
  unfolding parse_target
  parse_target-Ends target query = by (strstr target (codes "?")) refl
    where
      by :
          (found : Option ℕ)
          → strstr target (codes "?") ≡ found
          → Ends (parse_target room target query)
      by none e =
          rw (parse_target, e)
            (bind-Ends _ _ (copy_to_pointer_size-Ends room target) (λ path. ok-Ends (path, query)))
      by (some n) e =
          rw (parse_target, e)
            (bind-Ends _ _ (parse_query_str-Ends target) (λ tokens.
              guarded-Ends (leb 3 (length tokens + 1)) uninitialised _ (
                bind-Ends _ _ (demand-Ends out_of_bounds (get_elem? tokens 0)) (λ first.
                  bind-Ends _ _ (copy_to_pointer_size-Ends room first) (λ path.
                    bind-Ends _ _ (set_query-Ends (drop 1 tokens) query)
                      (λ q. ok-Ends (path, q)))))))

  header_value-Ends : (value : Option Bytes) → Ends (header_value false value)
  unfolding header_value
  header_value-Ends none = fault-Ends uninitialised
  header_value-Ends (some value) = ok-Ends value

  set_headers-Ends :
      (left : ℕ) (cells : List (Option Bytes)) (d : Dict Bytes)
      → Ends (set_headers room false left cells d)
  unfolding set_headers
  set_headers-Ends zero cells d = ok-Ends d
  set_headers-Ends (suc left) [] d = fault-Ends out_of_bounds
  set_headers-Ends (suc left) (none ∷ cells) d = fault-Ends null_pointer
  set_headers-Ends (suc left) (some str ∷ cells) d =
      bind-Ends _ _ (parse_header-Ends str) (λ header.
        bind-Ends _ _ (header_value-Ends header.value) (λ value.
          bind-Ends _ _ (set_tuple-Ends d (some header.name) (some value))
            (λ r. set_headers-Ends left cells r.1)))

  find_body-Ends : (left : ℕ) (cells : List (Option Bytes)) → Ends (find_body room left cells)
  unfolding find_body
  find_body-Ends zero cells = ok-Ends unset
  find_body-Ends (suc left) [] = fault-Ends out_of_bounds
  find_body-Ends (suc left) (none ∷ cells) = find_body-Ends left cells
  find_body-Ends (suc left) (some (c ∷ s) ∷ cells) = find_body-Ends left cells
  find_body-Ends (suc left) (some [] ∷ []) = fault-Ends out_of_bounds
  find_body-Ends (suc left) (some [] ∷ none ∷ cells) = ok-Ends null
  find_body-Ends (suc left) (some [] ∷ some str ∷ cells) =
      bind-Ends _ _ (copy_to_pointer_size-Ends room str) (λ s. ok-Ends (text s))

  -- With an allocator that gives what it is asked for, and whose memory does not read as NULL before it
  -- is written, `parseRequest` ends on whatever bytes: it returns, or its behaviour is undefined, but
  -- no loop of it goes on for ever.
  pub parse_request-Ends : (req : Bytes) → Ends (parse_request room false req)
  unfolding parse_request
  parse_request-Ends req =
      bind-Ends _ _ (strsplit-Ends room given req (codes "\r\n") (λ h. cc)) (λ tokens.
        counted-Ends tokens.len _ (
          bind-Ends _ _ (string_at-Ends tokens.cells 0) (λ line.
            bind-Ends _ _ (strsplit-Ends room given line (codes " ") (λ h. cc)) (λ sub_tokens.
              counted-Ends sub_tokens.len _ (
                bind-Ends _ _ (init_dict-Ends 50) (λ no_headers.
                  bind-Ends _ _ (init_dict-Ends 20) (λ no_query.
                    bind-Ends _ _ (string_at-Ends sub_tokens.cells 1) (λ target.
                      bind-Ends _ _ (parse_target-Ends target no_query) (λ t.
                        bind-Ends _ _
                          (set_headers-Ends (header_rounds tokens.len) (drop 1 tokens.cells)
                            no_headers)
                          (λ headers.
                            bind-Ends _ _ (find_body-Ends tokens.len tokens.cells) (λ body.
                              bind-Ends _ _ (string_at-Ends sub_tokens.cells 2) (λ proto.
                                bind-Ends _ _ (string_at-Ends sub_tokens.cells 0)
                                  (λ method. ok-Ends _)))))))))))))
