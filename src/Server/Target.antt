-- ===== src/Server/Target.antt =====
-- What `parseRequest` makes of a target with a query string: the parameters become the bindings of
-- the query's dictionary.
use pwdmanlib.Base.{
  ℕ, ◌+◌, ◌*◌, ◌^◌, ◌≤◌, ◌<◌, ◌≡◌, refl, ap, ◌∙◌, Bool, leb, true, false, ◌&&◌, if◌then◌else◌, List,
  [], ◌∷◌, ◌++◌, length, All, Bytes, codes, strstr-after, ok, fault, out_of_bounds, Bool-cases, inl,
  inr, arith,
}
use pwdmanlib.Dict.Assoc.{Bindings}
use pwdmanlib.Dict.Refine.{of_bindings}
use pwdmanlib.Fawkes.Request.{request_info}
use pwdmanlib.StringOps.Split.{spell}
use pwdmanlib.StringOps.Pieces.{Lacks}
use pwdmanlib.Server.{copy_to_pointer_size, set_query, parse_target, parse_request}
use pwdmanlib.Server.Headers.{
  stored, bind_one, length-bind_one, bind_all, set_tuple-bind_one, le→leb,
}
use pwdmanlib.Server.Parts.{Parts, proto, IsLaidOut, request_text}
use pwdmanlib.Server.Parse.{request_fits, parse_request-target, parse_request-target_overflows}
use pwdmanlib.Server.Query.{
  Param, IsParam, key_of, value_of, flat, query_text, query_fits, parse_query_str_lem,
}

-- The parameters as pairs.
abbrev pub pairs : List Param → Param → List (Bytes × Bytes)
pairs [] last = (key_of last, value_of last) ∷ []
pairs (p ∷ ps) last = (key_of p, value_of p) ∷ pairs ps last

set_query-pairs :
    (ps : List Param) (last : Param) (m : Bindings Bytes)
    → length m ≤ 20
    → set_query (flat ps ++ key_of last ∷ value_of last ∷ []) (of_bindings 20 m)
      ≡ ok (of_bindings 20 (bind_all 20 m (pairs ps last)))
unfolding set_query bind_all
set_query-pairs [] last m few =
    set_tuple-bind_one 20 m (key_of last) (value_of last) (λ d. ok d) few (omega arith)
set_query-pairs (p ∷ ps) last m few =
    set_tuple-bind_one 20 m (key_of p) (value_of p)
      (set_query (flat ps ++ key_of last ∷ value_of last ∷ [])) few (omega arith)
    ∙ set_query-pairs ps last (bind_one 20 m (key_of p) (value_of p))
        (length-bind_one 20 m (key_of p) (value_of p) few)

length-flat-two :
    (ps : List Param) (last : Param) → 2 ≤ length (flat ps ++ key_of last ∷ value_of last ∷ [])
length-flat-two [] last = omega arith
length-flat-two (p ∷ ps) last = omega (arith, length-flat-two ps last)

module _ (room : ℕ → ℕ) (nulls : Bool) (given : (n : ℕ) → n ≤ room n) where
  parse_target-query :
      (path : Bytes) (ps : List Param) (last : Param)
      → Lacks b'?' path
      → All IsParam ps
      → IsParam last
      → length path + 1 ≤ room 8
      → 2 * length ps + 3 < 2 ^ 31
      → parse_target room (spell (codes "?") (path ∷ []) (query_text ps last)) (of_bindings 20 [])
        ≡ (if query_fits room (length ps + 1)
            then ok (path, of_bindings 20 (bind_all 20 [] (pairs ps last)))
            else fault out_of_bounds)
  unfolding parse_target copy_to_pointer_size
  parse_target-query path ps last h hps hlast fits few =
      let tokens = flat ps ++ key_of last ∷ value_of last ∷ [] in
      let enough : leb 3 (length (path ∷ tokens) + 1) ≡ true =
        le→leb 3 _ (omega (arith, length-flat-two ps last)) in
      let parsed = λ (b : Bool) (e : query_fits room (length ps + 1) ≡ b).
        parse_query_str_lem room given path ps last h hps hlast few
        ∙ ap (λ b. if b then ok (path ∷ tokens) else fault out_of_bounds) e in
      elim (Bool-cases (query_fits room (length ps + 1))) [
        | inr short ↦
            rw
              (
                short,
                strstr-after path b'?' [] (query_text ps last) h,
                parse_target,
                parsed false short,
              )
              refl
        | inl wide ↦
            rw
              (
                wide,
                strstr-after path b'?' [] (query_text ps last) h,
                parse_target,
                parsed true wide,
                enough,
                le→leb (length path + 1) (room 8) fits,
                set_query-pairs ps last [] (omega arith),
              )
              refl
      ]

  -- A request whose target has a path that fits its eight bytes and a query string of fewer than
  -- 2^30 - 1 parameters that have keys and values, without the separators inside, with a protocol that is
  -- not empty, fewer than 2^31 - 4 headers that have names and values, and a body that fits its eight
  -- bytes, with an allocator that gives what it is asked for: where the arrays of the calls of
  -- `strsplit` and that of `parseQueryStr` take the NULL behind what was asked for, `parseRequest` returns
  -- the path before the question mark, the dictionary of the query holds the parameters in their order,
  -- the later value of a key that comes again, and no more than twenty of them, and the headers, the
  -- body and the information byte are those of the parts; where one does not, it writes out of bounds.
  pub parse_request-query :
      (r : Parts) (path : Bytes) (ps : List Param) (last : Param)
      → IsLaidOut room r
      → r.target ≡ spell (codes "?") (path ∷ []) (query_text ps last)
      → Lacks b'?' path
      → All IsParam ps
      → IsParam last
      → length path + 1 ≤ room 8
      → 2 * length ps + 3 < 2 ^ 31
      → parse_request room nulls (request_text r) ≡ (
          if query_fits room (length ps + 1) && request_fits room r
          then ok (record {
            info = request_info r.method (proto r);
            path = path;
            headers = of_bindings 50 (bind_all 50 [] r.headers);
            body = stored r.body;
            query = of_bindings 20 (bind_all 20 [] (pairs ps last));
          })
          else fault out_of_bounds)
  parse_request-query r path ps last laid_out e h hps hlast fits few =
      let parsed =
        ap (λ t. parse_target room t (of_bindings 20 [])) e
        ∙ parse_target-query path ps last h hps hlast fits few in
      elim (Bool-cases (query_fits room (length ps + 1))) [
        | inr short ↦ rw short (
            parse_request-target_overflows room nulls given r laid_out (
              parsed
              ∙ ap
                  (λ b.
                    if b
                    then ok (path, of_bindings 20 (bind_all 20 [] (pairs ps last)))
                    else fault out_of_bounds)
                  short))
        | inl wide ↦ rw wide (
            parse_request-target room nulls given r path
              (of_bindings 20 (bind_all 20 [] (pairs ps last))) laid_out
              (parsed
                ∙ ap
                    (λ b.
                      if b
                      then ok (path, of_bindings 20 (bind_all 20 [] (pairs ps last)))
                      else fault out_of_bounds)
                    wide))
      ]
