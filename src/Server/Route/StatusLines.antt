-- ===== src/Server/Route/StatusLines.antt =====
-- What `routeClient` writes to the socket.
use pwdmanlib.Base.{
  ℕ, zero, suc, ◌+◌, Bool, true, false, leb, Option, none, some, List, [], ◌∷◌, length, Bytes,
  Result, ok, fault, spin, stop, All, All-append, ◌⊎◌, inl, inr, ◌≡◌, refl, Bool-cases,
}
use pwdmanlib.StringOps.{File, read_file, is_empty}
use pwdmanlib.Server.Strtol.{is_minus_one}
use pwdmanlib.Fawkes.{Code, invalid, valid, decode_reqmts, decode_proto, decode_method}
use pwdmanlib.Server.Route.{
  bad_request_line, not_found_line, server_error_line, ok_line, path_max, rejections, answer_file,
  serve_result, resource_path, serve_path, dispatch, route_client,
}

abbrev pub IsStatusLine : Bytes → Type 0
IsStatusLine line =
    (line ≡ bad_request_line)
    ⊎ (line ≡ not_found_line)
    ⊎ (line ≡ server_error_line)
    ⊎ (line ≡ ok_line)

bad_request_line-IsStatusLine : IsStatusLine bad_request_line
bad_request_line-IsStatusLine = inl refl

not_found_line-IsStatusLine : IsStatusLine not_found_line
not_found_line-IsStatusLine = inr (inl refl)

server_error_line-IsStatusLine : IsStatusLine server_error_line
server_error_line-IsStatusLine = inr (inr (inl refl))

ok_line-IsStatusLine : IsStatusLine ok_line
ok_line-IsStatusLine = inr (inr (inr refl))

rejection-IsStatusLine :
    (c : Code) → All IsStatusLine (elim c [ invalid ↦ bad_request_line ∷ [] | valid n ↦ [] ])
rejection-IsStatusLine invalid = (bad_request_line-IsStatusLine, tt)
rejection-IsStatusLine (valid n) = tt

rejections-IsStatusLine : (info : ℕ) → All IsStatusLine (rejections info)
rejections-IsStatusLine info =
    unfold rejections in
    All-append IsStatusLine _ _
      (All-append IsStatusLine _ _ (rejection-IsStatusLine (decode_reqmts info))
        (rejection-IsStatusLine (decode_proto info)))
      (rejection-IsStatusLine (decode_method info))

answer_file-IsStatusLine :
    (minus empty : Bool) (wire : List Bytes)
    → All IsStatusLine wire
    → All IsStatusLine (answer_file minus empty wire).wire
unfolding answer_file
answer_file-IsStatusLine true empty wire h =
    All-append IsStatusLine wire _ h (not_found_line-IsStatusLine, tt)
answer_file-IsStatusLine false true wire h =
    All-append IsStatusLine wire _ h (ok_line-IsStatusLine, (server_error_line-IsStatusLine, tt))
answer_file-IsStatusLine false false wire h =
    All-append IsStatusLine wire _ h (ok_line-IsStatusLine, tt)

serve_result-IsStatusLine :
    (r : Result (Option Bytes)) (wire : List Bytes)
    → All IsStatusLine wire
    → All IsStatusLine (serve_result r wire).wire
unfolding serve_result
serve_result-IsStatusLine (ok none) wire h = h
serve_result-IsStatusLine (ok (some resp_data)) wire h =
    answer_file-IsStatusLine (is_minus_one resp_data) (is_empty resp_data) wire h
serve_result-IsStatusLine (fault e) wire h = h
serve_result-IsStatusLine (stop n) wire h = h
serve_result-IsStatusLine spin wire h = h

module _ (room : ℕ → ℕ) (files : Bytes → File) (root_dir : Bytes) where
  serve_path-IsStatusLine :
      (path : Bytes) (wire : List Bytes)
      → All IsStatusLine wire
      → All IsStatusLine (serve_path room files root_dir path wire).wire
  unfolding serve_path
  serve_path-IsStatusLine path wire h = elim (Bool-cases (leb (length path + 1) path_max)) [
    | inl e ↦ rw e (serve_result-IsStatusLine (read_file room (files path)) wire h)
    | inr e ↦ rw e h
  ]

  dispatch-IsStatusLine :
      (method : Code) (path : Bytes) (wire : List Bytes)
      → All IsStatusLine wire
      → All IsStatusLine (dispatch room files root_dir method path wire).wire
  unfolding dispatch
  dispatch-IsStatusLine invalid path wire h =
      All-append IsStatusLine wire _ h (server_error_line-IsStatusLine, tt)
  dispatch-IsStatusLine (valid zero) path wire h =
      All-append IsStatusLine wire _ h (server_error_line-IsStatusLine, tt)
  dispatch-IsStatusLine (valid (suc zero)) path wire h =
      serve_path-IsStatusLine (resource_path room files root_dir path) wire h
  dispatch-IsStatusLine (valid (suc (suc zero))) path wire h =
      All-append IsStatusLine wire _ h (ok_line-IsStatusLine, (server_error_line-IsStatusLine, tt))
  dispatch-IsStatusLine (valid (suc (suc (suc n)))) path wire h =
      All-append IsStatusLine wire _ h (server_error_line-IsStatusLine, tt)

  -- Whatever the request and the files, `routeClient` writes nothing to the socket but status lines:
  -- no byte of a file, and no header.
  pub route_client_status_lines :
      (info : ℕ) (path : Bytes) → All IsStatusLine (route_client room files root_dir info path).wire
  unfolding route_client
  route_client_status_lines info path =
      dispatch-IsStatusLine (decode_method info) path (rejections info)
        (rejections-IsStatusLine info)
