-- ===== src/Server/Route/Termination.antt =====
-- `routeClient` ends.
use pwdmanlib.Base.{
  ℕ, zero, suc, ◌+◌, ◌≤◌, refl, Bool, true, false, leb, length, List, Bytes, Option, none, some,
  Result, ok, fault, stop, spin, out_of_bounds, null_pointer, Ends, ok-Ends, fault-Ends, stop-Ends,
  Bool-cases, inl, inr,
}
use pwdmanlib.StringOps.{File, is_empty}
use pwdmanlib.StringOps.Termination.{read_file-Ends}
use pwdmanlib.Server.Strtol.{is_minus_one}
use pwdmanlib.Fawkes.{Code, invalid, valid, decode_method}
use pwdmanlib.Server.Route.{
  answer_file, serve_file, serve_result, serve_path, resource_path, dispatch, rejections,
  route_client, path_max,
}

answer_file-Ends :
    (minus empty : Bool) (wire : List Bytes) → Ends (answer_file minus empty wire).end
unfolding answer_file
answer_file-Ends true empty wire = ok-Ends tt
answer_file-Ends false true wire = ok-Ends tt
answer_file-Ends false false wire = fault-Ends out_of_bounds

serve_result-Ends :
    (r : Result (Option Bytes)) (wire : List Bytes) → Ends r → Ends (serve_result r wire).end
unfolding serve_result serve_file
serve_result-Ends (ok none) wire h = fault-Ends null_pointer
serve_result-Ends (ok (some text)) wire h =
    answer_file-Ends (is_minus_one text) (is_empty text) wire
serve_result-Ends (fault e) wire h = fault-Ends e
serve_result-Ends (stop n) wire h = stop-Ends n
serve_result-Ends spin wire h = absurd (h refl)

module _ (room : ℕ → ℕ) (given : (n : ℕ) → n ≤ room n) (files : Bytes → File)
    (root_dir : Bytes) where
  serve_path-Ends :
      (path : Bytes) (wire : List Bytes) → Ends (serve_path room files root_dir path wire).end
  unfolding serve_path
  serve_path-Ends path wire = elim (Bool-cases (leb (length path + 1) path_max)) [
    | inl e ↦ rw e (serve_result-Ends _ wire (read_file-Ends room given (files path)))
    | inr e ↦ rw e (fault-Ends out_of_bounds)
  ]

  dispatch-Ends :
      (method : Code) (path : Bytes) (wire : List Bytes)
      → Ends (dispatch room files root_dir method path wire).end
  unfolding dispatch
  dispatch-Ends invalid path wire = ok-Ends tt
  dispatch-Ends (valid zero) path wire = ok-Ends tt
  dispatch-Ends (valid (suc zero)) path wire =
      serve_path-Ends (resource_path room files root_dir path) wire
  dispatch-Ends (valid (suc (suc zero))) path wire = ok-Ends tt
  dispatch-Ends (valid (suc (suc (suc n)))) path wire = ok-Ends tt

  pub route_client-Ends :
      (info : ℕ) (path : Bytes) → Ends (route_client room files root_dir info path).end
  unfolding route_client
  route_client-Ends info path = dispatch-Ends (decode_method info) path (rejections info)
