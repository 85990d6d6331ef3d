-- ===== src/Client/Start.antt =====
-- src/client/client.c: `main`.
use pwdmanlib.Base.{
  ℕ, zero, suc, ◌≡◌, refl, Bool, ltb, if◌then◌else◌, Option, none, some, List, [], ◌∷◌, length,
  Bytes, codes, Result, ok, fault, null_pointer, out_of_bounds, invalid_free, ◌>>=◌,
}
use pwdmanlib.Main.{same_pointer}

-- What `main` comes to: the call of `start_client` with the port, and the root directory, or an exit.
data Ending : Type 0 where
  connecting : Bytes → Bytes → Ending
  exits : ℕ → Ending

-- The loop over the tokens. A port would be cleared in place, and it is a literal; the copy of a
-- root directory needs one byte more than its allocation has.
client_options : List Bytes → ℕ → Bytes → Option Bytes → Result (Bytes × Option Bytes)
unfolding same_pointer
client_options [] flag port root_dir = ok (port, root_dir)
client_options (token ∷ tokens) zero port root_dir =
    let set_port = client_options tokens 1 port root_dir in
    let set_root = client_options tokens 2 port root_dir in
    let neither = client_options tokens 0 port root_dir in
    if same_pointer token (codes "-p")
    then set_port
    else if same_pointer token (codes "--port")
    then set_port
    else if same_pointer token (codes "-r")
    then set_root
    else if same_pointer token (codes "--root-dir")
    then set_root
    else neither
client_options (token ∷ tokens) (suc flag) port root_dir = fault out_of_bounds

-- `if (root_dir == NULL)`: the value of the variable PWD is measured, and then freed, although
-- `getenv` did not allocate it.
connecting_with : Bytes × Option Bytes → Option Bytes → Result Ending
connecting_with (port, some root_dir) pwd = ok (connecting port root_dir)
connecting_with (port, none) none = fault null_pointer
connecting_with (port, none) (some pwd) = fault invalid_free

client_main : Bool → List Bytes → List Bytes → Option Bytes → Result Ending
unfolding client_options connecting_with
client_main signals argv tokens pwd =
    let settled = client_options tokens 0 (codes "65501") none >>= λ o. connecting_with o pwd in
    if signals then if ltb 4 (length argv) then ok (exits 1) else settled else ok (exits 255)

client_options-none :
    (tokens : List Bytes) (port : Bytes) (root_dir : Option Bytes)
    → client_options tokens 0 port root_dir ≡ ok (port, root_dir)
unfolding client_options
client_options-none [] port root_dir = refl
client_options-none (token ∷ tokens) port root_dir = client_options-none tokens port root_dir

unset : Option Bytes → Result Ending
unset none = fault null_pointer
unset (some pwd) = fault invalid_free

connecting_with-unset :
    (port : Bytes) (pwd : Option Bytes) → connecting_with (port, none) pwd ≡ unset pwd
unfolding connecting_with unset
connecting_with-unset port none = refl
connecting_with-unset port (some pwd) = refl

-- The older client never connects: it exits, or it measures a missing variable PWD, or it frees the
-- value of that variable, which `getenv` owns.
client_main_lem :
    (signals : Bool) (argv tokens : List Bytes) (pwd : Option Bytes)
    → client_main signals argv tokens pwd ≡ (
        if signals
        then if ltb 4 (length argv)
          then ok (exits 1)
          else elim pwd [ none ↦ fault null_pointer | some dir ↦ fault invalid_free ]
        else ok (exits 255))
client_main_lem signals argv tokens none =
    unfold client_main in
    rw (client_options-none tokens (codes "65501") none, connecting_with-unset)
      (unfold unset in refl)
client_main_lem signals argv tokens (some dir) =
    unfold client_main in
    rw (client_options-none tokens (codes "65501") none, connecting_with-unset)
      (unfold unset in refl)
