-- ===== src/Main.antt =====
-- src/server/server.c: what `main` settles before it starts the server.
mod Tests
pub mod Serve
pub mod Program
use pwdmanlib.Base.{
  ℕ, zero, suc, ◌≡◌, refl, sym, ap, ◌∙◌, Bool, true, false, leb, if◌then◌else◌, Option, none, some,
  List, [], ◌∷◌, length, Bytes, codes, arith, ltb, ◌==◌, Result, ok, fault, out_of_bounds, ◌>>=◌,
}
use pwdmanlib.Server.Startup.{Signal, set_sig_handler}

pub data Settled : Type 0 where
  serving : Bytes → Option Bytes → Settled
  exits : ℕ → Settled

-- `token == literal` compares the pointer to a token with that to a literal, which are never equal.
unfoldable pub same_pointer : Bytes → Bytes → Bool
same_pointer token literal = false

-- The loop over the tokens, with `option_flag`, the port and the root directory. A port would
-- be cleared in place, and it is a literal.
parse_options : List Bytes → ℕ → Bytes → Option Bytes → Result (Bytes × Option Bytes)
unfolding same_pointer
parse_options [] flag port root_dir = ok (port, root_dir)
parse_options (token ∷ tokens) zero port root_dir =
    let set_port = parse_options tokens 1 port root_dir in
    let set_root = parse_options tokens 2 port root_dir in
    let neither = parse_options tokens 0 port root_dir in
    if same_pointer token (codes "-p")
    then set_port
    else if same_pointer token (codes "--port")
    then set_port
    else if same_pointer token (codes "-r")
    then set_root
    else if same_pointer token (codes "--root-dir")
    then set_root
    else neither
parse_options (token ∷ tokens) (suc zero) port root_dir = fault out_of_bounds
parse_options (token ∷ tokens) (suc (suc n)) port root_dir =
    parse_options tokens 0 port (some token)

-- The directory defaults to that of the variable PWD.
serving_with : Bytes × Option Bytes → Option Bytes → Settled
serving_with (port, none) pwd = serving port pwd
serving_with (port, some root_dir) pwd = serving port (some root_dir)

-- `signals` tells whether all four handlers can be set, `strsep` gives the tokens of its string, and
-- `pwd` is the variable PWD.
pub main : Bool → ℕ → List Bytes → List Bytes → Option Bytes → Result Settled
unfolding parse_options serving_with
main signals uid argv tokens pwd =
    let settled = parse_options tokens 0 (codes "65501") none >>= λ o. ok (serving_with o pwd) in
    if signals
    then if uid == 0 then if ltb 4 (length argv) then ok (exits 1) else settled else ok (exits 1)
    else ok (exits 255)

branches :
    (a b c : Bool) (settled : Settled)
    → (if a
        then if b then if c then ok (exits 1) else ok settled else ok (exits 1)
        else ok (exits 255))
      ≡ ok (if a then if b then if c then exits 1 else settled else exits 1 else exits 255)
branches true true true settled = refl
branches true true false settled = refl
branches true false c settled = refl
branches false b c settled = refl

parse_options-none :
    (tokens : List Bytes) (port : Bytes) (root_dir : Option Bytes)
    → parse_options tokens 0 port root_dir ≡ ok (port, root_dir)
unfolding parse_options
parse_options-none [] port root_dir = refl
parse_options-none (token ∷ tokens) port root_dir = parse_options-none tokens port root_dir

-- Whatever its options say, a server that starts does so on the port 65501, with the directory that
-- it was started in: it never sees an option. It starts exactly if its handlers are set, it runs as
-- root and it has at most three arguments.
main_ignores_options :
    (signals : Bool) (uid : ℕ) (argv tokens : List Bytes) (pwd : Option Bytes)
    → main signals uid argv tokens pwd
      ≡ ok (
          if signals
          then if uid == 0
            then if ltb 4 (length argv) then exits 1 else serving (codes "65501") pwd
            else exits 1
          else exits 255)
main_ignores_options signals uid argv tokens pwd =
    unfold main in
    rw (parse_options-none tokens (codes "65501") none)
      (branches signals (uid == 0) (ltb 4 (length argv)) (serving (codes "65501") pwd))
