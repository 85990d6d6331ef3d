-- ===== src/Database/Sample.antt =====
-- The test program src/test/db_test.c.
use pwdmanlib.Base.{
  ℕ, ◌+◌, ◌≤◌, ◌≡◌, refl, Bool, true, false, not, if◌then◌else◌, List, [], ◌∷◌, length, Bytes,
  codes, strcmp, Result, ok, fault, out_of_bounds, ◌>>=◌, All,
}
use pwdmanlib.StringOps.Pieces.{lacks, lacks_test}
use pwdmanlib.Database.{Call, connect, exec, value, release, statement}
use pwdmanlib.Database.Accounts.{
  Server, HasUsers, create_users, create_users_lem, authenticate, authenticate-create_users, lookup,
  compared, default_accounts,
}

-- A call of `authenticateUser`, and whether it is to succeed.
record Login : Type 0 where
  user : Bytes
  pass : Bytes
  wanted : Bool

abbrev logins : List Login
logins =
    record { user = codes "foo"; pass = codes "bar"; wanted = true }
    ∷ record { user = codes "foofoo"; pass = codes "extrabar"; wanted = true }
    ∷ record { user = codes "TheFooestF00"; pass = codes "H1gh3stBar"; wanted = true }
    ∷ record { user = codes "foo"; pass = codes "wrong"; wanted = false }
    ∷ record { user = codes "foofoo"; pass = codes "wrong"; wanted = false }
    ∷ record { user = codes "TheFooestF00"; pass = codes "wrong"; wanted = false }
    ∷ []

-- The status of the program: -1 is 255.
abbrev failed : Result ℕ
failed = ok 255

module _ (authenticate_user : Bytes → Bytes → Result (Bool × List Call)) where
  try_all : List Login → Result ℕ
  try_all [] = ok 0
  try_all (a ∷ rest) = authenticate_user a.user a.pass >>= λ (accepted, calls).
      let next = try_all rest in
      if a.wanted then if accepted then next else failed else if accepted then failed else next

  -- Each call comes to what is wanted of it.
  abbrev AsWanted : Login → Type 0
  AsWanted a = (calls : List Call) × (authenticate_user a.user a.pass ≡ ok (a.wanted, calls))

  try_all-AsWanted : (tries : List Login) → All AsWanted tries → try_all tries ≡ ok 0
  unfolding try_all
  try_all-AsWanted [] h = refl
  try_all-AsWanted (a ∷ rest) ((calls, e), h) = rw (e, try_all-AsWanted rest h) (by a.wanted)
    where
      by :
          (b : Bool) → (if b then if b then ok 0 else failed else if b then failed else ok 0) ≡ ok 0
      by true = refl
      by false = refl

  -- `main`, after the other functions gave these: whether the tables were created, the version, the
  -- names of the tables, and the first user.
  db_test : Bool → Bytes → List Bytes → Bytes → Result ℕ
  unfolding try_all
  db_test created version [] first_user =
      if not created
      then failed
      else if strcmp version (codes "FAIL")
      then failed
      else fault out_of_bounds
  db_test created version (table ∷ tables) first_user =
      if not created
      then failed
      else if strcmp version (codes "FAIL")
      then failed
      else if strcmp table (codes "FAIL")
      then failed
      else if strcmp first_user (codes "FAIL")
      then failed
      else try_all logins

-- The program passes on every server that keeps the table, from whatever state.
db_test_passes :
    (S : Server) (has : HasUsers S) (room : ℕ → ℕ) (s : S.State)
    → ((n : ℕ) → n ≤ room n)
    → db_test
        (authenticate S room (create_users S true s).1)
        (create_users S true s).0
        (codes "PostgreSQL 9.6")
        (codes "users" ∷ [])
        (codes "foo")
      ≡ ok 0
unfolding db_test lookup strcmp
db_test_passes S has room s spacious =
    let after = (create_users S true s).1 in
    let call : (user pass : Bytes)
        → lacks 39 user ≡ true
        → authenticate S room after user pass
          ≡ compared (connect ∷ exec ∷ value ∷ release) pass (lookup user default_accounts) =
      λ user pass plain.
        authenticate-create_users S has room s user pass (lacks_test 39 user plain)
          (spacious (length statement + length user + 3)) in
    let calls = connect ∷ exec ∷ value ∷ release in
    rw ((create_users_lem S has s).0) (
      try_all-AsWanted (authenticate S room after) logins (
        (calls, call (codes "foo") (codes "bar") refl),
        (
          (calls, call (codes "foofoo") (codes "extrabar") refl),
          (
            (calls, call (codes "TheFooestF00") (codes "H1gh3stBar") refl),
            (
              (calls, call (codes "foo") (codes "wrong") refl),
              (
                (calls, call (codes "foofoo") (codes "wrong") refl),
                ((calls, call (codes "TheFooestF00") (codes "wrong") refl), tt),
              ),
            ),
          ),
        ),
      ))
