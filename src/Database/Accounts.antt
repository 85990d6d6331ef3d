-- ===== src/Database/Accounts.antt =====
-- src/db/database.h: `createTable` and `authenticateUser` on one database, whose server is not part of
-- the program, and src/test/db_test.c as their client.
use pwdmanlib.Base.{
  ℕ, ◌+◌, ◌≤◌, ◌≡◌, refl, Bool, true, false, inl, inr, Bool-cases, if◌then◌else◌, Option, none,
  some, List, [], ◌∷◌, ◌++◌, map, length, All, Bytes, codes, strcmp, Result, ok, fault,
  null_pointer, ◌>>=◌,
}
use pwdmanlib.StringOps.Pieces.{Lacks}
use pwdmanlib.Database.{
  Call, connect, exec, value, release, statement, query, Answer, rows, check_answer,
  authenticate_user,
}
use pwdmanlib.Database.Release.{query_fits}

abbrev pub Account : Type 0
Account = Bytes × Bytes

-- The commands that `createTable` sends.
abbrev pub drop_text : Bytes
drop_text = codes "DROP TABLE IF EXISTS Users"

abbrev pub create_text : Bytes
create_text = codes "CREATE TABLE Users(username VARCHAR(20) PRIMARY KEY,password VARCHAR(45))"

abbrev pub insert_text : Account → Bytes
insert_text (user, pass) =
    codes "INSERT INTO Users (username,password) VALUES ('"
    ++ (user ++ (codes "','" ++ (pass ++ codes "')")))

abbrev pub default_accounts : List Account
default_accounts =
    (codes "foo", codes "bar")
    ∷ (codes "foofoo", codes "extrabar")
    ∷ (codes "TheFooestF00", codes "H1gh3stBar")
    ∷ []

abbrev commands_text : List Bytes
commands_text = drop_text ∷ create_text ∷ map insert_text default_accounts

-- The server: what a command and a query come to in a state of the database.
pub record Server : Type 1 where
  pub State : Type 0
  pub execute : Bytes → State → Bool × State
  pub select : Bytes → State → Answer

unfoldable pub lookup : Bytes → List Account → Option Bytes
lookup user [] = none
lookup user ((name, pass) ∷ accounts) =
    let rest = lookup user accounts in if strcmp name user then some pass else rest

unfoldable pub passwords : Bytes → List Account → List Bytes
passwords user [] = []
passwords user ((name, pass) ∷ accounts) =
    let rest = passwords user accounts in if strcmp name user then pass ∷ rest else rest

-- What the documentation of SQL says of the texts that the program sends: on the table `Users`, as the
-- list of its rows, if there is one. A query says which user it is about only if the name has no
-- quote.
pub record HasUsers (S : Server) : Type 0 where
  pub users : S.State → Option (List Account)
  pub dropped :
      (s : S.State) → ((S.execute drop_text s).0 ≡ true) × (users (S.execute drop_text s).1 ≡ none)
  pub created :
      (s : S.State)
      → users s ≡ none
      → ((S.execute create_text s).0 ≡ true) × (users (S.execute create_text s).1 ≡ some [])
  pub inserted :
      All
        (λ account.
          (s : S.State) (old : List Account)
          → users s ≡ some old
          → lookup account.0 old ≡ none
          → ((S.execute (insert_text account) s).0 ≡ true)
            × (users (S.execute (insert_text account) s).1 ≡ some (old ++ account ∷ [])))
        default_accounts
  pub selected :
      (s : S.State) (user : Bytes) (accounts : List Account)
      → Lacks 39 user
      → users s ≡ some accounts
      → S.select (query user) s ≡ rows (passwords user accounts)

-- The password of a user's row is compared with the one that was given, after the calls; for a user
-- without a row there is a NULL pointer.
abbrev pub compared : List Call → Bytes → Option Bytes → Result (Bool × List Call)
compared calls pass none = fault null_pointer
compared calls pass (some p) = ok (strcmp pass p, calls)

compared-after :
    (pass : Bytes) (found : Option Bytes)
    → (compared (value ∷ release) pass found >>= λ r. ok (r.0, connect ∷ exec ∷ r.1))
      ≡ compared (connect ∷ exec ∷ value ∷ release) pass found
compared-after pass none = refl
compared-after pass (some p) = refl

-- What the check of an answer makes of the rows of a user: the password of the first one is compared,
-- and a user without a row is a NULL pointer.
check_answer-passwords :
    (user pass : Bytes) (accounts : List Account)
    → check_answer pass (rows (passwords user accounts))
      ≡ compared (value ∷ release) pass (lookup user accounts)
unfolding lookup passwords
check_answer-passwords user pass [] = unfold check_answer in refl
check_answer-passwords user pass ((name, p) ∷ accounts) = elim (Bool-cases (strcmp name user)) [
  | inl same ↦ rw same (unfold check_answer in refl)
  | inr other ↦ rw other (check_answer-passwords user pass accounts)
]

module _ (S : Server) where
  -- Each command succeeds or ends the function.
  run_commands : List Bytes → S.State → Bool × S.State
  run_commands [] s = (true, s)
  run_commands (c ∷ cs) s =
      let (good, after) = S.execute c s in
      let rest = run_commands cs after in if good then rest else (false, after)

  -- The flag is whether the connection is good.
  pub create_users : Bool → S.State → Bool × S.State
  unfolding run_commands
  create_users false s = (false, s)
  create_users true s = run_commands commands_text s

  -- `authenticateUser` in a state of the database.
  abbrev pub authenticate : (ℕ → ℕ) → S.State → Bytes → Bytes → Result (Bool × List Call)
  authenticate room s user pass = authenticate_user room true (λ q. S.select q s) user pass

  module _ (has : HasUsers S) where
    -- `createTable` on a good connection succeeds, and leaves the three accounts, whatever was there.
    pub create_users_lem :
        (s : S.State)
        → ((create_users true s).0 ≡ true)
          × (has.users (create_users true s).1 ≡ some default_accounts)
    unfolding create_users run_commands lookup strcmp
    create_users_lem s =
        let (foo, (foofoo, (fooest, _))) = has.inserted in
        let (g0, e0) = has.dropped s in
        let s0 = (S.execute drop_text s).1 in
        let (g1, e1) = has.created s0 e0 in
        let s1 = (S.execute create_text s0).1 in
        let (g2, e2) = foo s1 [] e1 refl in
        let s2 = (S.execute (insert_text (codes "foo", codes "bar")) s1).1 in
        let (g3, e3) = foofoo s2 _ e2 refl in
        let s3 = (S.execute (insert_text (codes "foofoo", codes "extrabar")) s2).1 in
        let (g4, e4) = fooest s3 _ e3 refl in rw (g0, g1, g2, g3, g4) (refl, e4)

    -- What `authenticateUser` does for a name without a quote, in any state with a table: it accepts the
    -- password of the user's row, refuses any other, and follows a NULL pointer for a user that has
    -- no row.
    authenticate_user_accounts :
        (room : ℕ → ℕ) (s : S.State) (user pass : Bytes) (accounts : List Account)
        → Lacks 39 user
        → length statement + length user + 3 ≤ room (length statement + length user + 3)
        → has.users s ≡ some accounts
        → authenticate room s user pass
          ≡ compared (connect ∷ exec ∷ value ∷ release) pass (lookup user accounts)
    authenticate_user_accounts room s user pass accounts plain big table =
        unfold authenticate_user in
        rw
          (
            query_fits room user big,
            has.selected s user accounts plain table,
            check_answer-passwords user pass accounts,
          )
          (compared-after pass (lookup user accounts))

    -- After `createTable`, from whatever state, and for a name without a quote, with an allocator that
    -- gives what it is asked for: `authenticateUser` accepts the password that `createTable` put into
    -- the row of the user, refuses any other, and follows a NULL pointer for any other user.
    pub authenticate-create_users :
        (room : ℕ → ℕ) (s : S.State) (user pass : Bytes)
        → Lacks 39 user
        → length statement + length user + 3 ≤ room (length statement + length user + 3)
        → authenticate room (create_users true s).1 user pass
          ≡ compared (connect ∷ exec ∷ value ∷ release) pass (lookup user default_accounts)
    authenticate-create_users room s user pass plain big =
        authenticate_user_accounts room (create_users true s).1 user pass default_accounts plain big
          (create_users_lem s).1
