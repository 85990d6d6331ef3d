-- ===== src/Database/Tests/Table.antt =====
-- A server that keeps the table of the users, and the accounts on it.
use pwdmanlib.Base.{
  ℕ, ◌-◌, ◌≡◌, refl, ap, ◌∙◌, Bool, true, false, if◌then◌else◌, Option, none, some, List, [], ◌∷◌,
  ◌++◌, length, length-append, take, drop, Bytes, codes, strcmp, ok, append_assoc, arith,
}
use pwdmanlib.StringOps.Pieces.{lacks_test}
use pwdmanlib.Database.{connect, exec, value, release, statement, query, Answer, no_tuples, rows}
use pwdmanlib.Database.Accounts.{
  Account, drop_text, create_text, insert_text, default_accounts, Server, HasUsers, lookup,
  passwords, create_users, authenticate, authenticate-create_users,
}

-- The table after a command that adds one of the accounts.
insert_known : Bytes → List Account → List Account → Bool × Option (List Account)
insert_known text [] old = (false, some old)
insert_known text (account ∷ accounts) old =
    let rest = insert_known text accounts old in
    if strcmp text (insert_text account) then (true, some (old ++ account ∷ [])) else rest

insert_any : Bytes → Option (List Account) → Bool × Option (List Account)
unfolding insert_known
insert_any text none = (false, none)
insert_any text (some old) = insert_known text default_accounts old

-- The user that a query asks for.
user_of : Bytes → Bytes
user_of q = take (length q - length statement - 2) (drop (length statement) q)

table_answer : Bytes → Option (List Account) → Answer
unfolding user_of
table_answer q none = no_tuples
table_answer q (some accounts) = rows (passwords (user_of q) accounts)

abbrev table_server : Server
table_server = record {
  State = Option (List Account);
  execute = λ text s.
      if strcmp text drop_text
      then (true, none)
      else if strcmp text create_text
      then (true, some [])
      else insert_any text s;
  select = table_answer;
}

drop-length : (xs ys : Bytes) → drop (length xs) (xs ++ ys) ≡ ys
drop-length [] ys = refl
drop-length (x ∷ xs) ys = drop-length xs ys

take-length : (xs ys : Bytes) → take (length xs) (xs ++ ys) ≡ xs
take-length [] ys = refl
take-length (x ∷ xs) ys = ap (λ zs. x ∷ zs) (take-length xs ys)

user_of-query : (user : Bytes) → user_of (query user) ≡ user
unfolding user_of query
user_of-query user =
    let q = statement ++ user ++ codes "';" in
    let n : length q - length statement - 2 ≡ length user =
      omega (arith, length-append (statement ++ user) (codes "';"), length-append statement user) in
    ap (λ k. take k (drop (length statement) q)) n
    ∙ ap (λ t. take (length user) (drop (length statement) t))
        (append_assoc statement user (codes "';"))
    ∙ ap (take (length user)) (drop-length statement (user ++ codes "';"))
    ∙ take-length user (codes "';")

table_server-HasUsers : HasUsers table_server
unfolding insert_any insert_known strcmp table_answer
table_server-HasUsers = record {
  users = λ s. s;
  dropped = λ s. (refl, refl);
  created = λ s h. (refl, refl);
  inserted = (
    λ s old h fresh. rw h (refl, refl),
    (λ s old h fresh. rw h (refl, refl), (λ s old h fresh. rw h (refl, refl), tt)),
  );
  selected =
      λ s user accounts plain h. rw h (ap (λ u. rows (passwords u accounts)) (user_of-query user));
}

abbrev exact : ℕ → ℕ
exact n = n

authenticate-create_users_example :
    authenticate table_server exact
      (create_users table_server true none).1
      (codes "foo")
      (codes "bar")
    ≡ ok (true, connect ∷ exec ∷ value ∷ release)
unfolding lookup strcmp
authenticate-create_users_example =
    authenticate-create_users table_server table_server-HasUsers exact none (codes "foo")
      (codes "bar") (lacks_test 39 (codes "foo") refl) (omega arith)
