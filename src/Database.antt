-- ===== src/Database.antt =====
-- src/db/database.h: the calls that the functions make of libpq, in order, and what they return. The
-- answers of the server are arguments.
mod Tests
pub mod Release
pub mod Accounts
pub mod Sample
use pwdmanlib.Base.{
  ℕ, zero, suc, ◌+◌, ◌*◌, Bool, true, false, leb, if◌then◌else◌, Option, none, some, List, [], ◌∷◌,
  ◌++◌, length, Bytes, codes, strcmp, Result, ok, fault, null_pointer, out_of_bounds, dangling,
  ◌>>=◌, ◌>>◌, guard,
}

-- The calls that acquire, use or release a connection or a result.
pub data Call : Type 0 where
  connect finish exec value clear : Call

abbrev pub release : List Call
release = clear ∷ finish ∷ []

-- Both flags: the connection is good, and the query gives tuples. The check of the tuples calls
-- `failChar` and goes on.
pub get_version : Bool → Bool → List Call
get_version false tuples = connect ∷ finish ∷ []
get_version true true = connect ∷ exec ∷ value ∷ release
get_version true false = connect ∷ exec ∷ (release ++ value ∷ release)

abbrev ansi_color_blue : Bytes
ansi_color_blue = 27 ∷ codes "[34m"

abbrev ansi_color_reset : Bytes
ansi_color_reset = 27 ∷ codes "[0m"

-- What `printDBInfo` prints, the password included, and the calls that its `getVersion` makes.
print_db_info : Bool → Bool → Bytes → Bytes → Bytes → Bytes → Bytes × List Call
unfolding get_version
print_db_info connected tuples user db_name pswd ver = (
  ansi_color_blue
      ++ (codes "User: "
          ++ (user
              ++ (codes "\nDatabase name: "
                  ++ (db_name
                      ++ (codes "\nPassword: "
                          ++ (pswd
                              ++ (codes "\n"
                                  ++ (ansi_color_reset
                                      ++ (codes "Database Version: "
                                          ++ (ver ++ codes "\n")))))))))),
  get_version connected tuples,
)

pub values : ℕ → List Call
values zero = []
values (suc n) = value ∷ values n

pub get_tables : Bool → Bool → ℕ → List Call
unfolding values
get_tables false tuples rows = connect ∷ finish ∷ []
get_tables true false rows = connect ∷ exec ∷ release
get_tables true true rows = connect ∷ exec ∷ (values rows ++ release)

-- The calls, and the bytes that are written into how large an allocation. A row takes 16 bytes, and the size
-- that is asked for is that of a pointer for each.
pub get_table_rows : (ℕ → ℕ) → Bool → Bool → ℕ → Result (List Call)
unfolding values
get_table_rows room false tuples rows =
    guard (leb 16 (room 8)) out_of_bounds >> ok (connect ∷ finish ∷ [])
get_table_rows room true false rows =
    guard (leb 16 (room 8)) out_of_bounds >> ok (connect ∷ exec ∷ release)
get_table_rows room true true rows =
    guard (leb (16 * rows) (room (8 * rows))) out_of_bounds
    >> ok (connect ∷ exec ∷ (values (2 * rows) ++ clear ∷ []))

-- The commands of `createTable` in order, each of which succeeds or ends the function.
pub commands : List Bool → List Call
commands [] = finish ∷ []
commands (false ∷ rest) = exec ∷ release
commands (true ∷ rest) = exec ∷ clear ∷ commands rest

-- The flags of the connection that is tested, of `getVersion` in `printDBInfo`, and of the five commands.
pub create_table : Bool → Bool → Bool → Bool → Bool → Bool → Bool → Bool → List Call
unfolding commands get_version
create_table false connected tuples drops creates first second third =
    connect ∷ connect ∷ finish ∷ []
create_table true connected tuples drops creates first second third =
    connect
    ∷ connect
    ∷ (get_version connected tuples ++ commands (drops ∷ creates ∷ first ∷ second ∷ third ∷ []))

abbrev pub statement : Bytes
statement = codes "SELECT password FROM Users WHERE username='"

pub query : Bytes → Bytes
query user = statement ++ user ++ codes "';"

-- What the server answers to the query: no tuples, or the passwords of the rows.
pub data Answer : Type 0 where
  no_tuples : Answer
  rows : List Bytes → Answer

-- Whether the user is accepted, and the calls. `PQgetvalue` gives NULL where there is no row.
pub check_answer : Bytes → Answer → Result (Bool × List Call)
check_answer pass no_tuples = ok (false, release)
check_answer pass (rows []) = fault null_pointer
check_answer pass (rows (pass_check ∷ others)) = ok (strcmp pass pass_check, value ∷ release)

pub authenticate_user :
    (ℕ → ℕ) → Bool → (Bytes → Answer) → Bytes → Bytes → Result (Bool × List Call)
unfolding query check_answer
authenticate_user room false answers user pass = ok (false, connect ∷ finish ∷ [])
authenticate_user room true answers user pass =
    guard (leb (length (query user) + 1) (room (length statement + length user + 3))) out_of_bounds
    >> (check_answer pass (answers (query user)) >>= λ r. ok (r.0, connect ∷ exec ∷ r.1))
