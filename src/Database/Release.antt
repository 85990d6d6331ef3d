-- ===== src/Database/Release.antt =====
-- What the functions release of what they acquire, and whom `authenticateUser` accepts.
use pwdmanlib.Base.{
  ℕ, zero, suc, ◌+◌, ◌*◌, ◌≤◌, ◌≡◌, ◌↔◌, refl, sym, ap, subst, ◌∙◌, Bool, true, false, not, ◌&&◌,
  leb, if◌then◌else◌, List, [], ◌∷◌, ◌++◌, length, length-append, Bytes, codes, strcmp_iff, Result,
  ok, fault, spin, stop, out_of_bounds, dangling, ◌>>=◌, ◌>>◌, guard, arith,
}
use pwdmanlib.Database.{
  Call, connect, finish, exec, value, clear, release, get_version, values, get_tables,
  get_table_rows, commands, create_table, statement, query, Answer, no_tuples, rows, check_answer,
  authenticate_user,
}

-- The discipline that a sequence of calls has to keep: the connections and results that are not yet
-- released, and a fault for a call on one that is not there.
pub record Live : Type 0 where
  pub connections : ℕ
  pub results : ℕ

abbrev nothing_live : Live
nothing_live = record { connections = 0; results = 0 }

pub call : Call → Live → Result Live
call connect l = ok (record l { connections = suc l.connections })
call finish l = elim l.connections [
  | zero ↦ fault dangling
  | suc n ↦ ok (record l { connections = n })
]
call exec l = elim l.connections [
  | zero ↦ fault dangling
  | suc n ↦ ok (record l { results = suc l.results })
]
call value l = elim l.results [ zero ↦ fault dangling | suc n ↦ ok l ]
call clear l = elim l.results [ zero ↦ fault dangling | suc n ↦ ok (record l { results = n }) ]

pub run : List Call → Live → Result Live
unfolding call
run [] l = ok l
run (c ∷ calls) l = call c l >>= λ m. run calls m

run-values :
    (n c r : ℕ) (calls : List Call)
    → run (values n ++ calls) (record { connections = c; results = suc r })
      ≡ run calls (record { connections = c; results = suc r })
unfolding run call values
run-values zero c r calls = refl
run-values (suc n) c r calls = run-values n c r calls

when :
    (b : Bool) (calls : List Call) (l : Live)
    → run calls nothing_live ≡ ok l
    → (guard b out_of_bounds >> ok calls >>= λ calls. run calls nothing_live)
      ≡ (if b then ok l else fault out_of_bounds)
when true calls l h = h
when false calls l h = refl

-- `getTables` releases its connection and its result, whatever the server answers.
get_tables_releases :
    (connected tuples : Bool) (n : ℕ)
    → run (get_tables connected tuples n) nothing_live ≡ ok nothing_live
unfolding run call get_tables
get_tables_releases false tuples n = refl
get_tables_releases true false n = refl
get_tables_releases true true n = run-values n 1 0 release

-- `getVersion` releases what it acquires if the connection fails or the query gives tuples. If the
-- query fails, it reads the result after it has released it.
get_version_releases :
    (connected tuples : Bool)
    → run (get_version connected tuples) nothing_live
      ≡ (if connected && not tuples then fault dangling else ok nothing_live)
unfolding run call get_version
get_version_releases false tuples = refl
get_version_releases true false = refl
get_version_releases true true = refl

-- `getTableRows` keeps its connection open after a query that succeeds, and its rows need the
-- allocator to give twice what it asks for, or more.
get_table_rows_leaks :
    (room : ℕ → ℕ) (n : ℕ)
    → (get_table_rows room true true n >>= λ calls. run calls nothing_live) ≡ (
        if leb (16 * n) (room (8 * n))
        then ok (record { connections = 1; results = 0 })
        else fault out_of_bounds)
unfolding get_table_rows
get_table_rows_leaks room n =
    when (leb (16 * n) (room (8 * n))) _ _ (unfold run call in run-values (2 * n) 1 0 (clear ∷ []))

-- `getVersion` within another function, where it does not fail.
run-version :
    (connected tuples : Bool) (calls : List Call)
    → connected && not tuples ≡ false
    → run (get_version connected tuples ++ calls) (record { connections = 2; results = 0 })
      ≡ run calls (record { connections = 2; results = 0 })
unfolding run call get_version
run-version false tuples calls h = refl
run-version true true calls h = refl
run-version true false calls h = cc

run-commands :
    (flags : List Bool)
    → run (commands flags) (record { connections = 2; results = 0 })
      ≡ ok (record { connections = 1; results = 0 })
unfolding run call commands
run-commands [] = refl
run-commands (true ∷ flags) = run-commands flags
run-commands (false ∷ flags) = refl

-- `createTable` leaves one connection open in each case in which `printDBInfo` gets its version: the one that it opens first and
-- never uses.
create_table_leaks :
    (good connected tuples drops creates first second third : Bool)
    → connected && not tuples ≡ false
    → run (create_table good connected tuples drops creates first second third) nothing_live
      ≡ ok (record { connections = 1; results = 0 })
create_table_leaks false connected tuples drops creates first second third h =
    unfold create_table run call in refl
create_table_leaks true connected tuples drops creates first second third h =
    unfold create_table run call in
    run-version connected tuples (commands (drops ∷ creates ∷ first ∷ second ∷ third ∷ [])) h
    ∙ run-commands (drops ∷ creates ∷ first ∷ second ∷ third ∷ [])

Released : Result (Bool × List Call) → Type 0
Released (ok (b, calls)) = run calls nothing_live ≡ ok nothing_live
Released (fault e) = Unit
Released (stop n) = Unit
Released spin = Unit

abbrev answered : Bytes → Answer → Result (Bool × List Call)
answered pass answer = check_answer pass answer >>= λ r. ok (r.0, connect ∷ exec ∷ r.1)

check_answer-Released : (pass : Bytes) (answer : Answer) → Released (answered pass answer)
unfolding Released check_answer run call
check_answer-Released pass no_tuples = refl
check_answer-Released pass (rows []) = tt
check_answer-Released pass (rows (p ∷ others)) = refl

ok-inj : {x y : Bool × List Call} → ok x ≡ ok y → x ≡ y
ok-inj h = ground arith

rows-inj : {p q : Bytes} {others rest : List Bytes} → rows (p ∷ others) ≡ rows (q ∷ rest) → p ≡ q
rows-inj h = ground arith

-- What `check_answer` accepts.
check_answer-accepts :
    (pass : Bytes) (answer : Answer) (calls : List Call)
    → (answered pass answer ≡ ok (true, calls)) ↔ (
        ((others : List Bytes) × (answer ≡ rows (pass ∷ others)))
        × (calls ≡ connect ∷ exec ∷ value ∷ release))
unfolding check_answer
check_answer-accepts pass no_tuples calls = (λ h. cc, λ ((others, e), k). cc)
check_answer-accepts pass (rows []) calls = (λ h. cc, λ ((others, e), k). cc)
check_answer-accepts pass (rows (p ∷ others)) calls = (
  λ h.
      let e = ok-inj h in
      (
        (others, ap (λ q. rows (q ∷ others)) (sym ((strcmp_iff pass p).0 (ap (λ r. r.0) e)))),
        sym (ap (λ r. r.1) e),
      ),
  λ ((rest, e), k).
      ap (λ b. ok (b, connect ∷ exec ∷ value ∷ release)) ((strcmp_iff pass p).1 (sym (rows-inj e)))
      ∙ ap (λ c. ok (true, c)) (sym k),
)

fits : (a b : ℕ) → a ≤ b → leb a b ≡ true
fits a b h = ground arith

pub query_fits :
    (room : ℕ → ℕ) (user : Bytes)
    → length statement + length user + 3 ≤ room (length statement + length user + 3)
    → leb (length (query user) + 1) (room (length statement + length user + 3)) ≡ true
query_fits room user h =
    unfold query in
    fits _ _
      (omega (arith, length-append (statement ++ user) (codes "';"), length-append statement user))

-- With an allocator that gives what it is asked for, `authenticateUser` on a good connection accepts
-- exactly if the answer to its query has a first row with the password, and has then released all.
authenticate_user_accepts :
    (room : ℕ → ℕ) (answers : Bytes → Answer) (user pass : Bytes) (calls : List Call)
    → length statement + length user + 3 ≤ room (length statement + length user + 3)
    → (authenticate_user room true answers user pass ≡ ok (true, calls)) ↔ (
        ((others : List Bytes) × (answers (query user) ≡ rows (pass ∷ others)))
        × (calls ≡ connect ∷ exec ∷ value ∷ release))
authenticate_user_accepts room answers user pass calls h =
    unfold authenticate_user in
    rw (query_fits room user h) (check_answer-accepts pass (answers (query user)) calls)

guard-Released :
    (c : Bool) (r : Result (Bool × List Call)) → Released r → Released (guard c out_of_bounds >> r)
guard-Released true r h = h
guard-Released false r h = unfold Released in tt

authenticate_user-Released :
    (room : ℕ → ℕ) (connected : Bool) (answers : Bytes → Answer) (user pass : Bytes)
    → Released (authenticate_user room connected answers user pass)
authenticate_user-Released room false answers user pass =
    unfold authenticate_user Released run call in refl
authenticate_user-Released room true answers user pass =
    unfold authenticate_user in
    guard-Released (leb (length (query user) + 1) (room (length statement + length user + 3))) _
      (check_answer-Released pass (answers (query user)))

-- Whatever `authenticateUser` returns, it has released its connection and its result by then.
authenticate_user_releases :
    (room : ℕ → ℕ) (connected : Bool) (answers : Bytes → Answer) (user pass : Bytes) (b : Bool)
    (calls : List Call)
    → authenticate_user room connected answers user pass ≡ ok (b, calls)
    → run calls nothing_live ≡ ok nothing_live
authenticate_user_releases room connected answers user pass b calls h =
    let r : Released (ok (b, calls)) =
      subst Released h (authenticate_user-Released room connected answers user pass) in
    unfold Released in r
