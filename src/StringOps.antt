-- ===== src/StringOps.antt =====
-- src/util/stringops.h. A string is the list of its bytes; NULL is `none` where the code lets a
-- pointer be NULL. Allocations succeed, and `room n` is how many bytes of memory an allocation of
-- `n` bytes really gives: a write beyond them is a fault.
mod Tests
pub mod Split
pub mod Pieces
pub mod Reverse
pub mod Digits
pub mod Itoa
pub mod Paths
pub mod Termination
use pwdmanlib.Base.{
  ℕ, zero, suc, ◌+◌, ◌-◌, ◌*◌, ◌/◌, ◌%◌, ◌^◌, bit_xor, Bool, true, false, ◌&&◌, ltb, leb, ◌==◌,
  if◌then◌else◌, Option, none, some, List, [], ◌∷◌, ◌++◌, map, length, take, drop, get_elem?, set,
  Bytes, codes, strcmp, strstr, c_str, Result, ok, fault, stop, spin, null_pointer, out_of_bounds,
  div_by_zero, overflow, ◌>>=◌, ◌>>◌, demand, guard,
}
use pwdmanlib.Vector.{CInt, pos, negsuc}

-- What `strsplit` returns: the cells that it wrote, NULL last, and the number that it stores in
-- `len`.
pub record Tokens : Type 0 where
  pub cells : List (Option Bytes)
  pub len : ℕ

-- The loop that counts the delimiters, on fuel.
pub count_delims : ℕ → Bytes → Bytes → Result ℕ
count_delims zero tmp delims = spin
count_delims (suc fuel) tmp delims = elim (strstr tmp delims) [
  | none ↦ ok 0
  | some n ↦ count_delims fuel (drop (n + length delims) tmp) delims >>= λ c. ok (suc c)
]

-- The trailing token is stored only if it is not empty; the NULL always.
unfoldable pub trailing : Bytes → List (Option Bytes)
trailing [] = none ∷ []
trailing (c ∷ s) = some (c ∷ s) ∷ none ∷ []

module _ (room : ℕ → ℕ) where
  -- The loop that extracts the tokens, on fuel: those before a delimiter, and the text behind the
  -- last one. `save` holds `size` bytes.
  pub extract : ℕ → ℕ → Bytes → Bytes → Result (List Bytes × Bytes)
  extract zero size tmp delims = spin
  extract (suc fuel) size tmp delims = elim (strstr tmp delims) [
    | none ↦ ok ([], tmp)
    | some n ↦
        guard (ltb n (room size)) out_of_bounds
        >> (extract fuel size (drop (n + length delims) tmp) delims >>= λ r.
            ok (take n tmp ∷ r.0, r.1))
  ]

  pub strsplit : Bytes → Bytes → Result Tokens
  strsplit str delims = do
    delimiters ← count_delims (suc (length str)) str delims
    let count = delimiters + 1
    r ← extract (suc (length str)) (length str) str delims
    let cells = map some r.0 ++ trailing r.1
    guard (leb (8 * length cells) (room (8 * count))) out_of_bounds
    ok (record { cells = cells; len = count })

-- `dig`, with its terminator.
abbrev pub dig : Bytes
dig = codes "0123456789abcdefghijklmnopqrstuvwxyz" ++ 0 ∷ []

-- The `do` loop of `itoa`, on fuel: the digits, the lowest first.
pub itoa_digits : ℕ → ℕ → ℕ → Result Bytes
itoa_digits zero v radix = spin
itoa_digits (suc fuel) v radix =
    let rest = itoa_digits fuel (v / radix) radix in
    guard (ltb 0 radix) div_by_zero
    >> (demand out_of_bounds (get_elem? dig (v % radix)) >>= λ d.
        if v / radix == 0 then ok (d ∷ []) else (rest >>= λ ds. ok (d ∷ ds)))

-- `c = *p, *p = *q, *q = c`
pub swap : Bytes → ℕ → ℕ → Result Bytes
swap str p q = do
  a ← demand out_of_bounds (get_elem? str p)
  b ← demand out_of_bounds (get_elem? str q)
  ok (set (set str p b) q a)

-- Both loops that swap from the two ends inwards while `p < q`, on fuel.
pub inwards : (Bytes → ℕ → ℕ → Result Bytes) → ℕ → Bytes → ℕ → ℕ → Result Bytes
inwards exchange zero str p q = if ltb p q then spin else ok str
inwards exchange (suc fuel) str p q =
    let rest = exchange str p q >>= λ s. inwards exchange fuel s (p + 1) (q - 1) in
    if ltb p q then rest else ok str

-- The sign, and the `unsigned int` that the digits are taken from. `-value` overflows at the least
-- int.
pub magnitude : CInt → ℕ → Result (Bool × ℕ)
magnitude (pos n) radix = ok (false, n)
magnitude (negsuc n) radix =
    if radix == 10
    then if n + 1 == 2 ^ 31 then fault overflow else ok (true, n + 1)
    else ok (false, 2 ^ 32 - 1 - n)

-- What the calls of `readFile` meet: the file cannot be opened, its end cannot be sought, its size
-- not told, its start not sought, its bytes not read, or they are read.
pub data File : Type 0 where
  absent no_seek no_tell no_rewind no_read : File
  readable : Bytes → File

module _ (room : ℕ → ℕ) where
  pub itoa : CInt → ℕ → Result Bytes
  itoa value radix = do
    r ← magnitude value radix
    digits ← itoa_digits 32 r.1 radix
    let str = digits ++ (if r.0 then b'-' ∷ [] else [])
    guard (leb (length str + 1) (room 4)) out_of_bounds
    inwards swap (length str) str 0 (length str - 1)

  unfoldable pub read_file : File → Result (Option Bytes)
  read_file absent = ok none
  read_file no_seek = ok none
  read_file no_tell = itoa (negsuc 0) 10 >>= λ s. ok (some s)
  read_file no_rewind = itoa (negsuc 0) 10 >>= λ s. ok (some s)
  read_file no_read = itoa (negsuc 0) 10 >>= λ s. ok (some s)
  read_file (readable bytes) = ok (some (c_str bytes))

-- `XOR_SWAP(*(str + p), *(str + q))`
pub xor_swap : Bytes → ℕ → ℕ → Result Bytes
xor_swap str p q = do
  a ← demand out_of_bounds (get_elem? str p)
  b ← demand out_of_bounds (get_elem? str q)
  let a' = bit_xor a b
  let b' = bit_xor b a'
  ok (set (set str q b') p (bit_xor a' b'))

-- `end` is a `size_t`, so that of the empty string is the largest one.
pub str_reverse : Bytes → Result Bytes
str_reverse str = inwards xor_swap (suc (length str)) str 0 ((length str + 2 ^ 64 - 1) % 2 ^ 64)

-- `strlen(path) == 0`
unfoldable pub is_empty : Bytes → Bool
is_empty [] = true
is_empty (c ∷ s) = false

-- The last branch of `joinPath`. `last_char` has run to the terminator, so the string there is "".
pub join_both : Bytes → Bytes → Bytes
join_both path1 path2 =
    let last_char = [] in
    let separator = if strcmp last_char (codes "/") then [] else codes "/" in
    path1 ++ separator ++ path2

-- What `joinPath` copies to its destination.
pub join_path : Option Bytes → Option Bytes → Result Bytes
join_path none none = ok []
join_path none (some path2) = if is_empty path2 then fault null_pointer else ok path2
join_path (some path1) none = ok path1
join_path (some path1) (some path2) =
    if is_empty path2
    then ok path1
    else if is_empty path1
    then ok path2
    else ok (join_both path1 path2)
