-- ===== src/Server/Strtol.antt =====
-- src/server/server.h: the test of `routeClient` on the text of a file.
use pwdmanlib.Base.{
  ℕ, ◌+◌, ◌*◌, ◌-◌, Bool, false, ◌&&◌, ltb, leb, ◌==◌, if◌then◌else◌, Option, none, some, [], ◌∷◌,
  Bytes,
}

-- `strtol(s, &p, 0) == -1`, from the white space to the digits of the radix that the prefix tells.
digit_of : ℕ → ℕ → Option ℕ
digit_of radix c =
    let d =
      if leb b'0' c && leb c b'9'
      then c - b'0'
      else if leb b'a' c && leb c b'z'
      then c - b'a' + 10
      else if leb b'A' c && leb c b'Z'
      then c - b'A' + 10
      else radix in
    if ltb d radix then some d else none

read_digits : ℕ → ℕ → Bytes → ℕ
unfolding digit_of
read_digits radix acc [] = acc
read_digits radix acc (c ∷ s) = elim (digit_of radix c) [
  | none ↦ acc
  | some d ↦ read_digits radix (acc * radix + d) s
]

read_unsigned : Bytes → ℕ
unfolding read_digits
read_unsigned [] = 0
read_unsigned (c ∷ []) = read_digits 10 0 (c ∷ [])
read_unsigned (c ∷ x ∷ s) =
    if c == b'0'
    then if (x == b'x')
      then read_digits 16 0 s
      else if (x == b'X')
      then read_digits 16 0 s
      else read_digits 8 0 (x ∷ s)
    else read_digits 10 0 (c ∷ x ∷ s)

unfoldable pub is_minus_one : Bytes → Bool
unfolding read_unsigned
is_minus_one [] = false
is_minus_one (c ∷ s) =
    let rest = is_minus_one s in
    if c == b' '
    then rest
    else if leb 9 c && leb c 13
    then rest
    else (c == b'-') && (read_unsigned s == 1)
