-- ===== src/Programs/Byte.antt =====
-- src/test/test_fawkes_proto.c: the bits of a byte that is read are set one field after the other.
use pwdmanlib.Base.{
  ℕ, ◌-◌, ◌^◌, ◌%◌, ◌<◌, ◌==◌, ◌≡◌, refl, ap, ◌∙◌, true, Bool, bit_and, bit_or, List, [], ◌∷◌,
  passes_below, passes_below_sound, ==_iff,
}
use pwdmanlib.Fawkes.{
  Code, invalid, valid, decode_reqmts, decode_proto, decode_method, print_byte_debug, set_proto,
  set_method,
}

-- `info = (info & 252) | (0 & ~252)`
clear_reqmts : ℕ → ℕ
clear_reqmts info = bit_or (bit_and info 252) (bit_and 0 (2 ^ 32 - 1 - 252)) % 2 ^ 8

-- What the program prints: the digits of the four bytes that it shows, and what the three decoders
-- say of the first one.
record Shown : Type 0 where
  bytes : List (List Bool)
  decoded : List Code

-- The byte at the end, and what was shown.
fawkes_test : ℕ → ℕ × Shown
unfolding clear_reqmts
fawkes_test info =
    let cleared = clear_reqmts info in
    let http = set_proto cleared 1 in
    let get = set_method http 1 in
    (
      get,
      record {
        bytes =
            print_byte_debug info
            ∷ print_byte_debug cleared
            ∷ print_byte_debug http
            ∷ print_byte_debug get
            ∷ [];
        decoded =
            decode_reqmts info
            ∷ decode_proto info
            ∷ decode_method info
            ∷ decode_reqmts cleared
            ∷ [];
      },
    )

fawkes_table : passes_below 256 (λ info. (fawkes_test info).0 == 20) ≡ true
unfolding fawkes_test passes_below set_proto set_method
fawkes_table = refl

-- Whatever byte is read, the one at the end is the same: a GET in HTTP/1.0 that was not checked.
fawkes_test_ends :
    (info : ℕ)
    → info < 256
    → let byte = (fawkes_test info).0 in
      (byte ≡ 20)
      × (decode_method byte ≡ valid 1)
      × (decode_proto byte ≡ valid 1)
      × (decode_reqmts byte ≡ invalid)
fawkes_test_ends info h =
    let e : (fawkes_test info).0 ≡ 20 =
      (==_iff _ _).0 (passes_below_sound 256 _ info fawkes_table h) in
    (
      e,
      ap decode_method e ∙ (unfold decode_method in refl),
      ap decode_proto e ∙ (unfold decode_proto in refl),
      ap decode_reqmts e ∙ (unfold decode_reqmts in refl),
    )
