-- ===== src/StringOps/Tests.antt =====
-- The string routines on concrete strings.
use pwdmanlib.Base.{
  ℕ, ◌+◌, ◌≡◌, refl, length, Bytes, codes, leb, if◌then◌else◌, ok, fault, out_of_bounds, arith,
}
use pwdmanlib.Vector.{pos, negsuc}
use pwdmanlib.StringOps.{
  Tokens, itoa, File, absent, no_seek, readable, read_file, str_reverse, inwards, swap, join_path,
}
use pwdmanlib.StringOps.Itoa.{IsNumeral, itoa-IsNumeral}

-- An allocator that grants just what it is asked for, and one that rounds up to blocks.
abbrev exact : ℕ → ℕ
exact n = n

abbrev blocks : ℕ → ℕ
blocks n = n + 16

itoa_test : itoa blocks (negsuc 41) 10 ≡ ok (codes "-42")
unfolding itoa pwdmanlib.StringOps.magnitude pwdmanlib.StringOps.itoa_digits inwards swap
itoa_test = refl

itoa-IsNumeral_example :
    (text : Bytes) × IsNumeral 16 255 text
    × (itoa blocks (pos 255) 16
        ≡ (if leb (length text + 1) (blocks 4) then ok text else fault out_of_bounds))
itoa-IsNumeral_example = itoa-IsNumeral blocks 255 16 (omega arith) (omega arith) (omega arith)
