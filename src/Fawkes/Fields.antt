-- ===== src/Fawkes/Fields.antt =====
-- The fields of the information byte as numbers, and the encoders as assignments to them.
use pwdmanlib.Base.{
  ℕ, ◌+◌, ◌*◌, ◌/◌, ◌%◌, ◌≤◌, ◌<◌, ◌≡◌, refl, true, ◌&&◌, ◌^◌, ◌==◌, ==_iff, arith, passes_below,
  passes_below_sound, Bytes, bit_and,
}
use pwdmanlib.Fawkes.{set_proto, set_method, encode_reqmts, reqmts_code, proto_code, method_code}

-- Checks that an assignment of the protocol field is arithmetic, at every byte and value.
set_proto_table :
    passes_below 256
      (λ info. passes_below 4 (λ x. set_proto info x == info / 16 * 16 + x * 4 + info % 4))
    ≡ true
unfolding passes_below set_proto
set_proto_table = refl

pub set_proto_lem :
    (info x : ℕ) → info < 256 → x < 4 → set_proto info x ≡ info / 16 * 16 + x * 4 + info % 4
set_proto_lem info x h k =
    (==_iff _ _).0 (passes_below_sound 4 _ x (passes_below_sound 256 _ info set_proto_table h) k)

set_method_table :
    passes_below 256 (λ info. passes_below 16 (λ x. set_method info x == x * 16 + info % 16)) ≡ true
unfolding passes_below set_method
set_method_table = refl

pub set_method_lem : (info x : ℕ) → info < 256 → x < 16 → set_method info x ≡ x * 16 + info % 16
set_method_lem info x h k =
    (==_iff _ _).0 (passes_below_sound 16 _ x (passes_below_sound 256 _ info set_method_table h) k)

encode_reqmts_table :
    passes_below 256 (λ info. encode_reqmts info == info / 4 * 4 + reqmts_code info) ≡ true
unfolding passes_below encode_reqmts reqmts_code
encode_reqmts_table = refl

pub encode_reqmts_lem :
    (info : ℕ) → info < 256 → encode_reqmts info ≡ info / 4 * 4 + reqmts_code info
encode_reqmts_lem info h = (==_iff _ _).0 (passes_below_sound 256 _ info encode_reqmts_table h)

mask_table :
    passes_below 256
      (λ info. (bit_and info 3 == info % 4) && (bit_and (info / 2 ^ 2) 3 == info / 4 % 4))
    ≡ true
unfolding passes_below
mask_table = refl

-- A mask of two bits is a remainder by 4.
pub two_bits :
    (info : ℕ)
    → info < 256
    → (bit_and info 3 ≡ info % 4) × (bit_and (info / 2 ^ 2) 3 ≡ info / 4 % 4)
two_bits info h = ground (arith, passes_below_sound 256 _ info mask_table h)

pub proto_code-lt : (proto : Bytes) → proto_code proto < 4
unfolding proto_code
proto_code-lt proto = ground arith

pub method_code-le : (method : Bytes) → method_code method ≤ 8
unfolding method_code
method_code-le method = ground arith

pub reqmts_code-le : (info : ℕ) → reqmts_code info ≤ 1
unfolding reqmts_code
reqmts_code-le info = ground arith
