-- ===== src/Fawkes.antt =====
-- src/server/fawkes_proto.h: the information byte of a request. Bits 0 and 1 hold the verdict of
-- the requirements check, bits 2 and 3 the protocol, bits 4 to 7 the method.
mod Tests
mod Fields
pub mod Laws
pub mod Names
pub mod Request
use pwdmanlib.Base.{
  ℕ, zero, suc, ◌+◌, ◌-◌, ◌*◌, ◌/◌, ◌%◌, ◌^◌, bit_and, bit_or, Bool, not, ◌&&◌, ◌==◌, ltb,
  if◌then◌else◌, List, [], ◌∷◌, Bytes, codes, strncmp,
}

-- `~m` at the 32 bits of an `int`.
abbrev complement : ℕ → ℕ
complement m = 2 ^ 32 - 1 - m

-- A conversion to `unsigned char`.
abbrev u8 : ℕ → ℕ
u8 n = n % 2 ^ 8

-- The `x` that `encodeProto` picks.
pub proto_code : Bytes → ℕ
proto_code proto =
    if strncmp proto (codes "HTTP/1.0") 9
    then 1
    else if strncmp proto (codes "HTTP/1.1") 9
    then 2
    else if strncmp proto (codes "HTTP/2.0") 9
    then 3
    else 0

-- `info = (info & 243) | ((x << 2) & ~243)`
unfoldable pub set_proto : ℕ → ℕ → ℕ
set_proto info x = u8 (bit_or (bit_and info 243) (bit_and (x * 2 ^ 2) (complement 243)))

pub encode_proto : Bytes → ℕ → ℕ
encode_proto proto info = set_proto info (proto_code proto)

-- The `x` that `encodeMethod` picks. The comparison of pointers behind the last `strncmp` picks 0
-- either way.
pub method_code : Bytes → ℕ
method_code method =
    if strncmp method (codes "GET") 4
    then 1
    else if strncmp method (codes "HEAD") 5
    then 2
    else if strncmp method (codes "POST") 5
    then 3
    else if strncmp method (codes "PUT") 4
    then 4
    else if strncmp method (codes "DELETE") 7
    then 5
    else if strncmp method (codes "CONNECT") 8
    then 6
    else if strncmp method (codes "OPTIONS") 8
    then 7
    else if strncmp method (codes "TRACE") 6
    then 8
    else 0

-- `info = (info & 15) | ((x << 4) & ~15)`
unfoldable pub set_method : ℕ → ℕ → ℕ
set_method info x = u8 (bit_or (bit_and info 15) (bit_and (x * 2 ^ 4) (complement 15)))

pub encode_method : Bytes → ℕ → ℕ
encode_method method info = set_method info (method_code method)

pub reqmts_code : ℕ → ℕ
reqmts_code info =
    if not (bit_and (info / 2 ^ 2) 3 == 0) && (not (info / 2 ^ 4 == 0) && ltb (info / 2 ^ 4) 9)
    then 1
    else 0

-- `info = (info & 252) | (x & ~252)`
pub encode_reqmts : ℕ → ℕ
encode_reqmts info = u8 (bit_or (bit_and info 252) (bit_and (reqmts_code info) (complement 252)))

-- A `short` that is -1 or a small number: `invalid` is the -1.
pub data Code : Type 0 where
  invalid : Code
  valid : ℕ → Code

unfoldable pub decode_proto : ℕ → Code
decode_proto info =
    if bit_and (info / 2 ^ 2) 3 == 1
    then valid 1
    else if bit_and (info / 2 ^ 2) 3 == 2
    then valid 2
    else if bit_and (info / 2 ^ 2) 3 == 3
    then valid 3
    else invalid

unfoldable pub decode_method : ℕ → Code
decode_method info =
    if info / 2 ^ 4 == 1
    then valid 1
    else if info / 2 ^ 4 == 2
    then valid 2
    else if info / 2 ^ 4 == 3
    then valid 3
    else if info / 2 ^ 4 == 4
    then valid 4
    else if info / 2 ^ 4 == 5
    then valid 5
    else if info / 2 ^ 4 == 6
    then valid 6
    else if info / 2 ^ 4 == 7
    then valid 7
    else if info / 2 ^ 4 == 8
    then valid 8
    else invalid

unfoldable pub decode_reqmts : ℕ → Code
decode_reqmts info = if bit_and info 3 == 1 then valid 1 else invalid

-- The digits that `printByteDebug` prints: `((byte << i) & 0x80) != 0` for `i` from 0 to 7.
debug_bits : ℕ → ℕ → ℕ → List Bool
debug_bits byte zero i = []
debug_bits byte (suc left) i = not (bit_and (byte * 2 ^ i) 0x80 == 0) ∷ debug_bits byte left (i + 1)

pub print_byte_debug : ℕ → List Bool
unfolding debug_bits
print_byte_debug byte = debug_bits byte 8 0
