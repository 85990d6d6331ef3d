-- ===== src/Fawkes/Laws.antt =====
-- What the decoders read back from an information byte that the encoders wrote.
use pwdmanlib.Base.{
  ℕ, ◌/◌, ◌%◌, ◌<◌, ◌≡◌, ◌≢◌, ◌↔◌, sym, ap, ◌∙◌, arith, Bytes, ◌==◌, ltb, if◌then◌else◌,
}
use pwdmanlib.Fawkes.{
  set_proto, set_method, encode_reqmts, reqmts_code, proto_code, method_code, encode_proto,
  encode_method, Code, invalid, valid, decode_proto, decode_method, decode_reqmts,
}
use pwdmanlib.Fawkes.Fields.{
  set_proto_lem, set_method_lem, encode_reqmts_lem, two_bits, proto_code-lt, method_code-le,
  reqmts_code-le,
}

-- A field as its decoder reports it: 0 stands for what is missing or not supported.
abbrev pub report : ℕ → ℕ → Code
report limit n = if n == 0 then invalid else if ltb limit n then invalid else valid n

decode_proto-eq : (info : ℕ) → info < 256 → decode_proto info ≡ report 3 (info / 4 % 4)
unfolding decode_proto
decode_proto-eq info h = ground (arith, two_bits info h)

decode_method-eq : (info : ℕ) → decode_method info ≡ report 8 (info / 16)
unfolding decode_method
decode_method-eq info = ground arith

decode_reqmts-eq : (info : ℕ) → info < 256 → decode_reqmts info ≡ report 1 (info % 4)
unfolding decode_reqmts
decode_reqmts-eq info h = ground (arith, two_bits info h)

-- Bytes that agree on a field decode it alike.
same_proto : (a b : ℕ) → a < 256 → b < 256 → a / 4 % 4 ≡ b / 4 % 4 → decode_proto a ≡ decode_proto b
same_proto a b h k e = decode_proto-eq a h ∙ ap (report 3) e ∙ sym (decode_proto-eq b k)

same_method : (a b : ℕ) → a / 16 ≡ b / 16 → decode_method a ≡ decode_method b
same_method a b e = decode_method-eq a ∙ ap (report 8) e ∙ sym (decode_method-eq b)

same_reqmts : (a b : ℕ) → a < 256 → b < 256 → a % 4 ≡ b % 4 → decode_reqmts a ≡ decode_reqmts b
same_reqmts a b h k e = decode_reqmts-eq a h ∙ ap (report 1) e ∙ sym (decode_reqmts-eq b k)

-- After `encodeProto` on any byte, `decodeProto` reports the code of the protocol text (invalid for
-- a text that is no supported protocol), while the method and the verdict read as before.
pub decode_proto-encode_proto :
    (proto : Bytes) (info : ℕ)
    → info < 256
    → (decode_proto (encode_proto proto info) ≡ report 3 (proto_code proto))
      × (decode_method (encode_proto proto info) ≡ decode_method info)
      × (decode_reqmts (encode_proto proto info) ≡ decode_reqmts info)
unfolding encode_proto
decode_proto-encode_proto proto info h =
    let small = proto_code-lt proto in
    let e = set_proto_lem info (proto_code proto) h small in
    let byte : set_proto info (proto_code proto) < 256 = omega arith in
    (
      decode_proto-eq _ byte
          ∙ ap (report 3) {x = set_proto info (proto_code proto) / 4 % 4} {y = proto_code proto}
              (omega arith),
      same_method _ info (omega arith),
      same_reqmts _ info byte h (omega arith),
    )

-- After `encodeMethod` on any byte, `decodeMethod` reports the code of the method text (invalid for
-- a text that is no supported method), while the protocol and the verdict read as before.
pub decode_method-encode_method :
    (method : Bytes) (info : ℕ)
    → info < 256
    → (decode_method (encode_method method info) ≡ report 8 (method_code method))
      × (decode_proto (encode_method method info) ≡ decode_proto info)
      × (decode_reqmts (encode_method method info) ≡ decode_reqmts info)
unfolding encode_method
decode_method-encode_method method info h =
    let small = method_code-le method in
    let e = set_method_lem info (method_code method) h (omega arith) in
    let byte : set_method info (method_code method) < 256 = omega arith in
    (
      decode_method-eq _
          ∙ ap (report 8) {x = set_method info (method_code method) / 16} {y = method_code method}
              (omega arith),
      same_proto _ info byte h (omega arith),
      same_reqmts _ info byte h (omega arith),
    )

passes :
    (info : ℕ)
    → info < 256
    → reqmts_code info ≡ (
        if info / 4 % 4 == 0
        then 0
        else if info / 16 == 0
        then 0
        else if ltb 8 (info / 16)
        then 0
        else 1)
unfolding reqmts_code
passes info h = ground (arith, two_bits info h)

-- `encodeReqmts` marks a byte as passed exactly when both its protocol and its method decode, and
-- leaves the two fields as they were.
pub decode_reqmts-encode_reqmts :
    (info : ℕ)
    → info < 256
    → ((decode_reqmts (encode_reqmts info) ≡ valid 1)
        ↔ ((decode_proto info ≢ invalid) × (decode_method info ≢ invalid)))
      × (decode_proto (encode_reqmts info) ≡ decode_proto info)
      × (decode_method (encode_reqmts info) ≡ decode_method info)
decode_reqmts-encode_reqmts info h =
    let small = reqmts_code-le info in
    let e = encode_reqmts_lem info h in
    let byte : encode_reqmts info < 256 = omega arith in
    (
      ground (
        arith,
        decode_reqmts-eq _ byte,
        decode_proto-eq info h,
        decode_method-eq info,
        passes info h,
      ),
      same_proto _ info byte h (omega arith),
      same_method _ info (omega arith),
    )
