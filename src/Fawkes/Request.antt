-- ===== src/Fawkes/Request.antt =====
-- The information byte of a whole request, and the digits that `printByteDebug` shows of it.
use pwdmanlib.Base.{
  ℕ, suc, ◌+◌, ◌*◌, ◌<◌, ◌≡◌, ◌≢◌, ◌↔◌, refl, ap, ◌∙◌, true, codes, strncmp, List, [], ◌∷◌, ◌==◌,
  Bool, arith, Bytes, passes_below, passes_below_sound, ==_iff, get_elem?, some, if◌then◌else◌,
}
use pwdmanlib.Fawkes.{
  proto_code, method_code, encode_proto, encode_method, encode_reqmts, decode_proto, decode_method,
  decode_reqmts, valid, print_byte_debug,
}
use pwdmanlib.Fawkes.Fields.{set_proto_lem, set_method_lem, proto_code-lt, method_code-le}
use pwdmanlib.Fawkes.Laws.{
  report, decode_proto-encode_proto, decode_method-encode_method, decode_reqmts-encode_reqmts,
}
use pwdmanlib.Fawkes.Names.{supported_methods, method_code_iff}

-- `parseRequest`: from 0, the protocol, then the method, then the check.
pub request_info : Bytes → Bytes → ℕ
request_info method proto = encode_reqmts (encode_method method (encode_proto proto 0))

encode_proto-lt : (proto : Bytes) → encode_proto proto 0 < 256
unfolding encode_proto
encode_proto-lt proto = omega (
  arith,
  set_proto_lem 0 (proto_code proto) (omega arith) (proto_code-lt proto),
  proto_code-lt proto,
)

encode_method-lt : (method : Bytes) (info : ℕ) → info < 256 → encode_method method info < 256
unfolding encode_method
encode_method-lt method info h =
    let small = method_code-le method in
    omega (arith, set_method_lem info (method_code method) h (omega arith))

-- The two names in a request's byte decode to their own codes, whatever the other one is.
request_info_fields :
    (method proto : Bytes)
    → (decode_method (request_info method proto) ≡ report 8 (method_code method))
      × (decode_proto (request_info method proto) ≡ report 3 (proto_code proto))
unfolding request_info
request_info_fields method proto =
    let b = encode_proto-lt proto in
    let c = encode_method-lt method (encode_proto proto 0) b in
    let p = decode_proto-encode_proto proto 0 (omega arith) in
    let m = decode_method-encode_method method (encode_proto proto 0) b in
    let r = decode_reqmts-encode_reqmts (encode_method method (encode_proto proto 0)) c in
    (r.2 ∙ m.0, r.1 ∙ m.1 ∙ p.0)

request_info-verdict :
    (method proto : Bytes)
    → (decode_reqmts (request_info method proto) ≡ valid 1)
      ↔ ((method_code method ≢ 0) × (proto_code proto ≢ 0))
unfolding request_info
request_info-verdict method proto =
    let b = encode_proto-lt proto in
    let info = encode_method method (encode_proto proto 0) in
    let c = encode_method-lt method (encode_proto proto 0) b in
    ground (
      arith,
      decode_proto-encode_proto proto 0 (omega arith),
      decode_method-encode_method method (encode_proto proto 0) b,
      decode_reqmts-encode_reqmts info c,
      proto_code-lt proto,
      method_code-le method,
    )

-- The byte of a request passes the requirements check exactly when its method and its protocol are
-- both supported, and then the method decodes to `k + 1` exactly for the supported method at `k`.
pub request_info_passes :
    (method proto : Bytes)
    → ((decode_reqmts (request_info method proto) ≡ valid 1)
        ↔ ((method_code method ≢ 0) × (proto_code proto ≢ 0)))
      × ((k : ℕ)
          → (decode_method (request_info method proto) ≡ valid (suc k))
            ↔ (get_elem? supported_methods k ≡ some method))
request_info_passes method proto = (
  request_info-verdict method proto,
  λ k.
      ground
        (arith, request_info_fields method proto, method_code_iff method k, method_code-le method),
)

-- The number that a list of binary digits spells, the highest digit first.
abbrev pub spell : ℕ → List Bool → ℕ
spell n [] = n
spell n (b ∷ bs) = spell (n * 2 + (if b then 1 else 0)) bs

print_table : passes_below 256 (λ byte. spell 0 (print_byte_debug byte) == byte) ≡ true
unfolding passes_below print_byte_debug
print_table = refl

-- The eight digits that `printByteDebug` prints spell the byte.
spell-print_byte_debug : (byte : ℕ) → byte < 256 → spell 0 (print_byte_debug byte) ≡ byte
spell-print_byte_debug byte h = (==_iff _ _).0 (passes_below_sound 256 _ byte print_table h)

-- What the three decoders say of a request in HTTP/1.0 with the supported method at `k`.
pub request_info_supported :
    (k : ℕ) (method : Bytes)
    → get_elem? supported_methods k ≡ some method
    → (decode_reqmts (request_info method (codes "HTTP/1.0")) ≡ valid 1)
      × (decode_proto (request_info method (codes "HTTP/1.0")) ≡ valid 1)
      × (decode_method (request_info method (codes "HTTP/1.0")) ≡ valid (suc k))
request_info_supported k method h =
    let proto : proto_code (codes "HTTP/1.0") ≡ 1 = unfold proto_code strncmp in refl in
    let code : method_code method ≡ suc k = (method_code_iff method k).1 h in
    (
      (request_info-verdict method (codes "HTTP/1.0")).1
          (λ z. omega (arith, code, z), λ z. omega (arith, proto, z)),
      (request_info_fields method (codes "HTTP/1.0")).1 ∙ ap (report 3) proto,
      ((request_info_passes method (codes "HTTP/1.0")).1 k).1 h,
    )
