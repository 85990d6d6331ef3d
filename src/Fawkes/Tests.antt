-- ===== src/Fawkes/Tests.antt =====
-- The information byte on concrete requests.
use pwdmanlib.Base.{ℕ, suc, ◌≡◌, ◌≢◌, ◌↔◌, refl, get_elem?, some, codes, arith}
use pwdmanlib.Fawkes.{
  decode_proto, decode_method, decode_reqmts, encode_method, proto_code, method_code, valid,
}
use pwdmanlib.Fawkes.Laws.{report, decode_method-encode_method}
use pwdmanlib.Fawkes.Names.{supported_methods}
use pwdmanlib.Fawkes.Request.{request_info, request_info_passes}

decode_method_test : decode_method 57 ≡ valid 3
unfolding decode_method
decode_method_test = refl

decode_method-encode_method_example :
    (decode_method (encode_method (codes "PUT") 9) ≡ report 8 (method_code (codes "PUT")))
    × (decode_proto (encode_method (codes "PUT") 9) ≡ decode_proto 9)
    × (decode_reqmts (encode_method (codes "PUT") 9) ≡ decode_reqmts 9)
decode_method-encode_method_example = decode_method-encode_method (codes "PUT") 9 (omega arith)

request_info_passes_example :
    ((decode_reqmts (request_info (codes "GET") (codes "HTTP/1.1")) ≡ valid 1)
      ↔ ((method_code (codes "GET") ≢ 0) × (proto_code (codes "HTTP/1.1") ≢ 0)))
    × ((k : ℕ)
        → (decode_method (request_info (codes "GET") (codes "HTTP/1.1")) ≡ valid (suc k))
          ↔ (get_elem? supported_methods k ≡ some (codes "GET")))
request_info_passes_example = request_info_passes (codes "GET") (codes "HTTP/1.1")
