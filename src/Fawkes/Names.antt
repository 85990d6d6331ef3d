-- ===== src/Fawkes/Names.antt =====
-- Which texts the two encoders of names support, against one table for each.
use pwdmanlib.Base.{
  ℕ, zero, suc, ◌+◌, ◌<◌, ◌≡◌, ◌≢◌, ◌↔◌, refl, strcmp, strcmp_iff, strncmp-eq-strcmp, get_elem?,
  List, [], ◌∷◌, some, arith, Bytes, codes, All, if◌then◌else◌,
}
use pwdmanlib.Fawkes.{proto_code, method_code}

-- The texts that `encodeProto` and `encodeMethod` support, in the order of their codes.
abbrev supported_protos : List Bytes
supported_protos = codes "HTTP/1.0" ∷ codes "HTTP/1.1" ∷ codes "HTTP/2.0" ∷ []

abbrev pub supported_methods : List Bytes
supported_methods =
    codes "GET"
    ∷ codes "HEAD"
    ∷ codes "POST"
    ∷ codes "PUT"
    ∷ codes "DELETE"
    ∷ codes "CONNECT"
    ∷ codes "OPTIONS"
    ∷ codes "TRACE"
    ∷ []

-- The place of a text in a table, counted from `k`; 0 if it is not there.
first_match : List Bytes → ℕ → Bytes → ℕ
first_match [] k m = 0
first_match (n ∷ ns) k m = if strcmp m n then k else first_match ns (suc k) m

abbrev Distinct : List Bytes → Type 0
Distinct [] = Unit
Distinct (n ∷ ns) = All (λ m. n ≢ m) ns × Distinct ns

first_match_bounds :
    (ns : List Bytes) (b : ℕ) (m : Bytes)
    → first_match ns (suc b) m ≢ 0
    → b < first_match ns (suc b) m
unfolding first_match
first_match_bounds [] b m h = absurd (h refl)
first_match_bounds (n ∷ ns) b m h = ground (arith, first_match_bounds ns (suc b) m)

All-ne : (n : Bytes) (ns : List Bytes) (k : ℕ) → All (λ m. n ≢ m) ns → get_elem? ns k ≢ some n
All-ne n [] k h = λ e. cc
All-ne n (m ∷ ns) zero (h, hs) = λ e. ground (arith, h)
All-ne n (m ∷ ns) (suc k) (h, hs) = All-ne n ns k hs

first_match_iff :
    (ns : List Bytes) (b k : ℕ) (m : Bytes)
    → Distinct ns
    → (first_match ns (suc b) m ≡ suc (b + k)) ↔ (get_elem? ns k ≡ some m)
unfolding first_match
first_match_iff [] b k m d = (λ h. absurd (omega arith), λ h. cc)
first_match_iff (n ∷ ns) b zero m (h, d) =
    ground (arith, strcmp_iff m n, first_match_bounds ns (suc b) m)
first_match_iff (n ∷ ns) b (suc k) m (h, d) =
    ground (arith, strcmp_iff m n, first_match_iff ns (suc b) k m d, All-ne n ns k h)

proto_code-eq : (proto : Bytes) → proto_code proto ≡ first_match supported_protos 1 proto
unfolding proto_code first_match
proto_code-eq s = rw (
  strncmp-eq-strcmp s (codes "HTTP/1.0") 9 (omega arith),
  strncmp-eq-strcmp s (codes "HTTP/1.1") 9 (omega arith),
  strncmp-eq-strcmp s (codes "HTTP/2.0") 9 (omega arith),
)

method_code-eq : (method : Bytes) → method_code method ≡ first_match supported_methods 1 method
unfolding method_code first_match
method_code-eq s = rw (
  strncmp-eq-strcmp s (codes "GET") 4 (omega arith),
  strncmp-eq-strcmp s (codes "HEAD") 5 (omega arith),
  strncmp-eq-strcmp s (codes "POST") 5 (omega arith),
  strncmp-eq-strcmp s (codes "PUT") 4 (omega arith),
  strncmp-eq-strcmp s (codes "DELETE") 7 (omega arith),
  strncmp-eq-strcmp s (codes "CONNECT") 8 (omega arith),
  strncmp-eq-strcmp s (codes "OPTIONS") 8 (omega arith),
  strncmp-eq-strcmp s (codes "TRACE") 6 (omega arith),
)

protos-Distinct : Distinct supported_protos
protos-Distinct = ground arith

methods-Distinct : Distinct supported_methods
methods-Distinct = ground arith

-- A protocol text gets the code `k + 1` exactly when it is the supported text at place `k`, byte for
-- byte: neither a prefix of one nor a longer text passes.
proto_code_iff :
    (proto : Bytes) (k : ℕ)
    → (proto_code proto ≡ suc k) ↔ (get_elem? supported_protos k ≡ some proto)
proto_code_iff proto k =
    rw (proto_code-eq proto)
      (ground (arith, first_match_iff supported_protos 0 k proto protos-Distinct))

-- A method text gets the code `k + 1` exactly when it is the supported text at place `k`, byte for
-- byte: neither a prefix of one nor a longer text passes.
pub method_code_iff :
    (method : Bytes) (k : ℕ)
    → (method_code method ≡ suc k) ↔ (get_elem? supported_methods k ≡ some method)
method_code_iff method k =
    rw (method_code-eq method)
      (ground (arith, first_match_iff supported_methods 0 k method methods-Distinct))
