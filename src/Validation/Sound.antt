-- ===== src/Validation/Sound.antt =====
-- When `validate_hostname` finds a match.
use pwdmanlib.Base.{
  ◌≡◌, ◌≢◌, ◌↔◌, inl, inr, refl, sym, ap, ◌∙◌, true, false, Option, none, some, List, [], ◌∷◌, ◌++◌,
  map, length, All, Bytes, to_lower, strcasecmp, strcasecmp_iff, c_str, arith, zero, suc,
  Bool-cases,
}
use pwdmanlib.Validation.Extension.{fall_back-scan}
use pwdmanlib.Validation.{
  match_found, CommonName, no_location, no_entry, no_data, common_name, GeneralName, dns, other,
  Cert, embeds_nul, matches_common_name, scan_names, matches_subject_alternative_name, fall_back,
  validate_hostname,
}

-- A string without a NUL inside.
abbrev NoNul : Bytes → Type 0
NoNul name = All (λ c. c ≢ 0) name

c_str-length :
    (name : Bytes) → (length name ≡ length (c_str name)) → NoNul name × (c_str name ≡ name)
unfolding c_str
c_str-length [] h = (tt, refl)
c_str-length (zero ∷ name) h = absurd (omega arith)
c_str-length (suc c ∷ name) h =
    let (p, e) = c_str-length name (omega arith) in ((omega arith, p), ap (λ s. suc c ∷ s) e)

c_str-NoNul : (name : Bytes) → NoNul name → c_str name ≡ name
unfolding c_str
c_str-NoNul [] h = refl
c_str-NoNul (zero ∷ name) (n, h) = absurd (n refl)
c_str-NoNul (suc c ∷ name) (n, h) = ap (λ s. suc c ∷ s) (c_str-NoNul name h)

embeds_nul_iff : (name : Bytes) → (embeds_nul name ≡ false) ↔ NoNul name
unfolding embeds_nul
embeds_nul_iff name =
    (λ h. (c_str-length name (ground arith)).0, λ h. rw (c_str-NoNul name h) (ground arith))

-- The name stands for the host: no NUL inside, and equal but for the case of letters.
pub record IsNameOf (hostname name : Bytes) : Type 0 where
  pub clean : NoNul name
  pub same : map to_lower hostname ≡ map to_lower name

-- What both functions test of a name.
name-test :
    (hostname name : Bytes)
    → ((embeds_nul name ≡ false) × (strcasecmp hostname (c_str name) ≡ true))
      ↔ IsNameOf hostname name
name-test hostname name = (
  λ h.
      let clean = (embeds_nul_iff name).0 h.0 in
      record {
        clean = clean;
        same =
            (strcasecmp_iff hostname name).0
              (ap (strcasecmp hostname) (sym (c_str-NoNul name clean)) ∙ h.1);
      },
  λ r. (
    (embeds_nul_iff name).1 r.clean,
    ap (strcasecmp hostname) (c_str-NoNul name r.clean) ∙ (strcasecmp_iff hostname name).1 r.same,
  ),
)

-- A name that the loop passes over: no DNS name, or one with no NUL inside.
abbrev IsPassed : GeneralName → Type 0
IsPassed other = Unit
IsPassed (dns name) = NoNul name

-- The host's name among the names, and nothing before it that ends the search.
pub record Found (hostname : Bytes) (names : List GeneralName) : Type 0 where
  pub before : List GeneralName
  pub name : Bytes
  pub after : List GeneralName
  pub place : names ≡ before ++ dns name ∷ after
  pub passed : All IsPassed before
  pub is_name : IsNameOf hostname name

Found-cons :
    (hostname : Bytes) (n : GeneralName) (names : List GeneralName)
    → IsPassed n
    → Found hostname names
    → Found hostname (n ∷ names)
Found-cons hostname n names p f = record {
  before = n ∷ f.before;
  name = f.name;
  after = f.after;
  place = ap (λ ns. n ∷ ns) f.place;
  passed = (p, f.passed);
  is_name = f.is_name;
}

scan_names_sound :
    (hostname : Bytes) (names : List GeneralName)
    → scan_names hostname names ≡ match_found
    → Found hostname names
unfolding scan_names
scan_names_sound hostname [] h = cc
scan_names_sound hostname (other ∷ names) h =
    Found-cons hostname other names tt (scan_names_sound hostname names h)
scan_names_sound hostname (dns name ∷ names) h = elim (Bool-cases (embeds_nul name)) [
  | inl bad ↦ cc (rw bad at h)
  | inr clean ↦ (elim (Bool-cases (strcasecmp hostname (c_str name))) [
    | inl same ↦ record {
      before = [];
      name = name;
      after = names;
      place = refl;
      passed = tt;
      is_name = (name-test hostname name).0 (clean, same);
    }
    | inr differs ↦
        Found-cons hostname (dns name) names ((embeds_nul_iff name).0 clean)
          (scan_names_sound hostname names (rw (clean, differs) at h))
  ])
]

scan_names_complete :
    (hostname name : Bytes) (before after : List GeneralName)
    → All IsPassed before
    → IsNameOf hostname name
    → scan_names hostname (before ++ dns name ∷ after) ≡ match_found
unfolding scan_names
scan_names_complete hostname name [] after p h =
    let (clean, same) = (name-test hostname name).1 h in rw (clean, same)
scan_names_complete hostname name (other ∷ before) after (_, p) h =
    scan_names_complete hostname name before after p h
scan_names_complete hostname name (dns n ∷ before) after (c, p) h =
    rw ((embeds_nul_iff n).1 c, scan_names_complete hostname name before after p h)
      (elim (Bool-cases (strcasecmp hostname (c_str n))) [ inl e ↦ rw e | inr e ↦ rw e ])

-- The names of the extension hold the host's name, or there is no extension and the common name is
-- the host's name.
abbrev pub IsCertified : Bytes → Option (List GeneralName) → CommonName → Type 0
IsCertified hostname (some names) subject = Found hostname names
IsCertified hostname none subject =
    (name : Bytes) × (subject ≡ common_name name) × IsNameOf hostname name

common_name_of : Bytes → CommonName → Bytes
common_name_of d (common_name name) = name
common_name_of d no_location = d
common_name_of d no_entry = d
common_name_of d no_data = d

certified :
    (hostname name name' : Bytes)
    → common_name name ≡ common_name name'
    → IsNameOf hostname name'
    → matches_common_name hostname (common_name name) ≡ match_found
unfolding matches_common_name common_name_of
certified hostname name name' e h =
    let same : name ≡ name' = ap (common_name_of []) e in
    let (clean, equal) = (name-test hostname name').1 h in rw (same, clean, equal)

matches_common_name_iff :
    (hostname : Bytes) (subject : CommonName)
    → (matches_common_name hostname subject ≡ match_found) ↔ IsCertified hostname none subject
unfolding matches_common_name
matches_common_name_iff hostname no_location = (λ h. cc, λ h. cc)
matches_common_name_iff hostname no_entry = (λ h. cc, λ h. cc)
matches_common_name_iff hostname no_data = (λ h. cc, λ h. cc)
matches_common_name_iff hostname (common_name name) = (
  λ h. (name, refl, (name-test hostname name).0 (ground arith)),
  λ h. let (name', e, is_name) = h in certified hostname name name' e is_name,
)

-- `validate_hostname` reports a match exactly for a certificate that names the host: by a DNS name of
-- its extension, with no NUL inside it or inside a DNS name before it, or, only where there is no
-- extension, by a common name with no NUL inside.
pub validate_hostname-match_found :
    (hostname : Bytes) (cert : Cert)
    → (validate_hostname (some hostname) (some cert) ≡ match_found)
      ↔ IsCertified hostname cert.san cert.subject
unfolding validate_hostname
validate_hostname-match_found hostname cert = by_san cert.san
  where
    by_san :
        (san : Option (List GeneralName))
        → (fall_back hostname cert.subject (matches_subject_alternative_name hostname san)
            ≡ match_found)
          ↔ IsCertified hostname san cert.subject
    by_san none = matches_common_name_iff hostname cert.subject
    by_san (some names) = rw (fall_back-scan hostname cert.subject names) (
      scan_names_sound hostname names,
      λ f.
          ap (scan_names hostname) f.place
          ∙ scan_names_complete hostname f.name f.before f.after f.passed f.is_name,
    )
