-- ===== src/Validation/Tests.antt =====
-- The validation of concrete certificates.
use pwdmanlib.Base.{ℕ, ◌≡◌, ◌≢◌, ◌↔◌, refl, Option, some, none, List, [], ◌∷◌, ◌++◌, Bytes, codes}
use pwdmanlib.Validation.{
  Verdict, match_found, no_san_present, malformed_certificate, Cert, CommonName, common_name,
  no_entry, GeneralName, dns, other, validate_hostname,
}
use pwdmanlib.Validation.Sound.{IsCertified, validate_hostname-match_found}

abbrev site : Bytes
site = codes "devopsec.net"

abbrev names : List GeneralName
names = other ∷ dns (codes "mail.devopsec.net") ∷ dns (codes "DEVOPSEC.net") ∷ []

abbrev cert : Cert
cert = record { subject = no_entry; san = some names }

validate_hostname_nul_test :
    validate_hostname (some site) (
      some
        (record { subject = common_name (codes "devopsec.net" ++ 0 ∷ codes ".evil"); san = none }))
    ≡ malformed_certificate
unfolding validate_hostname pwdmanlib.Validation.matches_common_name pwdmanlib.Validation.embeds_nul
    pwdmanlib.Base.c_str
validate_hostname_nul_test = refl

validate_hostname-match_found_example :
    (validate_hostname (some site) (some cert) ≡ match_found)
    ↔ IsCertified site cert.san cert.subject
validate_hostname-match_found_example = validate_hostname-match_found site cert
