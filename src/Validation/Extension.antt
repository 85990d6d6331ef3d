-- ===== src/Validation/Extension.antt =====
-- The verdicts that `validate_hostname` can reach, and which names it consults.
use pwdmanlib.Base.{◌≡◌, ◌≢◌, sym, ◌∙◌, Option, none, some, List, [], ◌∷◌, Bytes, arith}
use pwdmanlib.Validation.{
  no_san_present, error, CommonName, no_location, no_entry, no_data, common_name, GeneralName, dns,
  other, Cert, matches_common_name, scan_names, matches_subject_alternative_name, fall_back,
  validate_hostname,
}

scan_names-verdict :
    (hostname : Bytes) (names : List GeneralName)
    → (scan_names hostname names ≢ no_san_present) × (scan_names hostname names ≢ error)
unfolding scan_names
scan_names-verdict hostname [] = (λ h. cc, λ h. cc)
scan_names-verdict hostname (other ∷ names) = scan_names-verdict hostname names
scan_names-verdict hostname (dns name ∷ names) = ground (arith, scan_names-verdict hostname names)

-- What follows the search of the names is that search's verdict.
pub fall_back-scan :
    (hostname : Bytes) (subject : CommonName) (names : List GeneralName)
    → fall_back hostname subject (scan_names hostname names) ≡ scan_names hostname names
unfolding fall_back
fall_back-scan hostname subject names = ground (arith, scan_names-verdict hostname names)

matches_common_name-verdict :
    (hostname : Bytes) (subject : CommonName)
    → matches_common_name hostname subject ≢ no_san_present
unfolding matches_common_name
matches_common_name-verdict hostname no_location = λ h. cc
matches_common_name-verdict hostname no_entry = λ h. cc
matches_common_name-verdict hostname no_data = λ h. cc
matches_common_name-verdict hostname (common_name name) = ground arith

verdict : (host : Option Bytes) (cert : Option Cert) → validate_hostname host cert ≢ no_san_present
unfolding validate_hostname
verdict none cert = λ h. cc
verdict (some hostname) none = λ h. cc
verdict (some hostname) (some cert) = by_san cert.san
  where
    by_san :
        (san : Option (List GeneralName))
        → fall_back hostname cert.subject (matches_subject_alternative_name hostname san)
          ≢ no_san_present
    by_san none = matches_common_name-verdict hostname cert.subject
    by_san (some names) = λ h.
        (scan_names-verdict hostname names).0 (sym (fall_back-scan hostname cert.subject names) ∙ h)

-- With an extension the common name is never consulted: certificates that differ in it get the same
-- verdict. And no caller ever sees the verdict that there is no extension.
validate_hostname_san :
    (hostname : Bytes) (names : List GeneralName) (subject subject' : CommonName)
    → (validate_hostname (some hostname) (some (record { subject = subject; san = some names }))
        ≡ validate_hostname
            (some hostname)
            (some (record { subject = subject'; san = some names })))
      × ((host : Option Bytes) (cert : Option Cert) → validate_hostname host cert ≢ no_san_present)
unfolding validate_hostname
validate_hostname_san hostname names subject subject' =
    (fall_back-scan hostname subject names ∙ sym (fall_back-scan hostname subject' names), verdict)
