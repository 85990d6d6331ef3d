-- ===== src/Validation.antt =====
-- src/validation/openssl_validation.h: is the certificate that of the expected host? OpenSSL parses
-- it; what its calls return on the certificate is the record `Cert`.
mod Tests
pub mod Sound
mod Extension
use pwdmanlib.Base.{
  ℕ, ◌==◌, Bool, true, false, not, if◌then◌else◌, Option, none, some, List, [], ◌∷◌, length, Bytes,
  strcasecmp, c_str,
}

-- `HostnameValidationResult`.
pub data Verdict : Type 0 where
  match_found match_not_found no_san_present malformed_certificate error : Verdict

-- What the calls on the subject come to: there is no common name, or no entry for it, or no data in
-- the entry, or the data is an ASN.1 string: its bytes, as many as `ASN1_STRING_length` says.
pub data CommonName : Type 0 where
  no_location no_entry no_data : CommonName
  common_name : Bytes → CommonName

-- A `GENERAL_NAME`, by its type.
pub data GeneralName : Type 0 where
  dns : Bytes → GeneralName
  other : GeneralName

-- `san` is `none` where `X509_get_ext_d2i` gives NULL: for a certificate without a subject alternative
-- name extension, and also for an extension that is repeated or cannot be decoded.
pub record Cert : Type 0 where
  pub subject : CommonName
  pub san : Option (List GeneralName)

-- `ASN1_STRING_length(s) != strlen(ASN1_STRING_data(s))`: a NUL is embedded.
pub embeds_nul : Bytes → Bool
embeds_nul name = not (length name == length (c_str name))

pub matches_common_name : Bytes → CommonName → Verdict
matches_common_name hostname no_location = error
matches_common_name hostname no_entry = error
matches_common_name hostname no_data = error
matches_common_name hostname (common_name name) =
    if embeds_nul name
    then malformed_certificate
    else if strcasecmp hostname (c_str name)
    then match_found
    else match_not_found

-- The loop over the names; a `break` ends it.
pub scan_names : Bytes → List GeneralName → Verdict
scan_names hostname [] = match_not_found
scan_names hostname (other ∷ names) = scan_names hostname names
scan_names hostname (dns name ∷ names) =
    if embeds_nul name
    then malformed_certificate
    else if strcasecmp hostname (c_str name)
    then match_found
    else scan_names hostname names

pub matches_subject_alternative_name : Bytes → Option (List GeneralName) → Verdict
unfolding scan_names
matches_subject_alternative_name hostname none = no_san_present
matches_subject_alternative_name hostname (some names) = scan_names hostname names

-- The step of `validate_hostname` behind the first search.
pub fall_back : Bytes → CommonName → Verdict → Verdict
fall_back hostname subject no_san_present = matches_common_name hostname subject
fall_back hostname subject v = v

-- A NULL argument is `none`.
pub validate_hostname : Option Bytes → Option Cert → Verdict
unfolding fall_back matches_subject_alternative_name
validate_hostname none cert = error
validate_hostname (some hostname) none = error
validate_hostname (some hostname) (some cert) =
    fall_back hostname cert.subject (matches_subject_alternative_name hostname cert.san)
