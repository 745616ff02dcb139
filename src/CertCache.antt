-- ===== src/CertCache.antt =====
-- services/certcache/certcache.go: the cache of server certificates, and what a session and the
-- dictionary are told of a certificate. The cleaning locks each holder, which is not modelled.
pub mod Cleaning
pub mod Attaching
pub mod Examples
use Prim.Native.Char.{Char, code}
use packetd.Base.{
  ℕ, ◌+◌, ◌/◌, String, Bool, true, false, Option, none, some, List, [], ◌∷◌, ◌==◌, leb,
  if◌then◌else◌,
}
use packetd.Base.Text.{join, join_onto, is_empty_text}
use packetd.Base.Keys.{string_key}
use packetd.Base.Table.{Table, get, put, remove}
use packetd.Base.Sweep.{sweep}
use packetd.Dispatch.State.{World, Value, text, second}
use packetd.Dispatch.Session.{get_conntrack_id}
use packetd.Dispatch.SessionTable.{dict_add}
use packetd.Dispatch.Attachments.{attach}

-- The fields of `pkix.Name` and `x509.Certificate` that the service reads.
pub record CertName : Type 0 where
  pub common_name : String
  pub serial_number : String
  pub country : List String
  pub organization : List String
  pub organizational_unit : List String
  pub locality : List String
  pub province : List String
  pub street_address : List String
  pub postal_code : List String

pub record Certificate : Type 0 where
  pub subject : CertName
  pub issuer : CertName
  pub dns_names : List String

-- `CertificateHolder`; times are nanoseconds, so that `Unix` is a division.
pub record CertificateHolder : Type 0 where
  pub creation_time : ℕ
  pub certificate : Certificate
  pub available : Bool

abbrev pub CertificateTable : Type 0
CertificateTable = Table String CertificateHolder

abbrev pub clean_timeout : ℕ
clean_timeout = 86400

-- `FindCertificate`; `none` is the status false.
unfoldable pub find_certificate : CertificateTable → String → Option CertificateHolder
find_certificate table finder = get table finder

-- `InsertCertificate`
unfoldable pub insert_certificate : CertificateTable → String → CertificateHolder → CertificateTable
insert_certificate table finder holder = elim (get table finder) [
  | none ↦ put table finder holder
  | some old ↦ put (remove table finder) finder holder
]

-- `RemoveCertificate`
unfoldable pub remove_certificate : CertificateTable → String → CertificateTable
remove_certificate table finder = remove table finder

-- The holder has reached the timeout: the test of the loop does not hold.
unfoldable pub is_old : ℕ → CertificateHolder → Bool
is_old now holder = leb (holder.creation_time / second + clean_timeout) (now / second)

-- `cleanCertificateTable`
unfoldable pub clean_certificate_table : ℕ → CertificateTable → CertificateTable
unfolding is_old
clean_certificate_table now table = sweep (is_old now) table

abbrev dash : Char
dash = "-"

-- `strings.Replace(value, ",", "-", -1)`
unfoldable pub replace_commas : String → String
replace_commas String.[] = String.[]
replace_commas (String.◌∷◌ c s) = String.◌∷◌ (if code c == b',' then dash else c) (replace_commas s)

-- `setSessionEntry`
unfoldable pub set_session_entry : World → ℕ → String → String → ℕ → World
unfolding replace_commas
set_session_entry w sess field value ctid =
    let output = text (replace_commas value) in
    if is_empty_text value then w else attach (dict_add w ctid field output) sess field output

-- `setSessionList`
unfoldable pub set_session_list : World → ℕ → String → List String → ℕ → World
unfolding set_session_entry
set_session_list w sess field [] ctid = w
set_session_list w sess field (first ∷ others) ctid =
    let buffer = join (first ∷ others) in
    if is_empty_text buffer then w else set_session_entry w sess field buffer ctid

-- The two kinds of value that a field is set to.
pub data Part : Type 0 where
  one : String → Part
  several : List String → Part

unfoldable pub set_part : World → ℕ → ℕ → String → Part → World
unfolding set_session_list
set_part w sess ctid field (one value) = set_session_entry w sess field value ctid
set_part w sess ctid field (several values) = set_session_list w sess field values ctid

unfoldable pub set_parts : World → ℕ → ℕ → List (String × Part) → World
unfolding set_part
set_parts w sess ctid [] = w
set_parts w sess ctid ((field, part) ∷ parts) =
    set_parts (set_part w sess ctid field part) sess ctid parts

-- The calls of `AttachCertificateToSession`, in their order.
abbrev pub certificate_parts : Certificate → List (String × Part)
certificate_parts c =
    ("certificate_subject_cn", one c.subject.common_name)
    ∷ ("certificate_subject_sn", one c.subject.serial_number)
    ∷ ("certificate_subject_c", several c.subject.country)
    ∷ ("certificate_subject_o", several c.subject.organization)
    ∷ ("certificate_subject_ou", several c.subject.organizational_unit)
    ∷ ("certificate_subject_l", several c.subject.locality)
    ∷ ("certificate_subject_p", several c.subject.province)
    ∷ ("certificate_subject_sa", several c.subject.street_address)
    ∷ ("certificate_subject_pc", several c.subject.postal_code)
    ∷ ("certificate_subject_san", several c.dns_names)
    ∷ ("certificate_issuer_cn", one c.issuer.common_name)
    ∷ ("certificate_issuer_sn", one c.issuer.serial_number)
    ∷ ("certificate_issuer_c", several c.issuer.country)
    ∷ ("certificate_issuer_o", several c.issuer.organization)
    ∷ ("certificate_issuer_ou", several c.issuer.organizational_unit)
    ∷ ("certificate_issuer_l", several c.issuer.locality)
    ∷ ("certificate_issuer_p", several c.issuer.province)
    ∷ ("certificate_issuer_sa", several c.issuer.street_address)
    ∷ ("certificate_issuer_pc", several c.issuer.postal_code)
    ∷ ("cert_dns_names", one (join_onto c.subject.common_name c.dns_names))
    ∷ []

-- `AttachCertificateToSession`, with the certificate as an attachment's value. The event that it
-- logs at the end is output.
unfoldable pub attach_certificate_to_session : World → ℕ → Value → Certificate → World
unfolding set_parts get_conntrack_id
attach_certificate_to_session w sess boxed certificate =
    let ctid = get_conntrack_id (w.sessions.cell sess) in
    set_parts (attach w sess "certificate" boxed) sess ctid (certificate_parts certificate)
