-- ===== src/CertCache/Cleaning.antt =====
-- How long a certificate stays in the cache.
use packetd.Base.{
  ℕ, ◌+◌, ◌/◌, ltb, ◌≡◌, String, none, some, if◌then◌else◌, arith, Option-cases, inl, inr,
}
use packetd.Base.Keys.{string_key}
use packetd.Base.Table.{get, remove, get-put, get-remove}
use packetd.Base.Sweep.{get-sweep}
use packetd.Dispatch.State.{second}
use packetd.CertCache.{
  CertificateHolder, CertificateTable, clean_timeout, find_certificate, insert_certificate,
  remove_certificate, is_old, clean_certificate_table,
}

-- After InsertCertificate the cache finds the new holder under its key, and after RemoveCertificate
-- nothing; every other key finds what it found before.
pub find_certificate_lem :
    (table : CertificateTable) (finder other : String) (holder : CertificateHolder)
    → (find_certificate (insert_certificate table finder holder) other
        ≡ (if string_key.same finder other then some holder else find_certificate table other))
      × (find_certificate (remove_certificate table finder) other
          ≡ (if string_key.same finder other then none else find_certificate table other))
unfolding find_certificate insert_certificate remove_certificate
find_certificate_lem table finder other holder = elim (Option-cases (get table finder)) [
  | inl e ↦ ground (arith, e, get-put table finder other holder, get-remove table finder other)
  | inr (old, e) ↦
      ground
        (arith, e, get-put (remove table finder) finder other holder, get-remove table finder other)
]

-- A certificate that is inserted is found after a cleaning exactly when less than clean_timeout
-- seconds have passed since its creation.
pub insert_then_clean_certificates :
    (now : ℕ) (table : CertificateTable) (finder : String) (holder : CertificateHolder)
    → find_certificate (clean_certificate_table now (insert_certificate table finder holder)) finder
      ≡ (if ltb (now / second) (holder.creation_time / second + clean_timeout)
          then some holder
          else none)
unfolding clean_certificate_table is_old find_certificate
insert_then_clean_certificates now table finder holder = ground (
  arith,
  (find_certificate_lem table finder finder holder).0,
  get-sweep (is_old now) (insert_certificate table finder holder) finder,
  string_key.same_iff finder finder,
)
