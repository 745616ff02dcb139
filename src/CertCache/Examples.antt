-- ===== src/CertCache/Examples.antt =====
-- A certificate with two names, and a cache that holds it.
use packetd.Base.{String, ◌≡◌, refl, true, some, [], ◌∷◌}
use packetd.Base.Keys.{string_key}
use packetd.Base.Table.{get}
use packetd.Dispatch.State.{nil, text}
use packetd.Dispatch.Service.{startup}
use packetd.Base.Text.{join, join_onto}
use packetd.Dispatch.Session.{get_conntrack_id}
use packetd.Dispatch.Attachments.Agreement.{Agrees}
use packetd.Dispatch.Attachments.{entry_value, attach}
use packetd.Dispatch.Examples.Data.{empty_world}
use packetd.CertCache.{
  CertName, Certificate, CertificateHolder, CertificateTable, insert_certificate,
  attach_certificate_to_session, set_parts, set_part, set_session_list, set_session_entry,
  replace_commas,
}
use packetd.CertCache.Attaching.{attach_certificate-Agrees, IsClean}

abbrev name : CertName
name = record {
  common_name = "Example, Inc.";
  serial_number = "";
  country = "US" ∷ [];
  organization = "Example, Inc." ∷ "Web" ∷ [];
  organizational_unit = [];
  locality = [];
  province = [];
  street_address = [];
  postal_code = [];
}

abbrev certificate : Certificate
certificate = record { subject = name; issuer = name; dns_names = "example.com" ∷ "www" ∷ [] }

abbrev holder : CertificateHolder
holder = record { creation_time = 7000000000; certificate = certificate; available = true }

abbrev table : CertificateTable
table = insert_certificate [] "10.0.0.1" holder

abbrev field : String
field = "certificate_subject_o"

empty_world-Agrees : Agrees empty_world 0 (get_conntrack_id (empty_world.sessions.cell 0)) field
unfolding entry_value get startup get_conntrack_id
empty_world-Agrees = record { same_value = refl }

attach_certificate-Agrees_example :
    Agrees
      (attach_certificate_to_session empty_world 0 nil certificate)
      0
      (get_conntrack_id (empty_world.sessions.cell 0))
      field
attach_certificate-Agrees_example =
    attach_certificate-Agrees empty_world 0 nil certificate field refl empty_world-Agrees

empty_world-IsClean : IsClean empty_world.dict
unfolding startup
empty_world-IsClean = record { clean = _ }

-- The commas of a name are gone, and its parts are joined.
joined :
    entry_value (attach_certificate_to_session empty_world 0 nil certificate).dict 0 field
    ≡ some (text "Example- Inc.|Web")
unfolding entry_value startup get_conntrack_id attach_certificate_to_session set_parts set_part
    set_session_list set_session_entry attach replace_commas join join_onto
joined = refl
