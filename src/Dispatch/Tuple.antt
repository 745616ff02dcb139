-- ===== src/Dispatch/Tuple.antt =====
-- services/dispatch/tuple.go: the five values that name a session.
pub mod Equality
use packetd.Base.{ℕ, Bool, true, false, not, ◌||◌, ◌==◌, if◌then◌else◌}
use packetd.Dispatch.Ip.{Ip, ip_equal}

pub record Tuple : Type 0 where
  pub protocol : ℕ
  pub client_address : Ip
  pub client_port : ℕ
  pub server_address : Ip
  pub server_port : ℕ

-- `Equal`
unfoldable pub equal : Tuple → Tuple → Bool
equal t o =
    if not (t.protocol == o.protocol)
      || (not (ip_equal t.client_address o.client_address)
          || (not (ip_equal t.server_address o.server_address)
              || (not (t.client_port == o.client_port) || not (t.server_port == o.server_port))))
    then false
    else true

-- `EqualReverse`
unfoldable pub equal_reverse : Tuple → Tuple → Bool
equal_reverse t o =
    if not (t.protocol == o.protocol)
      || (not (ip_equal t.client_address o.server_address)
          || (not (ip_equal t.server_address o.client_address)
              || (not (t.client_port == o.server_port) || not (t.server_port == o.client_port))))
    then false
    else true
