-- ===== src/Dispatch/Tuple/Equality.antt =====
-- What the two comparisons of tuple.go decide.
use packetd.Base.{◌≡◌, ◌↔◌, true, arith}
use packetd.Dispatch.Ip.Equality.{shortest, ip_equal_iff}
use packetd.Dispatch.Tuple.{Tuple, equal, equal_reverse}

-- A tuple with its addresses in shortest form.
pub canonical : Tuple → Tuple
canonical t = record t {
  client_address = shortest t.client_address;
  server_address = shortest t.server_address;
}

-- The tuple of the packets that go the other way.
pub flipped : Tuple → Tuple
flipped t = record {
  protocol = t.protocol;
  client_address = t.server_address;
  client_port = t.server_port;
  server_address = t.client_address;
  server_port = t.client_port;
}

-- Two tuples are equal exactly when their canonical forms are one tuple.
pub equal_iff : (t o : Tuple) → (equal t o ≡ true) ↔ (canonical t ≡ canonical o)
unfolding equal canonical
equal_iff t o = ground (
  arith,
  ip_equal_iff t.client_address o.client_address,
  ip_equal_iff t.server_address o.server_address,
)

-- The reverse comparison is the comparison with the flipped tuple, and is symmetric.
pub equal_reverse-flipped :
    (t o : Tuple)
    → (equal_reverse t o ≡ equal t (flipped o)) × (equal_reverse o t ≡ equal_reverse t o)
unfolding equal equal_reverse flipped
equal_reverse-flipped t o = ground (
  arith,
  ip_equal_iff t.client_address o.server_address,
  ip_equal_iff t.server_address o.client_address,
  ip_equal_iff o.client_address t.server_address,
  ip_equal_iff o.server_address t.client_address,
)
