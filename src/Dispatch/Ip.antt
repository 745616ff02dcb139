-- ===== src/Dispatch/Ip.antt =====
-- The values of Go's `net.IP` and what services/dispatch uses of the package: `Equal`,
-- `IsLoopback`, and its own copy function `dupIP` (services/dispatch/dispatch.go).
pub mod Equality
use packetd.Base.{
  ℕ, ◌≡◌, refl, Bool, true, false, ◌&&◌, List, [], ◌∷◌, map, length, take, drop, bytes_equal, ◌==◌,
  if◌then◌else◌, Option, none, some,
}

-- A `net.IP` is a slice of bytes, of 4 or 16 bytes for an address.
abbrev pub Ip : Type 0
Ip = List ℕ

abbrev pub v4_in_v6_prefix : List ℕ
v4_in_v6_prefix = 0 ∷ 0 ∷ 0 ∷ 0 ∷ 0 ∷ 0 ∷ 0 ∷ 0 ∷ 0 ∷ 0 ∷ 255 ∷ 255 ∷ []

abbrev pub ipv6_loopback : Ip
ipv6_loopback = 0 ∷ 0 ∷ 0 ∷ 0 ∷ 0 ∷ 0 ∷ 0 ∷ 0 ∷ 0 ∷ 0 ∷ 0 ∷ 0 ∷ 0 ∷ 0 ∷ 0 ∷ 1 ∷ []

-- A 4-byte address against one of 16 bytes.
abbrev pub mapped : Ip → Ip → Bool
mapped short long = bytes_equal (take 12 long) v4_in_v6_prefix && bytes_equal short (drop 12 long)

-- `IP.Equal`: an IPv4 address equals the same address in IPv6 form.
unfoldable pub ip_equal : Ip → Ip → Bool
ip_equal a b =
    if length a == length b
    then bytes_equal a b
    else if length a == 4 && length b == 16
    then mapped a b
    else if length a == 16 && length b == 4
    then mapped b a
    else false

-- `IP.To4`
unfoldable pub to4 : Ip → Option Ip
to4 a =
    if length a == 4
    then some a
    else if length a == 16 && bytes_equal (take 12 a) v4_in_v6_prefix
    then some (drop 12 a)
    else none

first_byte : Ip → ℕ
first_byte [] = 0
first_byte (x ∷ xs) = x

-- `IP.IsLoopback`
unfoldable pub is_loopback : Ip → Bool
unfolding first_byte
is_loopback a = elim (to4 a) [ none ↦ ip_equal a ipv6_loopback | some v4 ↦ first_byte v4 == 127 ]

-- `dupIP`: a new slice, filled by `copy`.
unfoldable pub dup_ip : Ip → Ip
dup_ip ip = map (λ x. x) ip
