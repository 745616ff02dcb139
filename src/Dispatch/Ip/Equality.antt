-- ===== src/Dispatch/Ip/Equality.antt =====
-- `net.IP` equality compares the addresses, in their shortest form.
use packetd.Base.{
  ◌≡◌, refl, sym, ap, ◌∙◌, Bool, true, ◌&&◌, [], ◌∷◌, ◌++◌, length, take, drop, bytes_equal,
  bytes_equal_refl, bytes_equal_eq, take-append-drop, ◌==◌, if◌then◌else◌, arith, Bool-cases, inl,
  inr, length-drop, &&-true, ◌↔◌, ==_iff,
}
use packetd.Dispatch.Ip.{Ip, ip_equal, v4_in_v6_prefix, dup_ip}

pub dup_ip_lem : (ip : Ip) → dup_ip ip ≡ ip
unfolding dup_ip
dup_ip_lem [] = refl
dup_ip_lem (x ∷ ip) = ap (◌∷◌ x) (dup_ip_lem ip)

-- A 16-byte slice that starts with the IPv4-in-IPv6 prefix.
abbrev pub is_mapped : Ip → Bool
is_mapped a = length a == 16 && bytes_equal (take 12 a) v4_in_v6_prefix

-- An IPv4-mapped address of 16 bytes in its 4-byte form, any other as it is.
pub shortest : Ip → Ip
shortest a = if is_mapped a then drop 12 a else a

mapped_parts : (a : Ip) → is_mapped a ≡ true → (length a ≡ 16) × (a ≡ v4_in_v6_prefix ++ drop 12 a)
mapped_parts a h =
    let (l, p) = &&-true _ _ h in
    (
      (==_iff (length a) 16).0 l,
      sym (take-append-drop 12 a) ∙ ap (λ (t : Ip). t ++ drop 12 a) (bytes_equal_eq _ _ p),
    )

bytes_equal_of_eq : (a b : Ip) → a ≡ b → bytes_equal a b ≡ true
bytes_equal_of_eq a b e = rw e (bytes_equal_refl b)

ip_equal_of_eq : (a b : Ip) → a ≡ b → ip_equal a b ≡ true
unfolding ip_equal
ip_equal_of_eq a b e = ground (arith, ap length e, bytes_equal_of_eq a b e)

shortest_eq : (a b : Ip) → ip_equal a b ≡ true → shortest a ≡ shortest b
unfolding ip_equal shortest
shortest_eq a b h =
    ground (arith, bytes_equal_eq a b, bytes_equal_eq a (drop 12 b), bytes_equal_eq b (drop 12 a))

-- One address in the long form, the other one short.
ip_equal_mapped :
    (a b : Ip) → is_mapped b ≡ true → a ≡ drop 12 b → (ip_equal a b ≡ true) × (ip_equal b a ≡ true)
unfolding ip_equal
ip_equal_mapped a b m e = ground (
  arith,
  mapped_parts b m,
  ap length e,
  length-drop 12 b,
  bytes_equal_of_eq a (drop 12 b) e,
  &&-true (length b == 16) (bytes_equal (take 12 b) v4_in_v6_prefix) m,
)

eq_of_drop : (a b : Ip) → is_mapped a ≡ true → is_mapped b ≡ true → drop 12 a ≡ drop 12 b → a ≡ b
eq_of_drop a b ma mb e =
    (mapped_parts a ma).1 ∙ ap (◌++◌ v4_in_v6_prefix) e ∙ sym (mapped_parts b mb).1

ip_equal_of_shortest : (a b : Ip) → shortest a ≡ shortest b → ip_equal a b ≡ true
unfolding shortest
ip_equal_of_shortest a b h = elim (Bool-cases (is_mapped a)) [
  | inl ma ↦ elim (Bool-cases (is_mapped b)) [
    | inl mb ↦ ip_equal_of_eq a b (eq_of_drop a b ma mb (ground arith))
    | inr nb ↦ (ip_equal_mapped b a ma (ground arith)).1
  ]
  | inr na ↦ elim (Bool-cases (is_mapped b)) [
    | inl mb ↦ (ip_equal_mapped a b mb (ground arith)).0
    | inr nb ↦ ip_equal_of_eq a b (ground arith)
  ]
]

-- `IP.Equal` decides whether two slices are the same address in shortest form.
pub ip_equal_iff : (a b : Ip) → (ip_equal a b ≡ true) ↔ (shortest a ≡ shortest b)
ip_equal_iff a b = (shortest_eq a b, ip_equal_of_shortest a b)
