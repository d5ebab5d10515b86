-- ===== src/Sockets/Address/Ranges.antt =====
-- The address tests of sockets/util.rs against the blocks of addresses that they stand for, an
-- address read as one number.
use wasmx.Base.{ℕ, ◌+◌, ◌*◌, ◌^◌, ◌≤◌, ◌<◌, ◌≡◌, ◌≢◌, ◌↔◌, ◌⊎◌, true, none, arith}
use wasmx.Sockets.Address.{
  Family, Ipv4Addr, Ipv6Addr, IpAddr, SocketAddr, to_canonical, is_unspecified, ip, port,
  to_ipv4_mapped, is_deprecated_ipv4_compatible, is_valid_address_family, is_valid_remote_address,
  is_valid_unicast_address,
}

-- The octets and segments have the widths of `u8` and `u16`.
pub record IsOctets (a : Ipv4Addr) : Type 0 where
  pub h0 : a.o0 < 0x100
  pub h1 : a.o1 < 0x100
  pub h2 : a.o2 < 0x100
  pub h3 : a.o3 < 0x100

pub record IsSegments (a : Ipv6Addr) : Type 0 where
  pub h0 : a.s0 < 0x1_0000
  pub h1 : a.s1 < 0x1_0000
  pub h2 : a.s2 < 0x1_0000
  pub h3 : a.s3 < 0x1_0000
  pub h4 : a.s4 < 0x1_0000
  pub h5 : a.s5 < 0x1_0000
  pub h6 : a.s6 < 0x1_0000
  pub h7 : a.s7 < 0x1_0000

abbrev pub value_v4 : Ipv4Addr → ℕ
value_v4 a = ((a.o0 * 256 + a.o1) * 256 + a.o2) * 256 + a.o3

abbrev pub high_v6 : Ipv6Addr → ℕ
high_v6 a =
    ((((a.s0 * 0x1_0000 + a.s1) * 0x1_0000 + a.s2) * 0x1_0000 + a.s3) * 0x1_0000 + a.s4) * 0x1_0000
    + a.s5

abbrev pub low_v6 : Ipv6Addr → ℕ
low_v6 a = a.s6 * 0x1_0000 + a.s7

abbrev pub value_v6 : Ipv6Addr → ℕ
value_v6 a = high_v6 a * 2 ^ 32 + low_v6 a

-- `::a.b.c.d` less `::` and `::1`
deprecated_iff :
    (a : Ipv6Addr)
    → IsSegments a
    → (is_deprecated_ipv4_compatible a ≡ true) ↔ ((2 ≤ value_v6 a) × (value_v6 a < 2 ^ 32))
unfolding is_deprecated_ipv4_compatible
deprecated_iff a h = ground arith

-- `::ffff:a.b.c.d`
mapped_iff :
    (a : Ipv6Addr)
    → IsSegments a
    → (to_ipv4_mapped a ≢ none)
      ↔ ((0xffff * 2 ^ 32 ≤ value_v6 a) × (value_v6 a < 0x1_0000 * 2 ^ 32))
unfolding to_ipv4_mapped
mapped_iff a h = ground arith

abbrev pub IsWellFormed : IpAddr → Type 0
IsWellFormed (IpAddr.v4 a) = IsOctets a
IsWellFormed (IpAddr.v6 a) = IsSegments a

abbrev pub IsSpecified : IpAddr → Type 0
IsSpecified (IpAddr.v4 a) = value_v4 a ≢ 0
IsSpecified (IpAddr.v6 a) = (value_v6 a ≢ 0) × (value_v6 a ≢ 0xffff * 2 ^ 32)

-- Outside 224.0.0.0 to 239.255.255.255 and 255.255.255.255; outside ff00::/8 and the mapped copies
-- of the IPv4 blocks.
abbrev pub IsUnicast : IpAddr → Type 0
IsUnicast (IpAddr.v4 a) =
    (value_v4 a < 224 * 2 ^ 24 ⊎ 240 * 2 ^ 24 ≤ value_v4 a) × (value_v4 a ≢ 0xffff_ffff)
IsUnicast (IpAddr.v6 a) =
    (value_v6 a < 0xff00 * 2 ^ 112)
    × (value_v6 a < 0xffff * 2 ^ 32 + 224 * 2 ^ 24 ⊎ 0xffff * 2 ^ 32 + 240 * 2 ^ 24 ≤ value_v6 a)
    × (value_v6 a ≢ 0xffff * 2 ^ 32 + 0xffff_ffff)

canonical_v4_iff :
    (a : Ipv4Addr)
    → IsOctets a
    → (is_unspecified (to_canonical (IpAddr.v4 a)) ≡ true) ↔ (value_v4 a ≡ 0)
unfolding is_unspecified to_canonical
canonical_v4_iff a h = ground arith

canonical_v6_iff :
    (a : Ipv6Addr)
    → IsSegments a
    → (is_unspecified (to_canonical (IpAddr.v6 a)) ≡ true)
      ↔ ((value_v6 a ≡ 0) ⊎ (value_v6 a ≡ 0xffff * 2 ^ 32))
unfolding is_unspecified to_canonical
canonical_v6_iff a h = ground arith

-- A remote address of well-formed parts is accepted exactly when its port is not 0 and its address
-- is neither 0.0.0.0 nor `::` nor `::ffff:0.0.0.0`.
pub is_valid_remote_address_iff :
    (x : SocketAddr)
    → IsWellFormed (ip x)
    → (is_valid_remote_address x ≡ true) ↔ ((port x ≢ 0) × IsSpecified (ip x))
unfolding is_valid_remote_address
is_valid_remote_address_iff (SocketAddr.v4 x) h = ground (arith, canonical_v4_iff x.ip h)
is_valid_remote_address_iff (SocketAddr.v6 x) h = ground (arith, canonical_v6_iff x.ip h)

-- A local or remote address of well-formed parts passes as unicast exactly when it lies outside the
-- multicast and broadcast blocks of `IsUnicast`, an IPv4-mapped address as the IPv4 address in it.
pub is_valid_unicast_address_iff :
    (x : IpAddr) → IsWellFormed x → (is_valid_unicast_address x ≡ true) ↔ IsUnicast x
unfolding is_valid_unicast_address
is_valid_unicast_address_iff (IpAddr.v4 a) h = ground arith
is_valid_unicast_address_iff (IpAddr.v6 a) h = ground arith

-- Of the family, but an IPv6 address neither IPv4-compatible, which are the first 2 ^ 32 but `::` and `::1`, nor IPv4-mapped,
-- which are the 2 ^ 32 from ::ffff:0:0 on.
abbrev pub IsOfFamily : IpAddr → Family → Type 0
IsOfFamily (IpAddr.v4 a) Family.ipv4 = Unit {0}
IsOfFamily (IpAddr.v6 a) Family.ipv6 =
    (value_v6 a ≤ 1 ⊎ 2 ^ 32 ≤ value_v6 a)
    × (value_v6 a < 0xffff * 2 ^ 32 ⊎ 0x1_0000 * 2 ^ 32 ≤ value_v6 a)
IsOfFamily (IpAddr.v4 a) Family.ipv6 = ⊥
IsOfFamily (IpAddr.v6 a) Family.ipv4 = ⊥

-- An address of well-formed parts passes as one of the socket's family exactly if it is of the family and none of those
-- IPv6 addresses.
pub is_valid_address_family_iff :
    (x : IpAddr) (family : Family)
    → IsWellFormed x
    → (is_valid_address_family x family ≡ true) ↔ IsOfFamily x family
unfolding is_valid_address_family
is_valid_address_family_iff (IpAddr.v4 a) Family.ipv4 h = ground arith
is_valid_address_family_iff (IpAddr.v6 a) Family.ipv6 h = ground arith
is_valid_address_family_iff (IpAddr.v4 a) Family.ipv6 h = ground arith
is_valid_address_family_iff (IpAddr.v6 a) Family.ipv4 h = ground arith
