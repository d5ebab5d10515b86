-- ===== src/Sockets/Address.antt =====
-- crates/wasmlet/src/engine/wasi/sockets/util.rs: which addresses a socket may use, and the
-- conversions between the guest's addresses and `core::net`.
pub mod Ranges
pub mod Conversions
use wasmx.Base.{
  ℕ, ◌/◌, ◌%◌, Bool, true, false, not, ◌&&◌, Option, none, some, ◌==◌, leb, if◌then◌else◌,
}

-- `SocketAddressFamily`
pub data Family : Type 0 where
  ipv4 ipv6 : Family

-- `core::net::Ipv4Addr`, by its octets
pub record Ipv4Addr : Type 0 where
  pub o0 : ℕ
  pub o1 : ℕ
  pub o2 : ℕ
  pub o3 : ℕ

-- `core::net::Ipv6Addr`, by its segments
pub record Ipv6Addr : Type 0 where
  pub s0 : ℕ
  pub s1 : ℕ
  pub s2 : ℕ
  pub s3 : ℕ
  pub s4 : ℕ
  pub s5 : ℕ
  pub s6 : ℕ
  pub s7 : ℕ

pub data IpAddr : Type 0 where
  v4 : Ipv4Addr → IpAddr
  v6 : Ipv6Addr → IpAddr

pub record SocketAddrV4 : Type 0 where
  pub ip : Ipv4Addr
  pub port : ℕ

pub record SocketAddrV6 : Type 0 where
  pub ip : Ipv6Addr
  pub port : ℕ
  pub flowinfo : ℕ
  pub scope_id : ℕ

pub data SocketAddr : Type 0 where
  v4 : SocketAddrV4 → SocketAddr
  v6 : SocketAddrV6 → SocketAddr

-- `SocketAddr::ip` and `SocketAddr::port`
abbrev pub ip : SocketAddr → IpAddr
ip (SocketAddr.v4 a) = IpAddr.v4 a.ip
ip (SocketAddr.v6 a) = IpAddr.v6 a.ip

abbrev pub port : SocketAddr → ℕ
port (SocketAddr.v4 a) = a.port
port (SocketAddr.v6 a) = a.port

-- Of the standard library: `Ipv6Addr::to_ipv4_mapped`, `IpAddr::to_canonical`, `is_unspecified`,
-- `is_multicast` and `is_broadcast`.
unfoldable pub to_ipv4_mapped : Ipv6Addr → Option Ipv4Addr
to_ipv4_mapped a =
    if a.s0 == 0 && a.s1 == 0 && a.s2 == 0 && a.s3 == 0 && a.s4 == 0 && a.s5 == 0xffff
    then some (record { o0 = a.s6 / 256; o1 = a.s6 % 256; o2 = a.s7 / 256; o3 = a.s7 % 256 })
    else none

unfoldable pub to_canonical : IpAddr → IpAddr
unfolding to_ipv4_mapped
to_canonical (IpAddr.v4 a) = IpAddr.v4 a
to_canonical (IpAddr.v6 a) = elim (to_ipv4_mapped a) [ some b ↦ IpAddr.v4 b | none ↦ IpAddr.v6 a ]

abbrev pub is_unspecified_v4 : Ipv4Addr → Bool
is_unspecified_v4 a = a.o0 == 0 && a.o1 == 0 && a.o2 == 0 && a.o3 == 0

abbrev pub is_unspecified_v6 : Ipv6Addr → Bool
is_unspecified_v6 a =
    a.s0 == 0
    && a.s1 == 0
    && a.s2 == 0
    && a.s3 == 0
    && a.s4 == 0
    && a.s5 == 0
    && a.s6 == 0
    && a.s7 == 0

unfoldable pub is_unspecified : IpAddr → Bool
is_unspecified (IpAddr.v4 a) = is_unspecified_v4 a
is_unspecified (IpAddr.v6 a) = is_unspecified_v6 a

abbrev pub is_localhost_v6 : Ipv6Addr → Bool
is_localhost_v6 a =
    a.s0 == 0
    && a.s1 == 0
    && a.s2 == 0
    && a.s3 == 0
    && a.s4 == 0
    && a.s5 == 0
    && a.s6 == 0
    && a.s7 == 1

abbrev pub is_multicast_v4 : Ipv4Addr → Bool
is_multicast_v4 a = leb 224 a.o0 && leb a.o0 239

abbrev pub is_broadcast_v4 : Ipv4Addr → Bool
is_broadcast_v4 a = a.o0 == 255 && a.o1 == 255 && a.o2 == 255 && a.o3 == 255

abbrev pub is_multicast_v6 : Ipv6Addr → Bool
is_multicast_v6 a = a.s0 / 256 == 0xff

-- `is_deprecated_ipv4_compatible`
unfoldable pub is_deprecated_ipv4_compatible : Ipv6Addr → Bool
is_deprecated_ipv4_compatible a =
    (a.s0 == 0 && a.s1 == 0 && a.s2 == 0 && a.s3 == 0 && a.s4 == 0 && a.s5 == 0)
    && not (is_unspecified_v6 a)
    && not (is_localhost_v6 a)

unfoldable pub is_valid_address_family : IpAddr → Family → Bool
unfolding is_deprecated_ipv4_compatible to_ipv4_mapped
is_valid_address_family (IpAddr.v4 a) Family.ipv4 = true
is_valid_address_family (IpAddr.v6 a) Family.ipv6 =
    not (is_deprecated_ipv4_compatible a)
    && elim (to_ipv4_mapped a) [ none ↦ true | some _ ↦ false ]
is_valid_address_family _ _ = false

unfoldable pub is_valid_remote_address : SocketAddr → Bool
is_valid_remote_address a = not (is_unspecified (to_canonical (ip a))) && not (port a == 0)

unfoldable pub is_valid_unicast_canonical : IpAddr → Bool
is_valid_unicast_canonical (IpAddr.v4 a) = not (is_multicast_v4 a) && not (is_broadcast_v4 a)
is_valid_unicast_canonical (IpAddr.v6 a) = not (is_multicast_v6 a)

unfoldable pub is_valid_unicast_address : IpAddr → Bool
unfolding to_canonical is_valid_unicast_canonical
is_valid_unicast_address a = is_valid_unicast_canonical (to_canonical a)
