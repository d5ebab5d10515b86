-- ===== src/Sockets/Address/Conversions.antt =====
-- sockets/util.rs, the conversions between the guest's addresses and `core::net`.
use wasmx.Base.{ℕ, ◌≡◌, refl}
use wasmx.Sockets.Address.{Ipv4Addr, Ipv6Addr, IpAddr, SocketAddrV4, SocketAddrV6, SocketAddr}

-- `network::Ipv4Address` and `network::Ipv6Address`
abbrev pub Ipv4Address : Type 0
Ipv4Address = ℕ × ℕ × ℕ × ℕ

abbrev pub Ipv6Address : Type 0
Ipv6Address = ℕ × ℕ × ℕ × ℕ × ℕ × ℕ × ℕ × ℕ

-- `network::IpAddress`
pub data IpAddress : Type 0 where
  ipv4 : Ipv4Address → IpAddress
  ipv6 : Ipv6Address → IpAddress

-- `network::Ipv4SocketAddress`, `Ipv6SocketAddress` and `IpSocketAddress`
pub record Ipv4SocketAddress : Type 0 where
  pub port : ℕ
  pub address : Ipv4Address

pub record Ipv6SocketAddress : Type 0 where
  pub port : ℕ
  pub flow_info : ℕ
  pub address : Ipv6Address
  pub scope_id : ℕ

pub data IpSocketAddress : Type 0 where
  ipv4 : Ipv4SocketAddress → IpSocketAddress
  ipv6 : Ipv6SocketAddress → IpSocketAddress

unfoldable pub to_ipv4_addr : Ipv4Address → Ipv4Addr
to_ipv4_addr (x0, x1, x2, x3) = record { o0 = x0; o1 = x1; o2 = x2; o3 = x3 }

unfoldable pub from_ipv4_addr : Ipv4Addr → Ipv4Address
from_ipv4_addr a = (a.o0, a.o1, a.o2, a.o3)

unfoldable pub to_ipv6_addr : Ipv6Address → Ipv6Addr
to_ipv6_addr (x0, x1, x2, x3, x4, x5, x6, x7) = record {
  s0 = x0;
  s1 = x1;
  s2 = x2;
  s3 = x3;
  s4 = x4;
  s5 = x5;
  s6 = x6;
  s7 = x7;
}

unfoldable pub from_ipv6_addr : Ipv6Addr → Ipv6Address
from_ipv6_addr a = (a.s0, a.s1, a.s2, a.s3, a.s4, a.s5, a.s6, a.s7)

-- `impl From<IpAddr> for network::IpAddress` and back
unfoldable pub from_ip_addr : IpAddr → IpAddress
unfolding from_ipv4_addr from_ipv6_addr
from_ip_addr (IpAddr.v4 a) = IpAddress.ipv4 (from_ipv4_addr a)
from_ip_addr (IpAddr.v6 a) = IpAddress.ipv6 (from_ipv6_addr a)

unfoldable pub to_ip_addr : IpAddress → IpAddr
unfolding to_ipv4_addr to_ipv6_addr
to_ip_addr (IpAddress.ipv4 a) = IpAddr.v4 (to_ipv4_addr a)
to_ip_addr (IpAddress.ipv6 a) = IpAddr.v6 (to_ipv6_addr a)

-- `impl From<network::IpSocketAddress> for SocketAddr` and back, with those of the two families
unfoldable pub to_socket_addr_v4 : Ipv4SocketAddress → SocketAddrV4
unfolding to_ipv4_addr
to_socket_addr_v4 a = record { ip = to_ipv4_addr a.address; port = a.port }

unfoldable pub from_socket_addr_v4 : SocketAddrV4 → Ipv4SocketAddress
unfolding from_ipv4_addr
from_socket_addr_v4 a = record { port = a.port; address = from_ipv4_addr a.ip }

unfoldable pub to_socket_addr_v6 : Ipv6SocketAddress → SocketAddrV6
unfolding to_ipv6_addr
to_socket_addr_v6 a = record {
  ip = to_ipv6_addr a.address;
  port = a.port;
  flowinfo = a.flow_info;
  scope_id = a.scope_id;
}

unfoldable pub from_socket_addr_v6 : SocketAddrV6 → Ipv6SocketAddress
unfolding from_ipv6_addr
from_socket_addr_v6 a = record {
  port = a.port;
  flow_info = a.flowinfo;
  address = from_ipv6_addr a.ip;
  scope_id = a.scope_id;
}

unfoldable pub to_socket_addr : IpSocketAddress → SocketAddr
unfolding to_socket_addr_v4 to_socket_addr_v6
to_socket_addr (IpSocketAddress.ipv4 a) = SocketAddr.v4 (to_socket_addr_v4 a)
to_socket_addr (IpSocketAddress.ipv6 a) = SocketAddr.v6 (to_socket_addr_v6 a)

unfoldable pub from_socket_addr : SocketAddr → IpSocketAddress
unfolding from_socket_addr_v4 from_socket_addr_v6
from_socket_addr (SocketAddr.v4 a) = IpSocketAddress.ipv4 (from_socket_addr_v4 a)
from_socket_addr (SocketAddr.v6 a) = IpSocketAddress.ipv6 (from_socket_addr_v6 a)

from-to_socket_addr : (a : IpSocketAddress) → from_socket_addr (to_socket_addr a) ≡ a
unfolding from_socket_addr to_socket_addr
from-to_socket_addr (IpSocketAddress.ipv4 a) = refl
from-to_socket_addr (IpSocketAddress.ipv6 a) = refl

to-from_socket_addr : (a : SocketAddr) → to_socket_addr (from_socket_addr a) ≡ a
unfolding from_socket_addr to_socket_addr
to-from_socket_addr (SocketAddr.v4 a) = refl
to-from_socket_addr (SocketAddr.v6 a) = refl

-- A socket address survives the way from the guest to the host and back, and the other way round:
-- family, every part of the address, port, flow label and scope.
pub socket_addr_round_trip :
    (a : IpSocketAddress) (b : SocketAddr)
    → (from_socket_addr (to_socket_addr a) ≡ a) × (to_socket_addr (from_socket_addr b) ≡ b)
socket_addr_round_trip a b = (from-to_socket_addr a, to-from_socket_addr b)
