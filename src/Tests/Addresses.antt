-- ===== src/Tests/Addresses.antt =====
-- The addresses and errors of sockets/util.rs: `::ffff:127.0.0.1` and 10.0.0.1, port 80.
use wasmx.Base.{◌≡◌, ◌↔◌, true, some, arith}
use wasmx.Sockets.Errors.{IoError, Errno, ErrorKind}
use wasmx.Sockets.Address.{Ipv4Addr, Ipv6Addr, IpAddr, SocketAddr, is_valid_unicast_address}
use wasmx.Sockets.Address.Ranges.{IsOctets, IsSegments, IsUnicast, is_valid_unicast_address_iff}
use wasmx.Sockets.Address.Conversions.{IpSocketAddress}

abbrev pub ten : Ipv4Addr
ten = record { o0 = 10; o1 = 0; o2 = 0; o3 = 1 }

abbrev mapped : Ipv6Addr
mapped = record { s0 = 0; s1 = 0; s2 = 0; s3 = 0; s4 = 0; s5 = 0xffff; s6 = 0x7f00; s7 = 1 }

pub ten-IsOctets : IsOctets ten
ten-IsOctets = record { h0 = omega arith; h1 = omega arith; h2 = omega arith; h3 = omega arith }

mapped-IsSegments : IsSegments mapped
mapped-IsSegments = record {
  h0 = omega arith;
  h1 = omega arith;
  h2 = omega arith;
  h3 = omega arith;
  h4 = omega arith;
  h5 = omega arith;
  h6 = omega arith;
  h7 = omega arith;
}

abbrev pub web : SocketAddr
web = SocketAddr.v4 (record { ip = ten; port = 80 })

abbrev guest : IpSocketAddress
guest = IpSocketAddress.ipv4 (record { port = 80; address = (10, 0, 0, 1) })

abbrev reset : IoError
reset = record { errno = some Errno.connreset; kind = ErrorKind.connection_reset }

is_valid_unicast_address_iff_example :
    (is_valid_unicast_address (IpAddr.v6 mapped) ≡ true) ↔ IsUnicast (IpAddr.v6 mapped)
is_valid_unicast_address_iff_example =
    is_valid_unicast_address_iff (IpAddr.v6 mapped) mapped-IsSegments
