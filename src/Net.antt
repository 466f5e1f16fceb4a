-- ===== src/Net.antt =====
-- What the crate uses of `std::net`: addresses, their octets and segments, socket addresses.
use pfctl_rs.Common.{ℕ, ◌+◌, ◌*◌, ◌/◌, ◌%◌, ◌^◌, ◌<◌, List, [], ◌∷◌}
use pfctl_rs.ByteOrder.{byte_at}

pub record Ipv4Addr : Type 0 where
  pub a : ℕ
  pub b : ℕ
  pub c : ℕ
  pub d : ℕ

-- `segments()`, eight `u16`.
pub record Ipv6Addr : Type 0 where
  pub s0 : ℕ
  pub s1 : ℕ
  pub s2 : ℕ
  pub s3 : ℕ
  pub s4 : ℕ
  pub s5 : ℕ
  pub s6 : ℕ
  pub s7 : ℕ

pub data IpAddr : Type 0 where
  v4 : Ipv4Addr → IpAddr
  v6 : Ipv6Addr → IpAddr

-- The ranges that the Rust types enforce.
pub record IsIpv4 (ip : Ipv4Addr) : Type 0 where
  pub a_byte : ip.a < 256
  pub b_byte : ip.b < 256
  pub c_byte : ip.c < 256
  pub d_byte : ip.d < 256

pub record IsIpv6 (ip : Ipv6Addr) : Type 0 where
  pub s0_word : ip.s0 < 2 ^ 16
  pub s1_word : ip.s1 < 2 ^ 16
  pub s2_word : ip.s2 < 2 ^ 16
  pub s3_word : ip.s3 < 2 ^ 16
  pub s4_word : ip.s4 < 2 ^ 16
  pub s5_word : ip.s5 < 2 ^ 16
  pub s6_word : ip.s6 < 2 ^ 16
  pub s7_word : ip.s7 < 2 ^ 16

-- `u32::from(Ipv4Addr)` and `Ipv4Addr::from(u32)`
unfoldable pub ipv4_to_u32 : Ipv4Addr → ℕ
ipv4_to_u32 ip = ip.a * 2 ^ 24 + ip.b * 2 ^ 16 + ip.c * 256 + ip.d

unfoldable pub ipv4_from_u32 : ℕ → Ipv4Addr
ipv4_from_u32 x = record {
  a = x / 2 ^ 24 % 256;
  b = x / 2 ^ 16 % 256;
  c = x / 256 % 256;
  d = x % 256;
}

unfoldable pub segments : Ipv6Addr → List ℕ
segments ip = ip.s0 ∷ ip.s1 ∷ ip.s2 ∷ ip.s3 ∷ ip.s4 ∷ ip.s5 ∷ ip.s6 ∷ ip.s7 ∷ []

abbrev word_at : List ℕ → ℕ → ℕ
word_at xs i = byte_at xs i * 256 + byte_at xs (i + 1)

-- `Ipv6Addr::from([u8; 16])`
unfoldable pub ipv6_from_octets : List ℕ → Ipv6Addr
ipv6_from_octets xs = record {
  s0 = word_at xs 0;
  s1 = word_at xs 2;
  s2 = word_at xs 4;
  s3 = word_at xs 6;
  s4 = word_at xs 8;
  s5 = word_at xs 10;
  s6 = word_at xs 12;
  s7 = word_at xs 14;
}

-- `SocketAddr::new` sets the flow information and the scope to 0, and the crate reads neither.
pub record SocketAddrV4 : Type 0 where
  pub ip : Ipv4Addr
  pub port : ℕ

pub record SocketAddrV6 : Type 0 where
  pub ip : Ipv6Addr
  pub port : ℕ

pub data SocketAddr : Type 0 where
  v4 : SocketAddrV4 → SocketAddr
  v6 : SocketAddrV6 → SocketAddr

-- `SocketAddr::new`
abbrev pub new_socket_addr : IpAddr → ℕ → SocketAddr
new_socket_addr (IpAddr.v4 ip) port = SocketAddr.v4 (record { ip = ip; port = port })
new_socket_addr (IpAddr.v6 ip) port = SocketAddr.v6 (record { ip = ip; port = port })
