-- ===== src/Rule/Proto.antt =====
-- `Proto` (src/rule/proto.rs). The protocol numbers are libc's.
use pfctl_rs.Common.{ℕ, String, ◌%◌, ◌≡◌, ◌≢◌, ◌↔◌, ◌==◌, if◌then◌else◌, arith}
use pfctl_rs.Error.{Error, Result, ok, err}
use pfctl_rs.Platform.{Platform, HasDistinctProtocols}

pub data Proto : Type 0 where
  any tcp udp icmp icmpv6 : Proto

-- `{:?}`
abbrev pub to_string : Proto → String
to_string any = "Any"
to_string tcp = "Tcp"
to_string udp = "Udp"
to_string icmp = "Icmp"
to_string icmpv6 = "IcmpV6"

module _ (P : Platform) where
  -- `u8::from`
  abbrev pub to_u8 : Proto → ℕ
  to_u8 any = P.ipproto_ip % 256
  to_u8 tcp = P.ipproto_tcp % 256
  to_u8 udp = P.ipproto_udp % 256
  to_u8 icmp = P.ipproto_icmp % 256
  to_u8 icmpv6 = P.ipproto_icmpv6 % 256

  unfoldable pub try_from : ℕ → Result Error Proto
  try_from proto =
      if proto == to_u8 any
      then ok any
      else if proto == to_u8 tcp
      then ok tcp
      else if proto == to_u8 udp
      then ok udp
      else if proto == to_u8 icmp
      then ok icmp
      else if proto == to_u8 icmpv6
      then ok icmpv6
      else err (Error.invalid_transport_protocol proto)

  -- A byte is read as a protocol exactly if that protocol is written as the byte. Every other byte
  -- is refused, with the byte in the error.
  pub proto_try_from_iff :
      HasDistinctProtocols P
      → (b : ℕ)
      → ((p : Proto) → (try_from b ≡ ok p) ↔ (to_u8 p ≡ b))
        × (((p : Proto) → to_u8 p ≢ b) → try_from b ≡ err (Error.invalid_transport_protocol b))
  unfolding try_from
  proto_try_from_iff D b = (byte, λ h. ground (arith, h any, h tcp, h udp, h icmp, h icmpv6))
    where
      byte : (p : Proto) → (try_from b ≡ ok p) ↔ (to_u8 p ≡ b)
      byte any = ground arith
      byte tcp = ground arith
      byte udp = ground arith
      byte icmp = ground arith
      byte icmpv6 = ground arith
