-- ===== src/Rule/AddrFamily.antt =====
-- `AddrFamily` (src/rule/addr_family.rs) and `compatible_af` (src/rule/mod.rs).
pub mod Laws
use pfctl_rs.Common.{ℕ, ◌≡◌, Bool, true, false, String, ◌<>◌, ◌==◌, if◌then◌else◌}
use pfctl_rs.Error.{Error, Result, ok, err}
use pfctl_rs.Ffi.{pf_unspec, pf_inet, pf_inet6}

pub data AddrFamily : Type 0 where
  any ipv4 ipv6 : AddrFamily

-- `u8::from`
abbrev pub to_u8 : AddrFamily → ℕ
to_u8 any = pf_unspec
to_u8 ipv4 = pf_inet
to_u8 ipv6 = pf_inet6

-- `fmt`
abbrev pub to_string : AddrFamily → String
to_string any = "any"
to_string ipv4 = "IPv4"
to_string ipv6 = "IPv6"

unfoldable pub try_from : ℕ → Result Error AddrFamily
try_from family =
    if family == to_u8 any
    then ok any
    else if family == to_u8 ipv4
    then ok ipv4
    else if family == to_u8 ipv6
    then ok ipv6
    else err (Error.invalid_address_family family)

-- The derived `==`.
abbrev pub eq_af : AddrFamily → AddrFamily → Bool
eq_af any any = true
eq_af ipv4 ipv4 = true
eq_af ipv6 ipv6 = true
eq_af _ _ = false

-- The last two arms of the match, for different families.
abbrev compatible_ne : AddrFamily → AddrFamily → Result Error AddrFamily
compatible_ne af any = ok af
compatible_ne any af = ok af
compatible_ne af1 af2 = err (
    Error.invalid_rule_combination
      ("AddrFamily " <> to_string af1 <> " and " <> to_string af2 <> " are incompatible"))

unfoldable pub compatible_af : AddrFamily → AddrFamily → Result Error AddrFamily
compatible_af af1 af2 = if eq_af af1 af2 then ok af1 else compatible_ne af1 af2
