-- ===== src/Rule/Icmp.antt =====
-- ICMP types and codes (src/rule/icmp.rs).
use mathlib.Core.Option.{map}
use pfctl_rs.Common.{ℕ, ◌+◌, ◌%◌, ◌==◌, ◌≡◌, refl, Option, none, some, if◌then◌else◌}
use pfctl_rs.Ffi.{PfRule}

pub data IcmpUnreachCode : Type 0 where
  net_unreach host_unreach proto_unreach port_unreach need_frag : IcmpUnreachCode

pub data IcmpTimexCode : Type 0 where
  transit reassembly : IcmpTimexCode

pub data Icmp6Type : Type 0 where
  router_sol router_adv neighbr_sol neighbr_adv redir : Icmp6Type

pub data IcmpType : Type 0 where
  echo_rep : IcmpType
  unreach : IcmpUnreachCode → IcmpType
  echo_req : IcmpType
  timex : IcmpTimexCode → IcmpType
  trace : IcmpType
  icmp6 : Icmp6Type → IcmpType

-- The discriminants.
abbrev pub unreach_code : IcmpUnreachCode → ℕ
unreach_code net_unreach = 0
unreach_code host_unreach = 1
unreach_code proto_unreach = 2
unreach_code port_unreach = 3
unreach_code need_frag = 4

abbrev pub timex_code : IcmpTimexCode → ℕ
timex_code transit = 0
timex_code reassembly = 1

abbrev pub icmp6_code : Icmp6Type → ℕ
icmp6_code router_sol = 133
icmp6_code router_adv = 134
icmp6_code neighbr_sol = 135
icmp6_code neighbr_adv = 136
icmp6_code redir = 137

abbrev pub raw_type : IcmpType → ℕ
raw_type echo_rep = 0
raw_type (unreach c) = 3
raw_type echo_req = 8
raw_type (timex c) = 11
raw_type trace = 30
raw_type (icmp6 t) = icmp6_code t

abbrev pub raw_code : IcmpType → Option ℕ
raw_code (unreach c) = some (unreach_code c)
raw_code (timex c) = some (timex_code c)
raw_code _ = none

-- The additions are of `u8`.
unfoldable pub copy_to : IcmpType → PfRule → PfRule
copy_to t pf_rule = record pf_rule {
  type_ = (raw_type t + 1) % 256;
  code = elim (raw_code t) [ none ↦ 0 | some raw ↦ (raw + 1) % 256 ];
}

-- What a rule's `type_` and `code` fields stand for in pf: 0 is a wildcard, and any other value is
-- one more than the number in the packet.
abbrev pub Selects : ℕ → Option ℕ → Type 0
Selects field none = field ≡ 0
Selects field (some n) = field ≡ n + 1

-- The codes of the unreachable and of the time exceeded message in RFC 792.
abbrev unreach_named : ℕ → Option IcmpUnreachCode
unreach_named c =
    if c == 0
    then some net_unreach
    else if c == 1
    then some host_unreach
    else if c == 2
    then some proto_unreach
    else if c == 3
    then some port_unreach
    else if c == 4
    then some need_frag
    else none

abbrev timex_named : ℕ → Option IcmpTimexCode
timex_named c = if c == 0 then some transit else if c == 1 then some reassembly else none

-- The messages of neighbour discovery in RFC 4861.
abbrev icmp6_named : ℕ → Option IcmpType
icmp6_named n =
    if n == 133
    then some (icmp6 router_sol)
    else if n == 134
    then some (icmp6 router_adv)
    else if n == 135
    then some (icmp6 neighbr_sol)
    else if n == 136
    then some (icmp6 neighbr_adv)
    else if n == 137
    then some (icmp6 redir)
    else none

-- The message that the type number of a packet names, and the code number if the message has one.
abbrev pub named : ℕ → Option ℕ → Option IcmpType
named n (some c) =
    if n == 3
    then map unreach (unreach_named c)
    else if n == 11
    then map timex (timex_named c)
    else none
named n none =
    if n == 0
    then some echo_rep
    else if n == 8
    then some echo_req
    else if n == 30
    then some trace
    else icmp6_named n

-- A rule that an ICMP type is written into selects one type number and, if the type has one, one
-- code number, and they are the numbers that name this ICMP type in a packet: neither addition wraps
-- around, and no two ICMP types are written alike.
pub copy_to-Selects :
    (t : IcmpType) (r : PfRule)
    → (n : ℕ) × (c : Option ℕ) × Selects (copy_to t r).type_ (some n)
      × Selects (copy_to t r).code c
      × (named n c ≡ some t)
unfolding copy_to
copy_to-Selects echo_rep r = (0, none, refl, refl, refl)
copy_to-Selects (unreach net_unreach) r = (3, some 0, refl, refl, refl)
copy_to-Selects (unreach host_unreach) r = (3, some 1, refl, refl, refl)
copy_to-Selects (unreach proto_unreach) r = (3, some 2, refl, refl, refl)
copy_to-Selects (unreach port_unreach) r = (3, some 3, refl, refl, refl)
copy_to-Selects (unreach need_frag) r = (3, some 4, refl, refl, refl)
copy_to-Selects echo_req r = (8, none, refl, refl, refl)
copy_to-Selects (timex transit) r = (11, some 0, refl, refl, refl)
copy_to-Selects (timex reassembly) r = (11, some 1, refl, refl, refl)
copy_to-Selects trace r = (30, none, refl, refl, refl)
copy_to-Selects (icmp6 router_sol) r = (133, none, refl, refl, refl)
copy_to-Selects (icmp6 router_adv) r = (134, none, refl, refl, refl)
copy_to-Selects (icmp6 neighbr_sol) r = (135, none, refl, refl, refl)
copy_to-Selects (icmp6 neighbr_adv) r = (136, none, refl, refl, refl)
copy_to-Selects (icmp6 redir) r = (137, none, refl, refl, refl)
