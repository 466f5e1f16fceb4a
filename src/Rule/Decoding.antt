-- ===== src/Rule/Decoding.antt =====
-- What can be read back of a NAT and of a redirect rule from the `pf_rule` that it is written as.
use pfctl_rs.Common.{◌≡◌, some, [], ◌∷◌, ◌++◌}
use pfctl_rs.Error.{Error, ok}
use pfctl_rs.Cstr.{until_nul}
use pfctl_rs.Platform.{Platform}
use pfctl_rs.Ffi.{PfRule}
use pfctl_rs.Rule.AddrFamily
use pfctl_rs.Rule.AddrFamily.{AddrFamily}
use pfctl_rs.Rule.AddrFamily.Laws.{IsJoin}
use pfctl_rs.Rule.Direction
use pfctl_rs.Rule.Proto
use pfctl_rs.Rule.Interface
use pfctl_rs.Rule.Interface.{to_str}
use pfctl_rs.Rule.Endpoint
use pfctl_rs.Rule.Filter
use pfctl_rs.Rule.Filter.Decoding.{EndpointRead}
use pfctl_rs.Rule.Nat
use pfctl_rs.Rule.Nat.{NatRule, get_nat_to}
use pfctl_rs.Rule.Redirect
use pfctl_rs.Rule.Redirect.{RedirectRule}
use pfctl_rs.Rule.Families.{nat_families}

-- What a written NAT rule reads back as.
abbrev pub NatRead : {P : Platform} → NatRule P → PfRule → PfRule → Type 0
NatRead r dst out =
    (until_nul out.ifname ≡ some (to_str r.interface))
    × ((af : AddrFamily) × (AddrFamily.try_from out.af ≡ ok af)
        × IsJoin af (
            r.af
            ∷ (nat_families (get_nat_to r) ++ Endpoint.get_af r.from ∷ Endpoint.get_af r.to ∷ [])))
    × EndpointRead r.from dst.src out.src
    × EndpointRead r.to dst.dst out.dst

-- What a written redirect rule reads back as.
abbrev pub RedirectRead : {P : Platform} → RedirectRule P → PfRule → PfRule → Type 0
RedirectRead {P} r dst out =
    (Direction.try_from out.direction ≡ ok r.direction)
    × (Proto.try_from P out.proto ≡ ok r.proto)
    × (until_nul out.ifname ≡ some (to_str r.interface))
    × (until_nul out.label ≡ some r.label)
    × ((af : AddrFamily) × (AddrFamily.try_from out.af ≡ ok af)
        × IsJoin af (
            r.af
            ∷ Endpoint.get_af r.redirect_to
            ∷ Endpoint.get_af r.from
            ∷ Endpoint.get_af r.to
            ∷ []))
    × EndpointRead r.from dst.src out.src
    × EndpointRead r.to dst.dst out.dst
