-- ===== src/Rule/Filter/Decoding.antt =====
-- What can be read back of a filter rule from the `pf_rule` that it is written as.
use pfctl_rs.Common.{ℕ, ◌≡◌, sym, ap, ◌∙◌, String, Option, some, List, [], ◌∷◌, arith}
use pfctl_rs.Error.{Error, Result, ok, err, panic, ◌>>=◌, >>=-eq-ok, map_err}
use pfctl_rs.Cstr.{Str, try_copy_chars, until_nul}
use pfctl_rs.Cstr.Laws.{try_copy_chars-until_nul}
use pfctl_rs.Platform.{Platform, HasDistinctProtocols}
use pfctl_rs.Ffi.{PfRule, PfRuleAddr}
use pfctl_rs.Rule.AddrFamily
use pfctl_rs.Rule.AddrFamily.{AddrFamily}
use pfctl_rs.Rule.AddrFamily.Laws.{IsJoin, addr_family_try_from_iff}
use pfctl_rs.Rule.Direction
use pfctl_rs.Rule.Proto
use pfctl_rs.Rule.Icmp
use pfctl_rs.Rule.Ip
use pfctl_rs.Rule.Ip.Laws.{AddressRead, copy_to-AddressRead}
use pfctl_rs.Rule.Port
use pfctl_rs.Rule.Port.Laws.{IsPort, IsOrdered, decode_range, Written, try_copy_to_range-Written}
use pfctl_rs.Rule.Interface
use pfctl_rs.Rule.Interface.{to_str}
use pfctl_rs.Rule.Endpoint
use pfctl_rs.Rule.Endpoint.{Endpoint}
use pfctl_rs.Rule.Filter.{FilterRule, get_af, try_copy_to}
use pfctl_rs.Rule.Filter.Laws.{get_af-Joins}

-- A written endpoint holds the port, in order, and the address with its mask.
abbrev pub EndpointRead : {P : Platform} → Endpoint P → PfRuleAddr → PfRuleAddr → Type 0
EndpointRead e dst out =
    IsOrdered e.port × (decode_range out.range ≡ some e.port) × AddressRead e.ip dst.addr out.addr

pub Written-ok :
    {A : Type 0} (read : A → Option Port.Port) (p : Port.Port) (r : Result Error A) (out : A)
    → Written read p r
    → r ≡ ok out
    → IsOrdered p × (read out ≡ some p)
Written-ok read p (ok a) out w h =
    let same : a ≡ out = ground arith in (w.0, ap read (sym same) ∙ w.1)
Written-ok read p (err e) out w h = absurd (ground arith)
Written-ok read p panic out w h = absurd w

pub endpoint-EndpointRead :
    {P : Platform} (e : Endpoint P) (dst : PfRuleAddr) {out : PfRuleAddr}
    → IsPort e.port
    → Endpoint.try_copy_to e dst ≡ ok out
    → EndpointRead e dst out
unfolding Endpoint.try_copy_to
endpoint-EndpointRead e dst {out} w h =
    let (addr, a, k) =
      >>=-eq-ok (Ip.copy_to e.ip dst.addr)
        (λ addr. Port.try_copy_to_range e.port dst.range >>= λ range.
          ok (record dst { addr = addr; range = range }))
        h in
    let (range, b, q) =
      >>=-eq-ok (Port.try_copy_to_range e.port dst.range)
        (λ range. ok (record dst { addr = addr; range = range })) k in
    let (ordered, read) =
      Written-ok decode_range e.port _ range (try_copy_to_range-Written e.port dst.range w) b in
    let ranges : range ≡ out.range = ground arith in
    let addrs : addr ≡ out.addr = ground arith in
    (
      ordered,
      ap decode_range (sym ranges) ∙ read,
      copy_to-AddressRead e.ip dst.addr (a ∙ ap ok addrs),
    )

module _ {P : Platform} (r : FilterRule P) (dst : PfRule) (out : PfRule)
    (h : try_copy_to r dst ≡ ok out) where
  written_direction : out.direction ≡ Direction.to_u8 r.direction
  unfolding try_copy_to Icmp.copy_to
  written_direction = ground arith

  written_proto : out.proto ≡ Proto.to_u8 P r.proto
  unfolding try_copy_to Icmp.copy_to
  written_proto = ground arith

  written_ifname : Interface.try_copy_to r.interface dst.ifname ≡ ok out.ifname
  unfolding try_copy_to Icmp.copy_to
  written_ifname = ground arith

  written_label : map_err Error.invalid_label (try_copy_chars r.label dst.label) ≡ ok out.label
  unfolding try_copy_to Icmp.copy_to
  written_label = ground arith

  written_src : Endpoint.try_copy_to r.from dst.src ≡ ok out.src
  unfolding try_copy_to Icmp.copy_to
  written_src = ground arith

  written_dst : Endpoint.try_copy_to r.to dst.dst ≡ ok out.dst
  unfolding try_copy_to Icmp.copy_to
  written_dst = ground arith

  written_af : (af : AddrFamily) × (get_af r ≡ ok af) × (AddrFamily.to_u8 af ≡ out.af)
  unfolding try_copy_to Icmp.copy_to
  written_af = ground arith

pub copied-until_nul :
    (f : String → Error) (s : Str) (dst out : List ℕ)
    → map_err f (try_copy_chars s dst) ≡ ok out
    → until_nul out ≡ some s
copied-until_nul f s dst out h =
    let c : try_copy_chars s dst ≡ ok out = ground arith in (try_copy_chars-until_nul s dst c).0

-- What a written filter rule reads back as: its direction and its protocol, its interface and its
-- label as the strings in their buffers, for its family the join of the families that it names, and
-- its endpoints with their ports, whose ranges are in order.
abbrev pub FilterRead : {P : Platform} → FilterRule P → PfRule → PfRule → Type 0
FilterRead {P} r dst out =
    (Direction.try_from out.direction ≡ ok r.direction)
    × (Proto.try_from P out.proto ≡ ok r.proto)
    × (until_nul out.ifname ≡ some (to_str r.interface))
    × (until_nul out.label ≡ some r.label)
    × ((af : AddrFamily) × (AddrFamily.try_from out.af ≡ ok af)
        × IsJoin af (r.af ∷ Endpoint.get_af r.from ∷ Endpoint.get_af r.to ∷ []))
    × EndpointRead r.from dst.src out.src
    × EndpointRead r.to dst.dst out.dst

pub try_copy_to-FilterRead :
    {P : Platform} (r : FilterRule P) (dst out : PfRule)
    → HasDistinctProtocols P
    → IsPort r.from.port
    → IsPort r.to.port
    → try_copy_to r dst ≡ ok out
    → FilterRead r dst out
unfolding Interface.try_copy_to
try_copy_to-FilterRead {P} r dst out D from to h =
    let (af, e, q) = written_af r dst out h in
    (
      ((Direction.direction_try_from_iff out.direction).0 r.direction).1
          (sym (written_direction r dst out h)),
      ((Proto.proto_try_from_iff P D out.proto).0 r.proto).1 (sym (written_proto r dst out h)),
      copied-until_nul Error.invalid_interface_name (to_str r.interface) dst.ifname out.ifname
          (written_ifname r dst out h),
      copied-until_nul Error.invalid_label r.label dst.label out.label (written_label r dst out h),
      (af, ((addr_family_try_from_iff out.af).0 af).1 q, (rw e at (get_af-Joins r))),
      endpoint-EndpointRead r.from dst.src from (written_src r dst out h),
      endpoint-EndpointRead r.to dst.dst to (written_dst r dst out h),
    )
