-- ===== src/Rule/Writing.antt =====
-- Exactly which filter, NAT and redirect rules can be written (`try_copy_to`).
use pfctl_rs.Common.{
  ℕ, ◌≡◌, refl, ◌⊎◌, inl, inr, List, [], ◌∷◌, ◌++◌, All, length, String, ltb, Bool-cases, arith,
}
use pfctl_rs.Error.{Error, Result, ok, err, panic, ◌>>=◌, map_err}
use pfctl_rs.Error.Succeeds.{
  SucceedsIff, bind-SucceedsIff, iff-SucceedsIff, value-SucceedsIff, four-SucceedsIff,
}
use pfctl_rs.ByteOrder.{to_be16}
use pfctl_rs.Cstr.{try_copy_chars}
use pfctl_rs.Cstr.Laws.{Fits, try_copy_chars-cases}
use pfctl_rs.Platform.{Platform, AcceptsPrefixes}
use pfctl_rs.Ffi.{PfRule, PfRuleAddr, PfPortRange}
use pfctl_rs.Rule.AddrFamily.{AddrFamily}
use pfctl_rs.Rule.AddrFamily.Laws.{Allows, Joins}
use pfctl_rs.Rule.StatePolicy
use pfctl_rs.Rule.Proto
use pfctl_rs.Rule.Ip
use pfctl_rs.Rule.Ip.Laws.{copy_to-ok}
use pfctl_rs.Rule.Port
use pfctl_rs.Rule.Port.Laws.{IsOrdered}
use pfctl_rs.Rule.Interface
use pfctl_rs.Rule.Interface.{Interface, to_str}
use pfctl_rs.Rule.Endpoint
use pfctl_rs.Rule.Endpoint.{Endpoint}
use pfctl_rs.Rule.Filter
use pfctl_rs.Rule.Filter.{FilterRule}
use pfctl_rs.Rule.Filter.Laws.{get_af-Joins, validate_state_policy-cases}
use pfctl_rs.Rule.Nat
use pfctl_rs.Rule.Nat.{NatRule, get_nat_to}
use pfctl_rs.Rule.Redirect
use pfctl_rs.Rule.Redirect.{RedirectRule}
use pfctl_rs.Rule.Families.{nat_families, nat_get_af-Joins, redirect_get_af-Joins}

copy-SucceedsIff :
    (f : String → Error) (s dst : List ℕ)
    → SucceedsIff (Fits (length dst) s) (map_err f (try_copy_chars s dst))
copy-SucceedsIff f s dst = elim (try_copy_chars-cases s dst) [
  | inl (fits, (out, e)) ↦ inl (fits, (out, rw e refl))
  | inr (inl (long, e)) ↦ inr ((λ h. omega arith), (f "Too long", rw e refl))
  | inr (inr (short, null, e)) ↦ inr ((λ h. cc (h.1, null)), (f "Contains null byte", rw e refl))
]

interface-SucceedsIff :
    (i : Interface) (dst : List ℕ)
    → SucceedsIff (Fits (length dst) (to_str i)) (Interface.try_copy_to i dst)
unfolding Interface.try_copy_to
interface-SucceedsIff i dst = copy-SucceedsIff Error.invalid_interface_name (to_str i) dst

-- Some family allows all of these: they do not name both IPv4 and IPv6.
abbrev pub Agree : List AddrFamily → Type 0
Agree as' = (d : AddrFamily) × All (Allows d) as'

Joins-SucceedsIff :
    (as' : List AddrFamily) (r : Result Error AddrFamily) → Joins as' r → SucceedsIff (Agree as') r
Joins-SucceedsIff as' (ok c) j = inl ((c, (j c).1 (inr refl)), (c, refl))
Joins-SucceedsIff as' (err e) j = inr ((λ (d, h). j.1 d h), (e, refl))
Joins-SucceedsIff as' panic j = absurd j

range-SucceedsIff :
    (p : Port.Port) (dst : PfPortRange) → SucceedsIff (IsOrdered p) (Port.try_copy_to_range p dst)
unfolding Port.try_copy_to_range
range-SucceedsIff Port.any dst = inl (tt, (_, refl))
range-SucceedsIff (Port.one a m) dst = inl (tt, (_, refl))
range-SucceedsIff (Port.range a b m) dst = elim (Bool-cases (ltb b a)) [
  | inl bad ↦ inr ((λ h. ground arith), (Error.invalid_port_range, rw bad refl))
  | inr good ↦ inl (
    ground arith,
    (record dst { op = Port.range_to_u8 m; port0 = to_be16 a; port1 = to_be16 b }, rw good refl),
  )
]

policy-SucceedsIff :
    {P : Platform} (r : FilterRule P)
    → SucceedsIff
        ((r.keep_state ≡ StatePolicy.off)
          ⊎ (r.keep_state ≡ StatePolicy.keep)
          ⊎ (r.proto ≡ Proto.tcp))
        (Filter.validate_state_policy r)
policy-SucceedsIff r = elim (validate_state_policy-cases r) [
  | inl (e, c) ↦ inl (c, (_, e))
  | inr (x, e, k, off, keep, tcp) ↦
      inr (
        (λ h. elim h [ inl a ↦ off a | inr b ↦ elim b [ inl c ↦ keep c | inr d ↦ tcp d ] ]),
        (x, e),
      )
]

-- The state policy is off, plain, or for TCP; the interface and the label fit their buffers; the
-- families of the rule and of its endpoints agree; and the bounds of the ports are in order.
abbrev pub FilterIsWritable : {P : Platform} → FilterRule P → PfRule → Type 0
FilterIsWritable r dst =
    ((r.keep_state ≡ StatePolicy.off) ⊎ (r.keep_state ≡ StatePolicy.keep) ⊎ (r.proto ≡ Proto.tcp))
    × Fits (length dst.ifname) (to_str r.interface)
    × Agree (r.af ∷ Endpoint.get_af r.from ∷ Endpoint.get_af r.to ∷ [])
    × IsOrdered r.from.port
    × IsOrdered r.to.port
    × Fits (length dst.label) r.label

abbrev pub NatIsWritable : {P : Platform} → NatRule P → PfRule → Type 0
NatIsWritable r dst =
    Fits (length dst.ifname) (to_str r.interface)
    × Agree
        (r.af ∷ (nat_families (get_nat_to r) ++ Endpoint.get_af r.from ∷ Endpoint.get_af r.to ∷ []))
    × IsOrdered r.from.port
    × IsOrdered r.to.port

abbrev pub RedirectIsWritable : {P : Platform} → RedirectRule P → PfRule → Type 0
RedirectIsWritable r dst =
    Fits (length dst.ifname) (to_str r.interface)
    × Agree
        (r.af ∷ Endpoint.get_af r.redirect_to ∷ Endpoint.get_af r.from ∷ Endpoint.get_af r.to ∷ [])
    × IsOrdered r.from.port
    × IsOrdered r.to.port
    × Fits (length dst.label) r.label

module _ {P : Platform} (A : AcceptsPrefixes P) where
  endpoint-SucceedsIff :
      (e : Endpoint P) (dst : PfRuleAddr)
      → SucceedsIff (IsOrdered e.port) (Endpoint.try_copy_to e dst)
  unfolding Endpoint.try_copy_to
  endpoint-SucceedsIff e dst =
      let (n, q) = copy_to-ok P A e.ip dst.addr in
      iff-SucceedsIff (IsOrdered e.port × Unit {0}) (IsOrdered e.port) _ (λ h. h.0) (λ h. (h, tt))
        (rw q (
          bind-SucceedsIff (IsOrdered e.port) (Unit {0}) (Port.try_copy_to_range e.port dst.range)
            (λ range. ok (record dst { addr = Ip.network_copy_to n dst.addr; range = range }))
            (range-SucceedsIff e.port dst.range) (λ range. inl (tt, (_, refl)))))

  -- The parts that the three kinds of rules share: the interface, the family and the endpoints.
  rest-SucceedsIff :
      {X : Type 0} (e : Type 0) (i : Interface) (as' : List AddrFamily)
      (af : Result Error AddrFamily) (from to : Endpoint P) (dst : PfRule)
      (g : List ℕ → AddrFamily → PfRuleAddr → PfRuleAddr → Result Error X)
      → Joins as' af
      → ((x : List ℕ) (y : AddrFamily) (z w : PfRuleAddr) → SucceedsIff e (g x y z w))
      → SucceedsIff
          (Fits (length dst.ifname) (to_str i)
            × Agree as'
            × IsOrdered from.port
            × IsOrdered to.port
            × e)
          (Interface.try_copy_to i dst.ifname >>= λ ifname. af >>= λ af.
            Endpoint.try_copy_to from dst.src >>= λ src.
            Endpoint.try_copy_to to dst.dst >>= λ to. g ifname af src to)
  rest-SucceedsIff e i as' af from to dst g joins hg =
      four-SucceedsIff (Fits (length dst.ifname) (to_str i)) (Agree as') (IsOrdered from.port)
        (IsOrdered to.port) e (Interface.try_copy_to i dst.ifname) af
        (Endpoint.try_copy_to from dst.src) (Endpoint.try_copy_to to dst.dst) g
        (interface-SucceedsIff i dst.ifname) (Joins-SucceedsIff as' af joins)
        (endpoint-SucceedsIff from dst.src) (endpoint-SucceedsIff to dst.dst) hg

  -- A filter rule is written exactly if its state policy is off, plain, or for TCP; its interface
  -- and its label fit their buffers; the families that it names and that of its endpoints agree;
  -- and the bounds of its ports are in order. If not, then the result is an error, never a panic.
  pub filter-SucceedsIff :
      (r : FilterRule P) (dst : PfRule)
      → SucceedsIff (FilterIsWritable r dst) (Filter.try_copy_to r dst)
  unfolding Filter.try_copy_to
  filter-SucceedsIff r dst =
      let fams = r.af ∷ Endpoint.get_af r.from ∷ Endpoint.get_af r.to ∷ [] in
      let fits = Fits (length dst.label) r.label in
      let policy_ok =
        (r.keep_state ≡ StatePolicy.off)
        ⊎ (r.keep_state ≡ StatePolicy.keep)
        ⊎ (r.proto ≡ Proto.tcp) in
      let rest =
        Fits (length dst.ifname) (to_str r.interface)
        × Agree fams
        × IsOrdered r.from.port
        × IsOrdered r.to.port
        × fits in
      iff-SucceedsIff (policy_ok × rest) (FilterIsWritable r dst) (Filter.try_copy_to r dst)
        (λ (p, (i, a, f, t, l)). (p, i, a, f, t, l)) (λ (p, i, a, f, t, l). (p, (i, a, f, t, l)))
        (bind-SucceedsIff policy_ok rest (Filter.validate_state_policy r) _ (policy-SucceedsIff r)
          λ policy.
            rest-SucceedsIff fits r.interface fams (Filter.get_af r) r.from r.to dst _
              (get_af-Joins r)
              λ ifname af src to.
                value-SucceedsIff fits _ _ (copy-SucceedsIff Error.invalid_label r.label dst.label))

  nat-SucceedsIff :
      (r : NatRule P) (dst : PfRule) → SucceedsIff (NatIsWritable r dst) (Nat.try_copy_to r dst)
  unfolding Nat.try_copy_to
  nat-SucceedsIff r dst =
      let ends = Endpoint.get_af r.from ∷ Endpoint.get_af r.to ∷ [] in
      let fams = r.af ∷ (nat_families (get_nat_to r) ++ ends) in
      iff-SucceedsIff
        (Fits (length dst.ifname) (to_str r.interface)
          × Agree fams
          × IsOrdered r.from.port
          × IsOrdered r.to.port
          × Unit {0})
        (NatIsWritable r dst) (Nat.try_copy_to r dst) (λ (i, a, f, t, u). (i, a, f, t))
        (λ (i, a, f, t). (i, a, f, t, tt))
        (rest-SucceedsIff (Unit {0}) r.interface fams (Nat.get_af r) r.from r.to dst _
          (nat_get_af-Joins r) λ ifname af src to. inl (tt, (_, refl)))

  pub redirect-SucceedsIff :
      (r : RedirectRule P) (dst : PfRule)
      → SucceedsIff (RedirectIsWritable r dst) (Redirect.try_copy_to r dst)
  unfolding Redirect.try_copy_to
  redirect-SucceedsIff r dst =
      let fits = Fits (length dst.label) r.label in
      rest-SucceedsIff fits r.interface
        (r.af ∷ Endpoint.get_af r.redirect_to ∷ Endpoint.get_af r.from ∷ Endpoint.get_af r.to ∷ [])
        (Redirect.get_af r) r.from r.to dst _ (redirect_get_af-Joins r)
        λ ifname af src to.
          value-SucceedsIff fits _ _ (copy-SucceedsIff Error.invalid_label r.label dst.label)

  -- A NAT rule is written exactly if its interface fits its buffer, the families of the rule, of
  -- its endpoints and of the address that it translates to, if it does, agree, and the bounds of
  -- its ports are in order. A redirect rule is written exactly if its interface and its label fit
  -- their buffers, the families of the rule, of its endpoints and of the address that it redirects
  -- to agree, and the bounds of its ports are in order. If not, then the result is an error, never
  -- a panic.
  pub nat-redirect-SucceedsIff :
      (n : NatRule P) (r : RedirectRule P) (dst : PfRule)
      → SucceedsIff (NatIsWritable n dst) (Nat.try_copy_to n dst)
        × SucceedsIff (RedirectIsWritable r dst) (Redirect.try_copy_to r dst)
  nat-redirect-SucceedsIff n r dst = (nat-SucceedsIff n dst, redirect-SucceedsIff r dst)
