-- ===== src/Rule/Families.antt =====
-- The families that NAT and redirect rules accept.
use mathlib.Core.Path.{subst}
use pfctl_rs.Common.{Option, none, some, List, [], ◌∷◌, ◌++◌}
use pfctl_rs.Error.{Error, Result, ◌>>=◌, >>=-assoc}
use pfctl_rs.Platform.{Platform}
use pfctl_rs.Rule.AddrFamily.{AddrFamily, compatible_af}
use pfctl_rs.Rule.AddrFamily.Laws.{Joins, compatible_af-Joins, bind-Joins, bind-Joins_right}
use pfctl_rs.Rule.Endpoint
use pfctl_rs.Rule.Endpoint.{NatEndpoint}
use pfctl_rs.Rule.Filter
use pfctl_rs.Rule.Filter.{FilterRule}
use pfctl_rs.Rule.Filter.Laws.{get_af-Joins}
use pfctl_rs.Rule.Nat
use pfctl_rs.Rule.Nat.{NatRule, nat_to_of, get_nat_to}
use pfctl_rs.Rule.Redirect
use pfctl_rs.Rule.Redirect.{RedirectRule}

-- The families of the addresses that a NAT rule translates to.
abbrev pub nat_families : {P : Platform} → Option (NatEndpoint P) → List AddrFamily
nat_families none = []
nat_families (some nat_to) = Endpoint.get_af nat_to.endpoint ∷ []

module _ {P : Platform} (r : NatRule P) where
  abbrev ends : List AddrFamily
  ends = Endpoint.get_af r.from ∷ Endpoint.get_af r.to ∷ []

  abbrev of_ends : Result Error AddrFamily
  of_ends = compatible_af (Endpoint.get_af r.from) (Endpoint.get_af r.to)

  nat_joined :
      (nat_to : Option (NatEndpoint P))
      → Joins (r.af ∷ (nat_families nat_to ++ ends)) (
          of_ends >>= λ endpoint_af. elim nat_to [
            | some nat_to ↦
                compatible_af endpoint_af (Endpoint.get_af nat_to.endpoint) >>= λ nat_af.
                compatible_af r.af nat_af
            | none ↦ compatible_af r.af endpoint_af
          ])
  nat_joined none =
      bind-Joins r.af ends of_ends
        (compatible_af-Joins (Endpoint.get_af r.from) (Endpoint.get_af r.to))
  nat_joined (some nat_to) =
      let to_af = Endpoint.get_af nat_to.endpoint in
      subst (λ m. Joins (r.af ∷ to_af ∷ ends) m)
        (>>=-assoc of_ends (λ c. compatible_af c to_af) (λ c. compatible_af r.af c))
        (bind-Joins r.af (to_af ∷ ends) (of_ends >>= λ c. compatible_af c to_af) (
          bind-Joins_right to_af ends of_ends
            (compatible_af-Joins (Endpoint.get_af r.from) (Endpoint.get_af r.to))))

  -- The family of a NAT rule is the join of the one that it names, those of its endpoints, and that
  -- of the address that it translates to, if it does; where no family fits them all the rule is an
  -- invalid combination.
  pub nat_get_af-Joins : Joins (r.af ∷ (nat_families (get_nat_to r) ++ ends)) (Nat.get_af r)
  unfolding Nat.get_af
  nat_get_af-Joins = nat_joined (get_nat_to r)

-- The family of a redirect rule is the join of the one that it names, those of its endpoints, and
-- that of the address that it redirects to; where no family fits them all the rule is an invalid
-- combination.
pub redirect_get_af-Joins :
    {P : Platform} (r : RedirectRule P)
    → Joins
        (r.af ∷ Endpoint.get_af r.redirect_to ∷ Endpoint.get_af r.from ∷ Endpoint.get_af r.to ∷ [])
        (Redirect.get_af r)
unfolding Redirect.get_af
redirect_get_af-Joins r =
    let from_af = Endpoint.get_af r.from in
    let to_af = Endpoint.get_af r.to in
    let rdr_af = Endpoint.get_af r.redirect_to in
    let ends = compatible_af from_af to_af in
    subst (λ m. Joins (r.af ∷ rdr_af ∷ from_af ∷ to_af ∷ []) m)
      (>>=-assoc ends (λ c. compatible_af c rdr_af) (λ c. compatible_af r.af c))
      (bind-Joins r.af (rdr_af ∷ from_af ∷ to_af ∷ []) (ends >>= λ c. compatible_af c rdr_af)
        (bind-Joins_right rdr_af (from_af ∷ to_af ∷ []) ends (compatible_af-Joins from_af to_af)))

-- The families of a filter, a NAT and a redirect rule are the joins of the one that the rule names,
-- those of its endpoints, and, for the latter two, that of the address that it translates or
-- redirects to, if it does; where no family fits them all the rule is an invalid combination.
pub filter-nat-redirect_get_af :
    {P : Platform} (f : FilterRule P) (n : NatRule P) (r : RedirectRule P)
    → Joins (f.af ∷ Endpoint.get_af f.from ∷ Endpoint.get_af f.to ∷ []) (Filter.get_af f)
      × Joins
          (n.af
            ∷ (nat_families (get_nat_to n) ++ Endpoint.get_af n.from ∷ Endpoint.get_af n.to ∷ []))
          (Nat.get_af n)
      × Joins
          (r.af
            ∷ Endpoint.get_af r.redirect_to
            ∷ Endpoint.get_af r.from
            ∷ Endpoint.get_af r.to
            ∷ [])
          (Redirect.get_af r)
filter-nat-redirect_get_af f n r = (get_af-Joins f, nat_get_af-Joins n, redirect_get_af-Joins r)
