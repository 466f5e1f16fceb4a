-- ===== src/Rule/Filter/Laws.antt =====
-- When a filter rule can be written, and which families it accepts.
use pfctl_rs.Common.{◌≡◌, ◌≢◌, ◌⊎◌, inl, inr, refl, [], ◌∷◌}
use pfctl_rs.Error.{Error, ErrorKind, kind, ok, err}
use pfctl_rs.Platform.{Platform}
use pfctl_rs.Rule.AddrFamily.Laws.{Joins, compatible_af-Joins, bind-Joins}
use pfctl_rs.Rule.Endpoint
use pfctl_rs.Rule.Filter.{FilterRule, get_af, validate, validate_state_policy}
use pfctl_rs.Rule.StatePolicy.{StatePolicy}
use pfctl_rs.Rule.Proto.{Proto}

-- A rule's family is the join of the family that it names and those of its endpoints; where no
-- family fits all of them it is an invalid combination.
pub get_af-Joins :
    {P : Platform} (r : FilterRule P)
    → Joins (r.af ∷ Endpoint.get_af r.from ∷ Endpoint.get_af r.to ∷ []) (get_af r)
unfolding get_af
get_af-Joins r =
    bind-Joins r.af (Endpoint.get_af r.from ∷ Endpoint.get_af r.to ∷ []) _
      (compatible_af-Joins (Endpoint.get_af r.from) (Endpoint.get_af r.to))

-- The policy of a rule is accepted exactly if it does not change sequence numbers or proxy the
-- handshake, or the protocol is TCP; else the rule is an invalid combination.
pub validate_state_policy-cases :
    {P : Platform} (r : FilterRule P)
    → ((validate_state_policy r ≡ ok r.keep_state)
        × ((r.keep_state ≡ StatePolicy.off)
            ⊎ (r.keep_state ≡ StatePolicy.keep)
            ⊎ (r.proto ≡ Proto.tcp)))
      ⊎ ((e : Error) × (validate_state_policy r ≡ err e)
          × (kind e ≡ ErrorKind.invalid_rule_combination)
          × (r.keep_state ≢ StatePolicy.off)
          × (r.keep_state ≢ StatePolicy.keep)
          × (r.proto ≢ Proto.tcp))
unfolding validate_state_policy validate
validate_state_policy-cases r = by_cases r.keep_state r.proto
  where
    by_cases :
        (k : StatePolicy) (p : Proto)
        → ((validate k p ≡ ok k)
            × ((k ≡ StatePolicy.off) ⊎ (k ≡ StatePolicy.keep) ⊎ (p ≡ Proto.tcp)))
          ⊎ ((e : Error) × (validate k p ≡ err e)
              × (kind e ≡ ErrorKind.invalid_rule_combination)
              × (k ≢ StatePolicy.off)
              × (k ≢ StatePolicy.keep)
              × (p ≢ Proto.tcp))
    by_cases StatePolicy.off p = inl (refl, inl refl)
    by_cases StatePolicy.keep p = inl (refl, inr (inl refl))
    by_cases StatePolicy.modulate Proto.any = inr (_, refl, refl, (λ h. cc), (λ h. cc), (λ h. cc))
    by_cases StatePolicy.modulate Proto.tcp = inl (refl, inr (inr refl))
    by_cases StatePolicy.modulate Proto.udp = inr (_, refl, refl, (λ h. cc), (λ h. cc), (λ h. cc))
    by_cases StatePolicy.modulate Proto.icmp = inr (_, refl, refl, (λ h. cc), (λ h. cc), (λ h. cc))
    by_cases StatePolicy.modulate Proto.icmpv6 =
        inr (_, refl, refl, (λ h. cc), (λ h. cc), (λ h. cc))
    by_cases StatePolicy.syn_proxy Proto.any = inr (_, refl, refl, (λ h. cc), (λ h. cc), (λ h. cc))
    by_cases StatePolicy.syn_proxy Proto.tcp = inl (refl, inr (inr refl))
    by_cases StatePolicy.syn_proxy Proto.udp = inr (_, refl, refl, (λ h. cc), (λ h. cc), (λ h. cc))
    by_cases StatePolicy.syn_proxy Proto.icmp = inr (_, refl, refl, (λ h. cc), (λ h. cc), (λ h. cc))
    by_cases StatePolicy.syn_proxy Proto.icmpv6 =
        inr (_, refl, refl, (λ h. cc), (λ h. cc), (λ h. cc))
