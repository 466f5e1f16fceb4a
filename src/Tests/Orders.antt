-- ===== src/Tests/Orders.antt =====
-- The theorems on the order of entries and on single rules at the small kernel.
use pfctl_rs.Common.{
  ℕ, ◌≡◌, ◌≢◌, refl, sym, ap, true, inl, inr, List, [], ◌∷◌, ◌++◌, ◌==◌, Bool-cases, ==_iff, arith,
}
use pfctl_rs.Common.Int.{ℤ, pos}
use pfctl_rs.Error.{ok}
use pfctl_rs.Cstr.{zeros, try_copy_chars}
use pfctl_rs.Ffi.{PfiocRule, pf_change_add_tail, pf_change_get_ticket}
use pfctl_rs.Kernel.{Kernel, ioctl_error}
use pfctl_rs.Anchor.{RulesetKind}
use pfctl_rs.Utils.{copy_anchor_name}
use pfctl_rs.Rule.Interface
use pfctl_rs.Rule.Ip
use pfctl_rs.Rule.Owner
use pfctl_rs.Rule.Port
use pfctl_rs.Transaction.{
  assign_tickets, Transaction, new_change, set_filter_rules, set_scrub_rules, commit,
}
use pfctl_rs.Transaction.Names.{HasUniqueNames}
use pfctl_rs.Transaction.Order.{SameEntries, commit-SameEntries}
use pfctl_rs.Pfctl.{PfCtl}
use pfctl_rs.Pfctl.Appending.{IsChangeable, redirect, add_any, Appended, Sent, add_any-AppendsOne}
use pfctl_rs.Transaction.Rulesets.{Submitted}
use pfctl_rs.Tests.Platforms.{macos}
use pfctl_rs.Tests.Kernels.{Pf, empty, vpn, demo, rulesets, demo-IsTransactional, change}
use pfctl_rs.Tests.Transactions.{two, two-ok, two_unique, mail, change as two_change}
use pfctl_rs.Tests.Pools.{to_proxy}

-- The entries of `two`, the other way round.
abbrev reversed : Transaction macos
reversed = record {
  change_by_anchor = (mail, set_scrub_rules [] (new_change macos)) ∷ (vpn, two_change) ∷ [];
}

same_entries : SameEntries two.change_by_anchor reversed.change_by_anchor
same_entries = (
  λ e m. elim m [ inl a ↦ inr (inl a) | inr n ↦ elim n [ inl b ↦ inl b | inr z ↦ inr (inr z) ] ],
  λ e m. elim m [ inl a ↦ inr (inl a) | inr n ↦ elim n [ inl b ↦ inl b | inr z ↦ inr (inr z) ] ],
)

reversed_unique : HasUniqueNames reversed.change_by_anchor
reversed_unique = (((λ h. cc), tt), (tt, tt))

reversed-ok : (commit macos demo reversed empty).0 ≡ ok tt
unfolding commit pfctl_rs.Utils.open_pf pfctl_rs.Transaction.trans_elements
    pfctl_rs.Transaction.changes_of copy_anchor_name try_copy_chars zeros
    pfctl_rs.Kernel.ioctl_guard pfctl_rs.Transaction.add_changes assign_tickets
    pfctl_rs.Transaction.setup_trans pfctl_rs.Transaction.add_filter_rule
    pfctl_rs.Rule.Filter.try_copy_to pfctl_rs.Rule.Filter.validate_state_policy
    Interface.try_copy_to pfctl_rs.Rule.Filter.get_af pfctl_rs.Rule.AddrFamily.compatible_af
    pfctl_rs.Rule.Endpoint.try_copy_to pfctl_rs.ByteOrder.store16 pfctl_rs.ByteOrder.store32
    pfctl_rs.ByteOrder.to_be16 pfctl_rs.ByteOrder.to_be32 pfctl_rs.Common.contains
    pfctl_rs.Common.replicate pfctl_rs.Kernel.ioctl_guard_or pfctl_rs.Net.ipv4_to_u32
    pfctl_rs.Net.segments pfctl_rs.Rule.Icmp.copy_to Ip.addr_copy_to Ip.any_ffi_repr Ip.copy_to
    Ip.network_copy_to pfctl_rs.Rule.Log.to_u8 Owner.gid_copy_to Owner.uid_copy_to
    Port.try_copy_to_pool Port.try_copy_to_range pfctl_rs.Rule.TcpFlags.to_u8
    pfctl_rs.Transaction.add_rules pfctl_rs.Transaction.add_work pfctl_rs.Transaction.commit_with
    pfctl_rs.Transaction.new_trans_element pfctl_rs.Transaction.zip_by_ref
    pfctl_rs.Transaction.setup_route_pool pfctl_rs.Utils.get_pool_ticket
reversed-ok = refl

commit-SameEntries_example :
    (commit macos demo two empty).1.active (pos 1) (vpn ++ zeros 1021)
    ≡ (commit macos demo reversed empty).1.active (pos 1) (vpn ++ zeros 1021)
commit-SameEntries_example =
    commit-SameEntries macos rulesets demo-IsTransactional two reversed empty same_entries
      two_unique reversed_unique two-ok reversed-ok RulesetKind.filter (vpn ++ zeros 1021)

abbrev pf : PfCtl
pf = record { file = 3 }

not_error : pos 0 ≢ ioctl_error
not_error h = ground arith

abbrev added : PfiocRule → Pf → Pf
added a s = change (record a { action = pf_change_add_tail }) s

change_tail : (a : PfiocRule) (s : Pf) → a.action ≡ pf_change_add_tail → change a s ≡ added a s
change_tail a s h = ground (arith, ==_iff a.action pf_change_add_tail)

change_other : (a : PfiocRule) (s : Pf) → a.action ≡ pf_change_get_ticket → change a s ≡ s
change_other a s h = ground (arith, ==_iff a.action pf_change_add_tail)

pub demo-IsChangeable : IsChangeable demo rulesets
demo-IsChangeable = record {
  ticket_active = λ fd a s k b h. ap (λ z. z.active k b) (change_other a s h);
  ticket_buffered = λ fd a s t h. ap (λ z. z.pools t) (change_other a s h);
  change_refused = λ fd a s k b h. absurd (not_error h);
  change_appends = λ fd a s k b h r. ap (λ z. z.active k b) (change_tail a s h);
}

add_any-AppendsOne_example :
    ((add_any macos demo pf vpn (redirect to_proxy) empty).0 ≢ ok tt
      → (k : ℤ) (b : List ℕ)
      → (add_any macos demo pf vpn (redirect to_proxy) empty).1.active k b ≡ [])
    × ((add_any macos demo pf vpn (redirect to_proxy) empty).0 ≡ ok tt
        → (name : List ℕ) × (p : Submitted) × Sent macos rulesets demo-IsTransactional
            demo-IsChangeable vpn
            (redirect to_proxy)
            name
            p
          × Appended macos rulesets demo-IsTransactional demo-IsChangeable
              (pos 4)
              name
              p
              empty
              (add_any macos demo pf vpn (redirect to_proxy) empty).1)
add_any-AppendsOne_example =
    add_any-AppendsOne macos rulesets demo-IsTransactional demo-IsChangeable pf vpn
      (redirect to_proxy) empty
