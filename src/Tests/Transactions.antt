-- ===== src/Tests/Transactions.antt =====
-- The theorems on transactions at the small kernel.
use pfctl_rs.Common.{
  ℕ, ◌≡◌, ◌≢◌, refl, sym, ap, ◌∙◌, inl, inr, Bool, true, false, Option, none, some, List, [], ◌∷◌,
  map, set, overlay, arith,
}
use pfctl_rs.Common.Int.{pos}
use pfctl_rs.Error.{Error, ok, err}
use pfctl_rs.Cstr.{Str, zeros, try_copy_chars}
use pfctl_rs.Ffi.{PfiocTransElem, zero_trans_elem}
use pfctl_rs.Kernel.{Kernel}
use pfctl_rs.Anchor.{RulesetKind}
use pfctl_rs.Utils.{copy_anchor_name}
use pfctl_rs.Rule.AddrFamily.{AddrFamily}
use pfctl_rs.Rule.Direction.{Direction}
use pfctl_rs.Rule.Proto.{Proto}
use pfctl_rs.Rule.StatePolicy.{StatePolicy}
use pfctl_rs.Rule.Port
use pfctl_rs.Rule.Port.{Port}
use pfctl_rs.Rule.Ip
use pfctl_rs.Rule.Interface
use pfctl_rs.Rule.Route
use pfctl_rs.Rule.Owner
use pfctl_rs.Rule.Endpoint.{Endpoint}
use pfctl_rs.Rule.Action
use pfctl_rs.Rule.Filter.{FilterRule}
use pfctl_rs.Transaction.{
  AnchorChange, Transaction, new_change, set_filter_rules, set_nat_rules, set_scrub_rules,
  new_transaction, add_change, commit, partition, assign_tickets,
}
use pfctl_rs.Transaction.Names.{Among, HasUniqueNames, add_change-HasUniqueNames}
use pfctl_rs.Transaction.Tickets.{Assigned, assign_tickets-Assigned}
use pfctl_rs.Transaction.Submission.{
  filter_submission, nat_submission, redirect_submission, scrub_submission,
}
use pfctl_rs.Transaction.Filling.{copy_anchor_name_injective}
use pfctl_rs.Transaction.Run.{Published}
use pfctl_rs.Transaction.Atomic.{commit-Published, commit-RollsBack, commit-others}
use pfctl_rs.Tests.Platforms.{macos}
use pfctl_rs.Tests.Kernels.{empty, vpn, demo, rulesets, demo-IsTransactional}

abbrev any_end : Endpoint macos
any_end = record { ip = Ip.any; port = Port.any }

-- Lets TCP in to port 443.
abbrev pub https : FilterRule macos
https = record {
  action = Action.pass;
  direction = Direction.inward;
  quick = true;
  log = record { logs = [] };
  route = Route.no_route;
  keep_state = StatePolicy.keep;
  interface = Interface.any;
  proto = Proto.tcp;
  af = AddrFamily.ipv4;
  from = any_end;
  to = record { ip = Ip.any; port = Port.one 443 Port.PortUnaryModifier.equal };
  tcp_flags = record { check = record { flags = [] }; mask = record { flags = [] } };
  label = vpn;
  user = record { id = Owner.any };
  group = record { id = Owner.any };
  icmp_type = none;
}

abbrev pub change : AnchorChange macos
change = set_nat_rules [] (set_filter_rules (https ∷ []) (new_change macos))

abbrev pub mail : Str
mail = 109 ∷ []

-- Two anchors, the second with scrub rules only.
abbrev pub two : Transaction macos
two = record {
  change_by_anchor = (vpn, change) ∷ (mail, set_scrub_rules [] (new_change macos)) ∷ [];
}

abbrev pub vpn_name : List ℕ
vpn_name = set (overlay vpn (zeros 1024)) 3 0

pub vpn_copied : copy_anchor_name vpn (zeros 1024) ≡ ok vpn_name
unfolding copy_anchor_name zeros try_copy_chars
vpn_copied = refl

pub mail_copied : copy_anchor_name mail (zeros 1024) ≡ ok (set (overlay mail (zeros 1024)) 1 0)
unfolding copy_anchor_name zeros try_copy_chars
mail_copied = refl

pub two-ok : (commit macos demo two empty).0 ≡ ok tt
unfolding commit pfctl_rs.Utils.open_pf pfctl_rs.Transaction.trans_elements
    pfctl_rs.Transaction.changes_of copy_anchor_name try_copy_chars zeros
    pfctl_rs.Kernel.ioctl_guard pfctl_rs.Transaction.add_changes assign_tickets
    pfctl_rs.Transaction.setup_trans pfctl_rs.Transaction.add_filter_rule
    pfctl_rs.Rule.Filter.try_copy_to pfctl_rs.Rule.Filter.validate_state_policy
    Interface.try_copy_to pfctl_rs.Rule.Filter.get_af pfctl_rs.Rule.AddrFamily.compatible_af
    pfctl_rs.Rule.Endpoint.try_copy_to pfctl_rs.ByteOrder.store16 pfctl_rs.ByteOrder.store32
    pfctl_rs.ByteOrder.to_be16 pfctl_rs.ByteOrder.to_be32 pfctl_rs.Common.contains
    pfctl_rs.Common.replicate pfctl_rs.Kernel.ioctl_guard_or pfctl_rs.Net.ipv4_to_u32
    pfctl_rs.Net.segments pfctl_rs.Rule.Icmp.copy_to Ip.addr_copy_to Ip.any_ffi_repr Ip.copy_to
    Ip.network_copy_to pfctl_rs.Rule.Log.to_u8 Owner.gid_copy_to Owner.uid_copy_to
    Port.try_copy_to_pool Port.try_copy_to_range pfctl_rs.Rule.TcpFlags.to_u8
    pfctl_rs.Transaction.add_rules pfctl_rs.Transaction.add_work pfctl_rs.Transaction.commit_with
    pfctl_rs.Transaction.new_trans_element pfctl_rs.Transaction.zip_by_ref
    pfctl_rs.Transaction.setup_route_pool pfctl_rs.Utils.get_pool_ticket
two-ok = refl

pub two_unique : HasUniqueNames two.change_by_anchor
two_unique = (((λ h. cc), tt), (tt, tt))

commit-Published_example :
    let s' = (commit macos demo two empty).1 in
    Published macos rulesets demo-IsTransactional RulesetKind.filter filter_submission
      (some (https ∷ []))
      vpn_name
      empty
      s'
    × Published macos rulesets demo-IsTransactional RulesetKind.nat
        (nat_submission {P = macos})
        (some [])
        vpn_name
        empty
        s'
    × Published macos rulesets demo-IsTransactional RulesetKind.redirect
        (redirect_submission {P = macos})
        none
        vpn_name
        empty
        s'
    × Published macos rulesets demo-IsTransactional RulesetKind.scrub scrub_submission none vpn_name
        empty s'
commit-Published_example =
    commit-Published macos rulesets demo-IsTransactional two empty vpn change vpn_name two_unique
      (inl refl) vpn_copied two-ok

-- A third anchor, whose rule has its ports the wrong way round.
abbrev bad : FilterRule macos
bad = record https {
  to = record { ip = Ip.any; port = Port.range 2 1 Port.PortRangeModifier.inclusive };
}

abbrev refused : Transaction macos
refused = record {
  change_by_anchor = (vpn, change) ∷ (mail, set_filter_rules (bad ∷ []) (new_change macos)) ∷ [];
}

refused-error : (commit macos demo refused empty).0 ≡ err Error.invalid_port_range
unfolding commit pfctl_rs.Utils.open_pf pfctl_rs.Transaction.trans_elements
    pfctl_rs.Transaction.changes_of copy_anchor_name try_copy_chars zeros
    pfctl_rs.Kernel.ioctl_guard pfctl_rs.Transaction.add_changes assign_tickets
    pfctl_rs.Transaction.setup_trans pfctl_rs.Transaction.add_filter_rule
    pfctl_rs.Rule.Filter.try_copy_to pfctl_rs.Rule.Filter.validate_state_policy
    Interface.try_copy_to pfctl_rs.Rule.Filter.get_af pfctl_rs.Rule.AddrFamily.compatible_af
    pfctl_rs.Rule.Endpoint.try_copy_to pfctl_rs.ByteOrder.store16 pfctl_rs.ByteOrder.store32
    pfctl_rs.ByteOrder.to_be16 pfctl_rs.ByteOrder.to_be32 pfctl_rs.Common.contains
    pfctl_rs.Common.replicate pfctl_rs.Kernel.ioctl_guard_or pfctl_rs.Net.ipv4_to_u32
    pfctl_rs.Net.segments pfctl_rs.Rule.Icmp.copy_to Ip.addr_copy_to Ip.any_ffi_repr Ip.copy_to
    Ip.network_copy_to pfctl_rs.Rule.Log.to_u8 Owner.gid_copy_to Owner.uid_copy_to
    Port.try_copy_to_pool Port.try_copy_to_range pfctl_rs.Rule.TcpFlags.to_u8
    pfctl_rs.Transaction.add_rules pfctl_rs.Transaction.add_work pfctl_rs.Transaction.commit_with
    pfctl_rs.Transaction.new_trans_element pfctl_rs.Transaction.zip_by_ref
    pfctl_rs.Transaction.setup_route_pool pfctl_rs.Utils.get_pool_ticket
refused-error = refl

refused-fails : (commit macos demo refused empty).0 ≢ ok tt
refused-fails h = cc (refused-error, h)

commit-RollsBack_example : (commit macos demo refused empty).1.active (pos 1) vpn_name ≡ []
commit-RollsBack_example =
    commit-RollsBack macos rulesets demo-IsTransactional refused empty (pos 1) vpn_name
      refused-fails

abbrev other_name : List ℕ
other_name = set (overlay (120 ∷ []) (zeros 1024)) 1 0

other_copied : copy_anchor_name (120 ∷ []) (zeros 1024) ≡ ok other_name
unfolding copy_anchor_name zeros try_copy_chars
other_copied = refl

others :
    (anchor : Str) (c : AnchorChange macos)
    → Among (anchor, c) two.change_by_anchor
    → copy_anchor_name anchor (zeros 1024) ≢ ok other_name
others anchor c m q =
    let name : anchor ≡ (120 ∷ []) =
      copy_anchor_name_injective anchor (120 ∷ []) (zeros 1024) q other_copied in
    elim m [
      | inl e ↦ cc (name, ap (λ z. z.0) e)
      | inr (inl e) ↦ (let h : (120 ∷ []) ≡ mail = sym name ∙ ap (λ z. z.0) e in ground arith)
      | inr (inr e) ↦ elim e [ ]
    ]

commit-others_example : (commit macos demo two empty).1.active (pos 1) other_name ≡ []
commit-others_example =
    commit-others macos rulesets demo-IsTransactional two empty (pos 1) other_name others two-ok

-- The elements for the two anchors, with the kernel's tickets.
abbrev elements : List PfiocTransElem
elements =
    record zero_trans_elem { rs_num = pos 1; anchor = vpn_name; ticket = 5 }
    ∷ record zero_trans_elem { rs_num = pos 2; anchor = vpn_name; ticket = 6 }
    ∷ record zero_trans_elem {
      rs_num = pos 0;
      anchor = set (overlay mail (zeros 1024)) 1 0;
      ticket = 7;
    }
    ∷ []

assign_tickets-Assigned_example :
    let w = assign_tickets (partition two.change_by_anchor) (5 ∷ 6 ∷ 7 ∷ []) in
    Assigned RulesetKind.filter elements ((vpn, https ∷ []) ∷ []) w.filter_work
    × Assigned RulesetKind.nat elements ((vpn, []) ∷ []) w.nat_work
    × Assigned RulesetKind.redirect elements [] w.redirect_work
    × Assigned RulesetKind.scrub elements ((mail, []) ∷ []) w.scrub_work
unfolding pfctl_rs.Transaction.changes_of
assign_tickets-Assigned_example =
    assign_tickets-Assigned (partition two.change_by_anchor) elements
      ((refl, vpn_copied), ((refl, vpn_copied), ((refl, mail_copied), tt)))

add_change-HasUniqueNames_example :
    let t = add_change vpn change two in
    HasUniqueNames t.change_by_anchor
    × Among (vpn, change) t.change_by_anchor
    × ((other : Str) (c : AnchorChange macos)
        → other ≢ vpn
        → Among (other, c) two.change_by_anchor
        → Among (other, c) t.change_by_anchor)
add_change-HasUniqueNames_example = add_change-HasUniqueNames vpn change two two_unique
