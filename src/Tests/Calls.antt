-- ===== src/Tests/Calls.antt =====
-- The theorems on the calls of `PfCtl` at the small kernel.
use pfctl_rs.Common.{
  ◌⊎◌, ℕ, zero, suc, ◌*◌, ◌<◌, ◌^◌, ◌≡◌, ◌≢◌, ◌↔◌, ◌⊎◌, refl, sym, ap, ◌∙◌, Option, none, some,
  List, [], ◌∷◌, ◌++◌, map, length, take, set, overlay, arith,
}
use pfctl_rs.Common.Int.{pos}
use pfctl_rs.Error.{ok}
use pfctl_rs.Cstr.{zeros, try_copy_chars}
use pfctl_rs.Kernel.{Kernel, Action, pure, ◌>>=◌, ioctl_error}
use pfctl_rs.Anchor.{AnchorKind, RulesetKind}
use pfctl_rs.Utils.{copy_anchor_name}
use pfctl_rs.Rule.Interface
use pfctl_rs.Transaction.{AnchorChange, new_change, set_filter_rules, commit}
use pfctl_rs.Transaction.Submission.{
  filter_submission, nat_submission, redirect_submission, scrub_submission,
}
use pfctl_rs.Transaction.Run.{Published}
use pfctl_rs.Pfctl.{
  PfCtl, enable, try_enable, disable, try_disable, with_anchor_rule, set_rules, flush_rules,
  get_states, clear_states,
}
use pfctl_rs.Pfctl.Enabling.{try_enable-try_disable}
use pfctl_rs.Pfctl.Finding.{position, Outcome, with_anchor_rule-Outcome}
use pfctl_rs.Pfctl.Flushing.{set_rules-Published}
use pfctl_rs.Pfctl.Killing.{Cleared, clear_states-Cleared}
use pfctl_rs.Pfctl.Counting.{ListsStates, get_states-all, clear_states-empty}
use pfctl_rs.Tests.Platforms.{macos}
use pfctl_rs.Tests.Kernels.{Pf, empty, vpn, one_state, demo, rulesets, demo-IsTransactional}
use pfctl_rs.Tests.Transactions.{https}
use pfctl_rs.Tests.Anchors.{demo-ListsAnchors}

abbrev pf : PfCtl
pf = record { file = 3 }

not_error : pos 0 ≢ ioctl_error
not_error h = ground arith

try_enable-try_disable_example :
    (((try_enable macos demo pf empty).0 ≡ ok tt) ↔ (
      ((demo.pf_start 3 empty).0.ret ≢ ioctl_error)
      ⊎ ((demo.pf_start 3 empty).0.errno ≡ macos.eexist)))
    × (((try_disable macos demo pf empty).0 ≡ ok tt) ↔ (
        ((demo.pf_stop 3 empty).0.ret ≢ ioctl_error)
        ⊎ ((demo.pf_stop 3 empty).0.errno ≡ macos.enoent)))
    × ((try_enable macos demo pf empty).1 ≡ (enable macos demo pf empty).1)
    × ((try_disable macos demo pf empty).1 ≡ (disable macos demo pf empty).1)
try_enable-try_disable_example = try_enable-try_disable macos demo pf empty

with_anchor_rule-Outcome_example :
    Outcome macos demo pf AnchorKind.filter
      (vpn ∷ [])
      empty
      demo-ListsAnchors
      vpn
      (λ rule. pure rule.nr)
      (position vpn 0 (vpn ∷ []))
      (with_anchor_rule macos demo pf vpn AnchorKind.filter (λ rule. pure rule.nr) empty)
with_anchor_rule-Outcome_example =
    with_anchor_rule-Outcome macos demo pf AnchorKind.filter (vpn ∷ []) empty demo-ListsAnchors vpn
      (λ rule. pure rule.nr)

abbrev vpn_name : List ℕ
vpn_name = set (overlay vpn (zeros 1024)) 3 0

vpn_copied : copy_anchor_name vpn (zeros 1024) ≡ ok vpn_name
unfolding copy_anchor_name zeros try_copy_chars
vpn_copied = refl

abbrev change : AnchorChange macos
change = set_filter_rules (https ∷ []) (new_change macos)

set_rules-ok : (set_rules macos demo pf vpn change empty).0 ≡ ok tt
unfolding set_rules commit pfctl_rs.Transaction.add_change pfctl_rs.Transaction.insert
    pfctl_rs.Common.bytes_eq pfctl_rs.Utils.open_pf pfctl_rs.Transaction.trans_elements
    pfctl_rs.Transaction.changes_of copy_anchor_name try_copy_chars zeros
    pfctl_rs.Kernel.ioctl_guard pfctl_rs.Transaction.add_changes pfctl_rs.Transaction.assign_tickets
    pfctl_rs.Transaction.setup_trans pfctl_rs.Transaction.add_filter_rule
    pfctl_rs.Rule.Filter.try_copy_to pfctl_rs.Rule.Filter.validate_state_policy
    pfctl_rs.Rule.Interface.try_copy_to pfctl_rs.Rule.Filter.get_af
    pfctl_rs.Rule.AddrFamily.compatible_af pfctl_rs.Rule.Endpoint.try_copy_to
    pfctl_rs.ByteOrder.store16 pfctl_rs.ByteOrder.store32 pfctl_rs.ByteOrder.to_be16
    pfctl_rs.ByteOrder.to_be32 pfctl_rs.Common.contains pfctl_rs.Common.replicate
    pfctl_rs.Kernel.ioctl_guard_or pfctl_rs.Net.ipv4_to_u32 pfctl_rs.Net.segments
    pfctl_rs.Rule.Icmp.copy_to pfctl_rs.Rule.Ip.addr_copy_to pfctl_rs.Rule.Ip.any_ffi_repr
    pfctl_rs.Rule.Ip.copy_to pfctl_rs.Rule.Ip.network_copy_to pfctl_rs.Rule.Log.to_u8
    pfctl_rs.Rule.Owner.gid_copy_to pfctl_rs.Rule.Owner.uid_copy_to
    pfctl_rs.Rule.Port.try_copy_to_pool pfctl_rs.Rule.Port.try_copy_to_range
    pfctl_rs.Rule.TcpFlags.to_u8 pfctl_rs.Transaction.add_rules pfctl_rs.Transaction.add_work
    pfctl_rs.Transaction.commit_with pfctl_rs.Transaction.new_trans_element
    pfctl_rs.Transaction.zip_by_ref pfctl_rs.Transaction.setup_route_pool
    pfctl_rs.Utils.get_pool_ticket
set_rules-ok = refl

set_rules-Published_example :
    let s' = (set_rules macos demo pf vpn change empty).1 in
    Published macos rulesets demo-IsTransactional RulesetKind.filter filter_submission
      (some (https ∷ []))
      vpn_name
      empty
      s'
    × Published macos rulesets demo-IsTransactional RulesetKind.nat
        (nat_submission {P = macos})
        none
        vpn_name
        empty
        s'
    × Published macos rulesets demo-IsTransactional RulesetKind.redirect
        (redirect_submission {P = macos})
        none
        vpn_name
        empty
        s'
    × Published macos rulesets demo-IsTransactional RulesetKind.scrub scrub_submission none vpn_name
        empty s'
set_rules-Published_example =
    set_rules-Published macos rulesets demo-IsTransactional pf empty vpn vpn_name vpn_copied change
      set_rules-ok

-- A kernel state with a filter rule that a flush is to remove.
abbrev loaded : Pf
loaded = (set_rules macos demo pf vpn change empty).1

flush_rules-ok : (flush_rules macos demo pf vpn RulesetKind.filter loaded).0 ≡ ok tt
unfolding flush_rules commit pfctl_rs.Transaction.add_change pfctl_rs.Transaction.insert
    pfctl_rs.Common.bytes_eq pfctl_rs.Utils.open_pf pfctl_rs.Transaction.trans_elements
    pfctl_rs.Transaction.changes_of copy_anchor_name try_copy_chars zeros
    pfctl_rs.Kernel.ioctl_guard pfctl_rs.Transaction.add_changes pfctl_rs.Transaction.assign_tickets
    pfctl_rs.Transaction.setup_trans pfctl_rs.Transaction.add_filter_rule
    pfctl_rs.Rule.Filter.try_copy_to pfctl_rs.Rule.Filter.validate_state_policy
    pfctl_rs.Rule.Interface.try_copy_to pfctl_rs.Rule.Filter.get_af
    pfctl_rs.Rule.AddrFamily.compatible_af pfctl_rs.Rule.Endpoint.try_copy_to
    pfctl_rs.ByteOrder.store16 pfctl_rs.ByteOrder.store32 pfctl_rs.ByteOrder.to_be16
    pfctl_rs.ByteOrder.to_be32 pfctl_rs.Common.contains pfctl_rs.Common.replicate
    pfctl_rs.Kernel.ioctl_guard_or pfctl_rs.Net.ipv4_to_u32 pfctl_rs.Net.segments
    pfctl_rs.Rule.Icmp.copy_to pfctl_rs.Rule.Ip.addr_copy_to pfctl_rs.Rule.Ip.any_ffi_repr
    pfctl_rs.Rule.Ip.copy_to pfctl_rs.Rule.Ip.network_copy_to pfctl_rs.Rule.Log.to_u8
    pfctl_rs.Rule.Owner.gid_copy_to pfctl_rs.Rule.Owner.uid_copy_to
    pfctl_rs.Rule.Port.try_copy_to_pool pfctl_rs.Rule.Port.try_copy_to_range
    pfctl_rs.Rule.TcpFlags.to_u8 pfctl_rs.Transaction.add_rules pfctl_rs.Transaction.add_work
    pfctl_rs.Transaction.commit_with pfctl_rs.Transaction.new_trans_element
    pfctl_rs.Transaction.zip_by_ref pfctl_rs.Transaction.setup_route_pool
    pfctl_rs.Utils.get_pool_ticket
flush_rules-ok = refl

demo-ListsStates : ListsStates demo 3 (one_state ∷ []) empty
demo-ListsStates = record {
  sizes = (not_error, refl, refl);
  fills = λ a n l. (not_error, refl, refl);
}

small : 297 * 1 < 2 ^ 31
small = omega arith

get_states-all_example :
    get_states macos demo pf empty ≡ (ok (record { sync_state = one_state } ∷ []), empty)
get_states-all_example = get_states-all macos demo pf (one_state ∷ []) empty demo-ListsStates small

clear_states-Cleared_example :
    Cleared macos demo pf
      (one_state ∷ [])
      empty
      (position vpn 0 (vpn ∷ []))
      (clear_states macos demo pf vpn AnchorKind.filter empty)
clear_states-Cleared_example =
    clear_states-Cleared macos demo pf AnchorKind.filter (vpn ∷ []) one_state [] empty
      demo-ListsStates demo-ListsAnchors small vpn

-- The same kernel without states.
abbrev quiet : Kernel
quiet = record demo {
  pf_get_states = λ fd a s.
      (record { ret = pos 0; errno = 0; arg = record a { ps_len = pos 0; psu_states = [] } }, s);
}

quiet-ListsStates : ListsStates quiet 3 [] empty
quiet-ListsStates = record {
  sizes = (not_error, refl, refl);
  fills = λ a n l. (not_error, refl, refl);
}

-- "x" is no anchor there.
clear_states-empty_example :
    clear_states macos quiet pf (120 ∷ []) AnchorKind.filter empty ≡ (ok 0, empty)
clear_states-empty_example =
    clear_states-empty macos quiet pf empty quiet-ListsStates (120 ∷ []) AnchorKind.filter
