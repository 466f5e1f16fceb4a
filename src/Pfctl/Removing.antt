-- ===== src/Pfctl/Removing.antt =====
-- Removing an anchor, and a rule that is added on its own.
use mathlib.Core.Path.{subst}
use pfctl_rs.Common.{◌≡◌, refl, ap, none, List}
use pfctl_rs.Error.{Error, ErrorKind, ok, err, ignore_error_kind}
use pfctl_rs.Cstr.{Str}
use pfctl_rs.Platform.{Platform}
use pfctl_rs.Kernel.{Kernel, ◌>>◌, pure, ioctl_guard}
use pfctl_rs.Anchor.{AnchorKind}
use pfctl_rs.Rule.PoolAddr.{PoolAddr}
use pfctl_rs.Rule.Route
use pfctl_rs.Rule.Filter
use pfctl_rs.Rule.Filter.{FilterRule}
use pfctl_rs.Pfctl.{PfCtl, remove_anchor, try_remove_anchor, add_rule}
use pfctl_rs.Pfctl.Finding.{ListsAnchors, position, Outcome, with_anchor_rule-Outcome}

-- On a kernel that lists the anchors, if none has the name then `remove_anchor` reports that the
-- anchor does not exist and `try_remove_anchor` is a success, both without a change.
pub remove_anchor-try_remove_anchor :
    (P : Platform) (K : Kernel) (self : PfCtl) (kind : AnchorKind) (anchors : List Str)
    (s : K.State)
    → ListsAnchors K self.file kind anchors s
    → (name : Str) → position name 0 anchors ≡ none
    → (remove_anchor P K self name kind s ≡ (err Error.anchor_does_not_exist, s))
      × (try_remove_anchor P K self name kind s ≡ (ok tt, s))
unfolding remove_anchor try_remove_anchor ignore_error_kind
remove_anchor-try_remove_anchor P K self kind anchors s L name h =
    let absent : remove_anchor P K self name kind s ≡ (err Error.anchor_does_not_exist, s) =
      subst
        (λ o.
          Outcome P K self kind anchors s L name
            (λ rule. ioctl_guard P (K.pf_delete_rule self.file) rule >> pure tt) o
            (remove_anchor P K self name kind s))
        h
        (with_anchor_rule-Outcome P K self kind anchors s L name
          (λ rule. ioctl_guard P (K.pf_delete_rule self.file) rule >> pure tt)) in
    (absent, ap (λ (r, z). (ignore_error_kind r ErrorKind.anchor_does_not_exist, z)) absent)

-- `add_rule` does the same for two rules that differ in nothing but the address that packets are
-- routed to: the kernel never sees that address.
pub add_rule-route_to :
    (P : Platform) (K : Kernel) (self : PfCtl) (anchor : Str) (rule : FilterRule P)
    (a b : PoolAddr P) (s : K.State)
    → add_rule P K self anchor (record rule { route = Route.route_to a }) s
      ≡ add_rule P K self anchor (record rule { route = Route.route_to b }) s
unfolding add_rule Filter.try_copy_to Filter.validate_state_policy Filter.get_af
add_rule-route_to P K self anchor rule a b s = refl
