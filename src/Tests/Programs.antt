-- ===== src/Tests/Programs.antt =====
-- The theorems on the programs of examples/ at the small kernel.
use pfctl_rs.Common.{ℕ, ◌≡◌, ◌≢◌, refl, inl, inr, List, [], ◌∷◌, Among}
use pfctl_rs.Error.{ok}
use pfctl_rs.Cstr.{Str, zeros}
use pfctl_rs.Kernel.{Kernel}
use pfctl_rs.Anchor.{AnchorKind, RulesetKind, ruleset_to_i32}
use pfctl_rs.Utils.{copy_anchor_name}
use pfctl_rs.Pfctl.{try_enable}
use pfctl_rs.Programs.AddAnchor
use pfctl_rs.Programs.AddAnchor.Added.{HasAnchors, add_anchor_main-Added}
use pfctl_rs.Programs.FlushRules
use pfctl_rs.Programs.FlushRules.Flushed.{flush_rules_main-Flushed}
use pfctl_rs.Tests.Platforms.{macos}
use pfctl_rs.Tests.Kernels.{empty, vpn, demo, rulesets, demo-IsTransactional}
use pfctl_rs.Tests.Anchors.{names, demo-KeepsAnchors, mail}

demo-HasAnchors : HasAnchors macos demo names
demo-HasAnchors = record {
  keeps = λ fd. demo-KeepsAnchors fd;
  open_keeps = λ s k. refl;
  close_keeps = λ fd s k. refl;
}

added-ok : (AddAnchor.main macos demo (mail ∷ []) empty).0 ≡ ok tt
unfolding AddAnchor.main pfctl_rs.Cstr.try_copy_chars zeros pfctl_rs.Kernel.ioctl_guard
    pfctl_rs.Cstr.until_nul pfctl_rs.Pfctl.Finding.position pfctl_rs.Common.bytes_eq
added-ok = refl

add_anchor_main-Added_example :
    ((name : Str) (kind : AnchorKind)
      → Among name (mail ∷ [])
      → kind ≢ AnchorKind.nat
      → Among name (names (AddAnchor.main macos demo (mail ∷ []) empty).1 kind))
    × ((kind : AnchorKind) (name : Str)
        → Among name (names empty kind)
        → Among name (names (AddAnchor.main macos demo (mail ∷ []) empty).1 kind))
    × (names (AddAnchor.main macos demo (mail ∷ []) empty).1 AnchorKind.nat
        ≡ names empty AnchorKind.nat)
add_anchor_main-Added_example =
    add_anchor_main-Added macos demo names demo-HasAnchors (mail ∷ []) empty added-ok

flushed-ok : (FlushRules.main macos demo (vpn ∷ []) empty).0 ≡ ok tt
unfolding FlushRules.main pfctl_rs.Transaction.trans_elements pfctl_rs.Transaction.changes_of
    copy_anchor_name pfctl_rs.Cstr.try_copy_chars zeros pfctl_rs.Kernel.ioctl_guard
    pfctl_rs.Transaction.add_changes pfctl_rs.Transaction.assign_tickets
    pfctl_rs.Transaction.setup_trans
flushed-ok = refl

flush_rules_main-Flushed_example :
    ((name : Str) (b : List ℕ)
      → Among name (vpn ∷ [])
      → copy_anchor_name name (zeros 1024) ≡ ok b
      → (kind : RulesetKind)
      → (FlushRules.main macos demo (vpn ∷ []) empty).1.active (ruleset_to_i32 kind) b ≡ [])
    × ((b : List ℕ)
        → ((name : Str) → Among name (vpn ∷ []) → copy_anchor_name name (zeros 1024) ≢ ok b)
        → (kind : RulesetKind)
        → (FlushRules.main macos demo (vpn ∷ []) empty).1.active (ruleset_to_i32 kind) b
          ≡ empty.active (ruleset_to_i32 kind) b)
flush_rules_main-Flushed_example =
    flush_rules_main-Flushed macos rulesets demo-IsTransactional (vpn ∷ []) empty flushed-ok
