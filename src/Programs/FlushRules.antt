-- ===== src/Programs/FlushRules.antt =====
-- examples/flush_rules.rs
pub mod Flushed
use pfctl_rs.Common.{List, [], ◌∷◌}
use pfctl_rs.Cstr.{Str}
use pfctl_rs.Platform.{Platform}
use pfctl_rs.Kernel.{Kernel, Action, pure, ◌>>◌, ◌>>=◌}
use pfctl_rs.Anchor.{RulesetKind}
use pfctl_rs.Pfctl.{PfCtl, flush_rules}
use pfctl_rs.Programs.Main.{expect, with_pf}

module _ (P : Platform) (K : Kernel) where
  -- The loop over the names of the command line.
  unfoldable pub flush_all : PfCtl → List Str → Action K.State (Unit {0})
  unfolding flush_rules
  flush_all pf [] = pure tt
  flush_all pf (anchor_name ∷ names) = do
    expect (flush_rules P K pf anchor_name RulesetKind.filter)
    expect (flush_rules P K pf anchor_name RulesetKind.nat)
    expect (flush_rules P K pf anchor_name RulesetKind.redirect)
    expect (flush_rules P K pf anchor_name RulesetKind.scrub)
    flush_all pf names

  unfoldable pub main : List Str → Action K.State (Unit {0})
  unfolding with_pf flush_all
  main names = with_pf P K (λ pf. flush_all pf names)
