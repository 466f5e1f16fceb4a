-- ===== src/Programs/AddAnchor.antt =====
-- examples/add_anchor.rs
pub mod Added
use pfctl_rs.Common.{List, [], ◌∷◌}
use pfctl_rs.Cstr.{Str}
use pfctl_rs.Platform.{Platform}
use pfctl_rs.Kernel.{Kernel, Action, pure, ◌>>◌, ◌>>=◌}
use pfctl_rs.Anchor.{AnchorKind}
use pfctl_rs.Pfctl.{PfCtl, try_add_anchor}
use pfctl_rs.Programs.Main.{expect, with_pf}

module _ (P : Platform) (K : Kernel) where
  -- The loop over the names of the command line.
  unfoldable pub add_all : PfCtl → List Str → Action K.State (Unit {0})
  unfolding try_add_anchor
  add_all pf [] = pure tt
  add_all pf (anchor_name ∷ names) = do
    expect (try_add_anchor P K pf anchor_name AnchorKind.filter)
    expect (try_add_anchor P K pf anchor_name AnchorKind.redirect)
    expect (try_add_anchor P K pf anchor_name AnchorKind.scrub)
    add_all pf names

  unfoldable pub main : List Str → Action K.State (Unit {0})
  unfolding with_pf add_all
  main names = with_pf P K (λ pf. add_all pf names)
