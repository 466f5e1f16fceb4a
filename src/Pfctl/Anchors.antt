-- ===== src/Pfctl/Anchors.antt =====
-- The anchors of the main ruleset.
use pfctl_rs.Common.{ℕ, zero, suc, Bool, true, false}
use pfctl_rs.Error.{Error, ErrorKind, Result, ok, err, panic, ignore_error_kind}
use pfctl_rs.Cstr.{Str, compare_cstr_safe}
use pfctl_rs.Platform.{Platform}
use pfctl_rs.Ffi.{PfiocRule, zero_pfioc_rule, pf_get_none}
use pfctl_rs.Kernel.{Kernel, Action, pure, lift, ◌>>=◌, ◌>>◌, ioctl_guard}
use pfctl_rs.Anchor.{AnchorKind, anchor_to_u8}
use pfctl_rs.Utils.{copy_anchor_name}
use pfctl_rs.Pfctl.Status.{PfCtl, ignoring}

-- `compare_cstr_safe` has no error, only a panic.
abbrev pub compare : Str → PfiocRule → Result Error Bool
compare name rule = elim (compare_cstr_safe name rule.anchor_call) [
  | ok same ↦ ok same
  | err e ↦ panic
  | panic ↦ panic
]

module _ (P : Platform) (K : Kernel) where
  unfoldable pub add_anchor : PfCtl → Str → AnchorKind → Action K.State (Unit {0})
  unfolding copy_anchor_name
  add_anchor self name kind = do
    anchor_call ← lift (copy_anchor_name name zero_pfioc_rule.anchor_call)
    ioctl_guard P (K.pf_insert_rule self.file) (record zero_pfioc_rule {
      rule = record zero_pfioc_rule.rule { action = anchor_to_u8 kind };
      anchor_call = anchor_call;
    })
    pure tt

  unfoldable pub try_add_anchor : PfCtl → Str → AnchorKind → Action K.State (Unit {0})
  unfolding add_anchor ignore_error_kind
  try_add_anchor self name kind =
      ignoring (add_anchor self name kind) ErrorKind.state_already_active

  -- The rest of the loop `for i in 0..pfioc_rule.nr` of `with_anchor_rule`: `fuel` rounds from round
  -- `i` on, over the one structure that every call writes to.
  unfoldable pub find_anchor :
      {R : Type 0}
      → PfCtl
      → Str
      → (PfiocRule → Action K.State R)
      → ℕ
      → ℕ
      → PfiocRule
      → Action K.State R
  find_anchor self name f i zero pfioc_rule = lift (err Error.anchor_does_not_exist)
  find_anchor self name f i (suc rounds) pfioc_rule = do
    found ← ioctl_guard P (K.pf_get_rule self.file) (record pfioc_rule { nr = i })
    same ← lift (compare name found)
    elim same [ true ↦ f found | false ↦ find_anchor self name f (suc i) rounds found ]

  unfoldable pub with_anchor_rule :
      {R : Type 0} → PfCtl → Str → AnchorKind → (PfiocRule → Action K.State R) → Action K.State R
  unfolding find_anchor
  with_anchor_rule self name kind f = do
    pfioc_rule ← ioctl_guard P (K.pf_get_rules self.file) (record zero_pfioc_rule {
      rule = record zero_pfioc_rule.rule { action = anchor_to_u8 kind };
    })
    find_anchor self name f 0 pfioc_rule.nr (record pfioc_rule { action = pf_get_none })

  unfoldable pub remove_anchor : PfCtl → Str → AnchorKind → Action K.State (Unit {0})
  unfolding with_anchor_rule
  remove_anchor self name kind =
      with_anchor_rule self name kind
        (λ anchor_rule. ioctl_guard P (K.pf_delete_rule self.file) anchor_rule >> pure tt)

  unfoldable pub try_remove_anchor : PfCtl → Str → AnchorKind → Action K.State (Unit {0})
  unfolding remove_anchor ignore_error_kind
  try_remove_anchor self name kind =
      ignoring (remove_anchor self name kind) ErrorKind.anchor_does_not_exist
