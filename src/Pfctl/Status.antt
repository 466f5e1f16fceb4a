-- ===== src/Pfctl/Status.antt =====
-- `PfCtl::new`, and whether pf is enabled.
use pfctl_rs.Common.{ℕ, Bool, ◌==◌}
use pfctl_rs.Error.{ErrorKind, ignore_error_kind}
use pfctl_rs.Platform.{Platform}
use pfctl_rs.Ffi.{zero_status}
use pfctl_rs.Kernel.{Kernel, Action, pure, ◌>>=◌, ioctl_guard, ioctl_guard_or}
use pfctl_rs.Utils.{open_pf}

-- The file is its descriptor, which `fd` gives.
pub record PfCtl : Type 0 where
  pub file : ℕ

-- `ignore_error_kind!` around a method call.
abbrev pub ignoring : {S : Type 0} → Action S (Unit {0}) → ErrorKind → Action S (Unit {0})
ignoring m kind s = let (r, s') = m s in (ignore_error_kind r kind, s')

module _ (P : Platform) (K : Kernel) where
  unfoldable pub new : Action K.State PfCtl
  unfolding open_pf
  new = do file ← open_pf P K; pure (record { file = file })

  unfoldable pub enable : PfCtl → Action K.State (Unit {0})
  enable self = ioctl_guard P (λ u. K.pf_start self.file) tt

  unfoldable pub try_enable : PfCtl → Action K.State (Unit {0})
  unfolding enable ignore_error_kind
  try_enable self = ignoring (enable self) ErrorKind.state_already_active

  unfoldable pub disable : PfCtl → Action K.State (Unit {0})
  disable self = ioctl_guard_or P.enoent (λ u. K.pf_stop self.file) tt

  unfoldable pub try_disable : PfCtl → Action K.State (Unit {0})
  unfolding disable ignore_error_kind
  try_disable self = ignoring (disable self) ErrorKind.state_already_active

  unfoldable pub is_enabled : PfCtl → Action K.State Bool
  is_enabled self = do
    pf_status ← ioctl_guard P (K.pf_get_status self.file) zero_status
    pure (pf_status.running == 1)
