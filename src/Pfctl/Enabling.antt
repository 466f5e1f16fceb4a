-- ===== src/Pfctl/Enabling.antt =====
-- What `try_enable` and `try_disable` report, and `is_enabled`.
use pfctl_rs.Common.{ℕ, ◌≡◌, refl, ◌≢◌, ◌↔◌, ◌⊎◌, arith}
use pfctl_rs.Common.Int.{eq_ℤ_iff}
use pfctl_rs.Error.{ErrorKind, ok, ignore_error_kind}
use pfctl_rs.Platform.{Platform}
use pfctl_rs.Kernel.{Kernel, Reply, reply_result, ioctl_error, ioctl_guard}
use pfctl_rs.Pfctl.{PfCtl, enable, try_enable, disable, try_disable}

-- An outcome after one kind of errors is suppressed.
ignore_error_kind-ok :
    (already_active : ℕ) (r : Reply (Unit {0}))
    → (ignore_error_kind (reply_result already_active r) ErrorKind.state_already_active ≡ ok tt)
      ↔ ((r.ret ≢ ioctl_error) ⊎ (r.errno ≡ already_active))
unfolding ignore_error_kind
ignore_error_kind-ok already_active r = ground (arith, eq_ℤ_iff r.ret ioctl_error)

module _ (P : Platform) (K : Kernel) where
  -- `try_enable` is a success exactly if the kernel starts pf or answers EEXIST, and `try_disable`
  -- exactly if the kernel stops pf or answers ENOENT; both leave the kernel as the one call of
  -- `enable` or `disable` leaves it.
  pub try_enable-try_disable :
      (self : PfCtl) (s : K.State)
      → (((try_enable P K self s).0 ≡ ok tt) ↔ (
          ((K.pf_start self.file s).0.ret ≢ ioctl_error)
          ⊎ ((K.pf_start self.file s).0.errno ≡ P.eexist)))
        × (((try_disable P K self s).0 ≡ ok tt) ↔ (
            ((K.pf_stop self.file s).0.ret ≢ ioctl_error)
            ⊎ ((K.pf_stop self.file s).0.errno ≡ P.enoent)))
        × ((try_enable P K self s).1 ≡ (enable P K self s).1)
        × ((try_disable P K self s).1 ≡ (disable P K self s).1)
  unfolding try_enable try_disable ioctl_guard
  try_enable-try_disable self s = (
    ignore_error_kind-ok P.eexist (K.pf_start self.file s).0,
    ignore_error_kind-ok P.enoent (K.pf_stop self.file s).0,
    refl,
    refl,
  )
