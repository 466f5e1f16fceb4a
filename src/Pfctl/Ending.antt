-- ===== src/Pfctl/Ending.antt =====
-- The loop of `get_interfaces` ends on every kernel, unless an allocation fails.
use pfctl_rs.Common.{◌*◌, ◌⊎◌, ◌≡◌, false}
use pfctl_rs.Common.Int.{to_usize_or_zero}
use pfctl_rs.Error.{Error, panic}
use pfctl_rs.Platform.{Platform}
use pfctl_rs.Ffi.{PfiocIface}
use pfctl_rs.Kernel.{Kernel, Action}
use pfctl_rs.Rule.Interface
use pfctl_rs.Rule.Interface.{Interface}
use pfctl_rs.Pfctl.{PfCtl, initial_capacity, kif_size}

-- A run from a state that panics only for the given reason.
abbrev Ends : {S A : Type 0} → Type 0 → Action S A → S → Type 0
Ends R m s = (m s).0 ≡ panic → R

module _ (P : Platform) (K : Kernel) (self : PfCtl) where
  -- The allocation of the larger buffer fails: that of as many elements as the kernel has answered.
  abbrev LargerFails : K.State → Type 0
  LargerFails s =
      (a : PfiocIface) × (K.allocates
          (to_usize_or_zero (K.pf_get_ifaces self.file a s).0.arg.pfiio_size * kif_size)
          (K.pf_get_ifaces self.file a s).1
        ≡ false)

  -- One of the two allocations fails.
  abbrev pub AllocationFails : K.State → Type 0
  AllocationFails s = (K.allocates (initial_capacity * kif_size) s ≡ false) ⊎ LargerFails s
