-- ===== src/Pfctl/Interfaces.antt =====
-- Interfaces and their flags.
use pfctl_rs.Common.{
  ℕ, zero, suc, true, false, List, [], ◌∷◌, length, take, replicate, ltb, ◌*◌, if◌then◌else◌, ◌&&◌,
  written,
}
use pfctl_rs.Common.Int.{as_i32, to_usize_or_zero}
use pfctl_rs.Error.{Error, Result, ok, panic, and_then}
use pfctl_rs.Platform.{Platform}
use pfctl_rs.Ffi.{PfiKif, PfiocIface, zero_pfioc_iface, zero_kif}
use pfctl_rs.Kernel.{Kernel, Action, pure, lift, ◌>>=◌, ◌>>◌, ioctl_guard}
use pfctl_rs.Rule.Interface
use pfctl_rs.Rule.Interface.{Interface, InterfaceFlags, InterfaceDescription, description_try_from}
use pfctl_rs.Pfctl.Status.{PfCtl}

abbrev pub initial_capacity : ℕ
initial_capacity = 30

-- `mem::size_of::<pfi_kif>()`
abbrev pub kif_size : ℕ
kif_size = 168

abbrev pub max_retries : ℕ
max_retries = 2

-- `.map(InterfaceDescription::try_from).collect()`
unfoldable pub descriptions : List PfiKif → Result Error (List InterfaceDescription)
unfolding description_try_from
descriptions [] = ok []
descriptions (kif ∷ kifs) =
    and_then (description_try_from kif) (λ d. and_then (descriptions kifs) (λ ds. ok (d ∷ ds)))

module _ (P : Platform) (K : Kernel) where
  -- `new_vec_zeroed` and its `expect`: a panic if the allocation fails.
  unfoldable pub zeroed_kifs : ℕ → Action K.State (List PfiKif)
  unfolding replicate
  zeroed_kifs n s = (if K.allocates (n * kif_size) s then ok (replicate n zero_kif) else panic, s)

  unfoldable pub set_interface_flag : PfCtl → Interface → InterfaceFlags → Action K.State (Unit {0})
  unfolding Interface.try_copy_to
  set_interface_flag self interface flags = do
    name ← lift (Interface.try_copy_to interface zero_pfioc_iface.pfiio_name)
    ioctl_guard P (K.pf_set_iface_flag self.file)
        (record zero_pfioc_iface { pfiio_name = name; pfiio_flags = flags.bits })
    pure tt

  unfoldable pub clear_interface_flag :
      PfCtl → Interface → InterfaceFlags → Action K.State (Unit {0})
  unfolding Interface.try_copy_to
  clear_interface_flag self interface flags = do
    name ← lift (Interface.try_copy_to interface zero_pfioc_iface.pfiio_name)
    ioctl_guard P (K.pf_clear_iface_flag self.file)
        (record zero_pfioc_iface { pfiio_name = name; pfiio_flags = flags.bits })
    pure tt

  -- The loop of `get_interfaces`, with `retry` rounds behind it: what is in the buffer when it
  -- ends. `fuel` bounds the rounds that are to come; none left is a panic that the code has not.
  unfoldable pub fetch : PfCtl → ℕ → ℕ → List PfiKif → PfiocIface → Action K.State (List PfiKif)
  unfolding zeroed_kifs
  fetch self zero retry buf iface = lift panic
  fetch self (suc fuel) retry buf iface = do
    filled ←
        ioctl_guard P (K.pf_get_ifaces self.file)
          (record iface { pfiio_buffer = buf; pfiio_size = as_i32 (length buf) })
    let num_system_interfaces = to_usize_or_zero filled.pfiio_size
    elim (ltb (suc retry) max_retries && ltb (length buf) num_system_interfaces) [
      | true ↦
          zeroed_kifs num_system_interfaces >>= λ larger. fetch self fuel (suc retry) larger filled
      | false ↦ pure (take num_system_interfaces (written buf filled.pfiio_buffer))
    ]

  unfoldable pub get_interfaces : PfCtl → Interface → Action K.State (List InterfaceDescription)
  unfolding fetch descriptions zeroed_kifs Interface.try_copy_to
  get_interfaces self interface = do
    initial ← zeroed_kifs initial_capacity
    name ← lift (Interface.try_copy_to interface zero_pfioc_iface.pfiio_name)
    buf ←
        fetch self max_retries 0 initial
          (record zero_pfioc_iface { pfiio_name = name; pfiio_esize = as_i32 kif_size })
    lift (descriptions buf)
