-- ===== src/Pfctl/Listing.antt =====
-- `get_interfaces` on a kernel that lists its interfaces.
use pfctl_rs.Common.{
  ℕ, suc, ◌≡◌, ◌≢◌, Bool, true, false, ◌&&◌, List, length, take, written, ltb, replicate,
}
use pfctl_rs.Common.Int.{pos, to_usize_or_zero}
use pfctl_rs.Platform.{Platform}
use pfctl_rs.Ffi.{PfiKif, PfiocIface, zero_kif}
use pfctl_rs.Kernel.{Kernel, Action, pure, ◌>>=◌, ioctl_error}
use pfctl_rs.Rule.Interface
use pfctl_rs.Rule.Interface.{Interface}
use pfctl_rs.Pfctl.{PfCtl, fetch, zeroed_kifs, initial_capacity, kif_size, max_retries}

-- A kernel state in which the interfaces with the name that is asked for are the given ones, after
-- pf(4): DIOCIGETIFACES asks for the size of an element, writes as many elements as the size says
-- that the buffer holds, and sets the size to the number of interfaces.
pub record ListsInterfaces (K : Kernel) (fd : ℕ) (name : List ℕ) (kifs : List PfiKif) (s : K.State)
    : Type 0 where
  pub lists :
      (a : PfiocIface)
      → a.pfiio_name ≡ name
      → a.pfiio_esize ≡ pos kif_size
      → ((K.pf_get_ifaces fd a s).0.ret ≢ ioctl_error)
        × ((K.pf_get_ifaces fd a s).0.arg.pfiio_name ≡ name)
        × ((K.pf_get_ifaces fd a s).0.arg.pfiio_esize ≡ pos kif_size)
        × ((K.pf_get_ifaces fd a s).0.arg.pfiio_size ≡ pos (length kifs))
        × ((K.pf_get_ifaces fd a s).0.arg.pfiio_buffer ≡ take (to_usize_or_zero a.pfiio_size) kifs)
        × ((K.pf_get_ifaces fd a s).1 ≡ s)

-- Whether a round goes on: the buffer was too small, and a retry is left.
abbrev pub again : ℕ → ℕ → ℕ → Bool
again retry capacity n = ltb (suc retry) max_retries && ltb capacity n

module _ (P : Platform) (K : Kernel) (self : PfCtl) where
  -- What a round does after the call, given whether the buffer was too small.
  abbrev pub next :
      ℕ → ℕ → List PfiKif → PfiocIface → ℕ → List PfiKif → Bool → Action K.State (List PfiKif)
  next fuel retry buf filled n buffer true =
      zeroed_kifs P K n >>= λ larger. fetch P K self fuel (suc retry) larger filled
  next fuel retry buf filled n buffer false = pure (take n (written buf buffer))

module _ (P : Platform) (K : Kernel) (self : PfCtl) (name : List ℕ) (kifs : List PfiKif)
    (s : K.State) (L : ListsInterfaces K self.file name kifs s) where
  -- The structure that is sent asks for the interfaces.
  abbrev Asks : PfiocIface → Type 0
  Asks iface = (iface.pfiio_name ≡ name) × (iface.pfiio_esize ≡ pos kif_size)

  abbrev initial : List PfiKif
  initial = replicate initial_capacity zero_kif
