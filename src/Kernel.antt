-- ===== src/Kernel.antt =====
-- What the crate takes from the operating system: opening and closing /dev/pf and the ioctl calls
-- that src/ffi/mod.rs declares, each with the file descriptor and the structure that it reads and
-- writes; and `ioctl_guard!` (src/macros.rs), which turns a call into a result.
pub mod Laws
pub mod Keeps
pub mod Goes
use pfctl_rs.Common.{ℕ, Bool, ◌==◌, if◌then◌else◌}
use pfctl_rs.Common.Int.{ℤ, negsuc, eq_ℤ}
use pfctl_rs.Error.{Error, Result, ok, err, panic}
use pfctl_rs.Platform.{Platform}
use pfctl_rs.Ffi.{
  PfiocRule, PfiocPooladdr, PfiocTrans, PfiocStateKill, PfiocStates, PfiocIface, PfStatus,
}

-- What a system call leaves: its return value, `errno`, and the structure as it is afterwards.
pub record Reply (A : Type 0) : Type 0 where
  pub ret : ℤ
  pub errno : ℕ
  pub arg : A

-- Opening a file gives a descriptor or an errno.
pub data Opened : Type 0 where
  opened refused : ℕ → Opened

pub record Kernel : Type 1 where
  pub State : Type 0
  -- Whether the allocator has so many bytes to give.
  pub allocates : ℕ → State → Bool
  pub open_pf : State → Opened × State
  pub close_pf : ℕ → State → State
  pub pf_start : ℕ → State → Reply (Unit {0}) × State
  pub pf_stop : ℕ → State → Reply (Unit {0}) × State
  pub pf_add_rule : ℕ → PfiocRule → State → Reply PfiocRule × State
  pub pf_get_rules : ℕ → PfiocRule → State → Reply PfiocRule × State
  pub pf_get_rule : ℕ → PfiocRule → State → Reply PfiocRule × State
  pub pf_clear_states : ℕ → PfiocStateKill → State → Reply PfiocStateKill × State
  pub pf_get_status : ℕ → PfStatus → State → Reply PfStatus × State
  pub pf_get_states : ℕ → PfiocStates → State → Reply PfiocStates × State
  pub pf_change_rule : ℕ → PfiocRule → State → Reply PfiocRule × State
  pub pf_insert_rule : ℕ → PfiocRule → State → Reply PfiocRule × State
  pub pf_delete_rule : ℕ → PfiocRule → State → Reply PfiocRule × State
  pub pf_kill_states : ℕ → PfiocStateKill → State → Reply PfiocStateKill × State
  pub pf_begin_addrs : ℕ → PfiocPooladdr → State → Reply PfiocPooladdr × State
  pub pf_add_addr : ℕ → PfiocPooladdr → State → Reply PfiocPooladdr × State
  pub pf_begin_trans : ℕ → PfiocTrans → State → Reply PfiocTrans × State
  pub pf_commit_trans : ℕ → PfiocTrans → State → Reply PfiocTrans × State
  pub pf_get_ifaces : ℕ → PfiocIface → State → Reply PfiocIface × State
  pub pf_set_iface_flag : ℕ → PfiocIface → State → Reply PfiocIface × State
  pub pf_clear_iface_flag : ℕ → PfiocIface → State → Reply PfiocIface × State

-- Code that may call the kernel. The kernel's state comes back after an error too.
abbrev pub Action : Type 0 → Type 0 → Type 0
Action S A = S → Result Error A × S

module _ {S : Type 0} where
  abbrev pub pure : {A : Type 0} → A → Action S A
  pure a s = (ok a, s)

  abbrev pub lift : {A : Type 0} → Result Error A → Action S A
  lift r s = (r, s)

  infixl 5 ◌>>=◌ ◌>>◌
  abbrev pub ◌>>=◌ : {A B : Type 0} → Action S A → (A → Action S B) → Action S B
  ◌>>=◌ m f s =
      let (r, s') = m s in elim r [ ok a ↦ f a s' | err e ↦ (err e, s') | panic ↦ (panic, s') ]

  -- `call()?;` drops the value of the call.
  abbrev pub ◌>>◌ : {A B : Type 0} → Action S A → Action S B → Action S B
  m >> k = m >>= λ _. k

-- `IOCTL_ERROR`
abbrev pub ioctl_error : ℤ
ioctl_error = negsuc 0

abbrev pub reply_result : {A : Type 0} → ℕ → Reply A → Result Error A
reply_result already_active r =
    if eq_ℤ r.ret ioctl_error
    then err (if r.errno == already_active then Error.state_already_active else Error.ioctl r.errno)
    else ok r.arg

-- `ioctl_guard!` with both arguments. The structure that the call has written is the result.
unfoldable pub ioctl_guard_or : {S A : Type 0} → ℕ → (A → S → Reply A × S) → A → Action S A
ioctl_guard_or already_active call arg s =
    let (r, s') = call arg s in (reply_result already_active r, s')

-- `ioctl_guard!` with one argument: `EEXIST` is what already active means.
unfoldable pub ioctl_guard : {S A : Type 0} → Platform → (A → S → Reply A × S) → A → Action S A
unfolding ioctl_guard_or
ioctl_guard P = ioctl_guard_or P.eexist
