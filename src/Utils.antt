-- ===== src/Utils.antt =====
-- src/utils.rs.
use pfctl_rs.Common.{ℕ, List}
use pfctl_rs.Error.{Error, Result, ok, err, map_err}
use pfctl_rs.Cstr.{Str, try_copy_chars}
use pfctl_rs.Platform.{Platform}
use pfctl_rs.Ffi.{zero_pfioc_rule, zero_pfioc_pooladdr, pf_change_get_ticket}
use pfctl_rs.Kernel.{Kernel, Opened, opened, refused, Action, pure, lift, ◌>>=◌, ◌>>◌, ioctl_guard}
use pfctl_rs.Anchor.{AnchorKind, anchor_to_u8}
use pfctl_rs.Rule.PoolAddr
use pfctl_rs.Rule.PoolAddr.{PoolAddr}

unfoldable pub copy_anchor_name : Str → List ℕ → Result Error (List ℕ)
copy_anchor_name anchor destination =
    map_err Error.invalid_anchor_name (try_copy_chars anchor destination)

abbrev pub open_result : Opened → Result Error ℕ
open_result (opened fd) = ok fd
open_result (refused e) = err (Error.device_open "/dev/pf" e)

module _ (P : Platform) (K : Kernel) where
  -- The descriptor of the opened file.
  unfoldable pub open_pf : Action K.State ℕ
  open_pf s = let (r, s') = K.open_pf s in (open_result r, s')

  unfoldable pub add_pool_address : ℕ → PoolAddr P → ℕ → Action K.State (Unit {0})
  unfolding PoolAddr.try_copy_to
  add_pool_address fd pool_addr pool_ticket = do
    addr ← lift (PoolAddr.try_copy_to pool_addr zero_pfioc_pooladdr.addr)
    ioctl_guard P (K.pf_add_addr fd)
        (record zero_pfioc_pooladdr { ticket = pool_ticket; addr = addr })
    pure tt

  unfoldable pub get_pool_ticket : ℕ → Action K.State ℕ
  get_pool_ticket fd = do
    pfioc_pooladdr ← ioctl_guard P (K.pf_begin_addrs fd) zero_pfioc_pooladdr
    pure pfioc_pooladdr.ticket

  unfoldable pub get_ticket : ℕ → Str → AnchorKind → Action K.State ℕ
  unfolding copy_anchor_name
  get_ticket fd anchor kind = do
    name ← lift (copy_anchor_name anchor zero_pfioc_rule.anchor)
    pfioc_rule ← ioctl_guard P (K.pf_change_rule fd) (record zero_pfioc_rule {
      action = pf_change_get_ticket;
      rule = record zero_pfioc_rule.rule { action = anchor_to_u8 kind };
      anchor = name;
    })
    pure pfioc_rule.ticket
