-- ===== src/Tests/Written.antt =====
-- The theorems on which rules can be written, on the bytes of flag sets, and on the number of
-- cleared states, at concrete values; and the texts of two errors.
use pfctl_rs.Common.{ℕ, ◌%◌, ◌<◌, ◌≡◌, ◌↔◌, refl, true, some, List, [], ◌∷◌, Among}
use pfctl_rs.Error.Text
use pfctl_rs.Error.{Error, ErrorKind, kind, ok, err}
use pfctl_rs.Error.Succeeds.{SucceedsIff}
use pfctl_rs.Cstr.{Str, until_nul}
use pfctl_rs.Cstr.Laws.{Fits}
use pfctl_rs.Ffi.{zero_rule, zero_state_kill}
use pfctl_rs.Kernel.{Kernel}
use pfctl_rs.Rule.Interface
use pfctl_rs.Rule.Log
use pfctl_rs.Rule.Log.{RuleLog, RuleLogSet, log_to_u8}
use pfctl_rs.Rule.TcpFlags
use pfctl_rs.Rule.TcpFlags.{TcpFlag, TcpFlagSet, flag_to_u8}
use pfctl_rs.Rule.Flags.{bits, has_bit, to_u8-has_bit}
use pfctl_rs.Rule.Filter
use pfctl_rs.Rule.Nat
use pfctl_rs.Rule.Redirect
use pfctl_rs.Rule.Writing.{
  FilterIsWritable, NatIsWritable, RedirectIsWritable, filter-SucceedsIff, nat-redirect-SucceedsIff,
}
use pfctl_rs.Pfctl.{PfCtl, clear_interface_states}
use pfctl_rs.Pfctl.Clearing.{ReportsCleared, clear_interface_states-byte}
use pfctl_rs.Tests.Platforms.{macos, macos-AcceptsPrefixes}
use pfctl_rs.Tests.Kernels.{empty, demo, done}
use pfctl_rs.Tests.Transactions.{https}
use pfctl_rs.Tests.Pools.{to_proxy, from_proxy}

filter-SucceedsIff_example :
    SucceedsIff (FilterIsWritable https zero_rule) (Filter.try_copy_to https zero_rule)
filter-SucceedsIff_example = filter-SucceedsIff macos-AcceptsPrefixes https zero_rule

nat-redirect-SucceedsIff_example :
    SucceedsIff (NatIsWritable from_proxy zero_rule) (Nat.try_copy_to from_proxy zero_rule)
    × SucceedsIff (RedirectIsWritable to_proxy zero_rule) (Redirect.try_copy_to to_proxy zero_rule)
nat-redirect-SucceedsIff_example =
    nat-redirect-SucceedsIff macos-AcceptsPrefixes from_proxy to_proxy zero_rule

abbrev syn_ack : TcpFlagSet
syn_ack = record { flags = TcpFlag.syn ∷ TcpFlag.ack ∷ TcpFlag.syn ∷ [] }

abbrev logged : RuleLogSet
logged = record { logs = RuleLog.socket_owner ∷ [] }

to_u8-has_bit_example :
    (TcpFlags.to_u8 syn_ack < 256)
    × (Log.to_u8 logged < 256)
    × ((v : ℕ)
        → Among v bits
        → (has_bit (TcpFlags.to_u8 syn_ack) v ≡ true)
          ↔ ((x : TcpFlag) × Among x syn_ack.flags × (flag_to_u8 x ≡ v)))
    × ((v : ℕ)
        → Among v bits
        → (has_bit (Log.to_u8 logged) v ≡ true)
          ↔ ((x : RuleLog) × Among x logged.logs × (log_to_u8 x ≡ v)))
to_u8-has_bit_example = to_u8-has_bit syn_ack logged

-- A kernel with 300 states on every interface, which it reports in a byte.
abbrev crowded : Kernel
crowded = record demo { pf_clear_states = λ fd a s. (done (record a { psk_af = 44 }), s) }

abbrev pf : PfCtl
pf = record { file = 3 }

crowded-ReportsCleared : ReportsCleared macos crowded pf (λ s b. 300)
crowded-ReportsCleared = λ a s h. refl

abbrev en0 : Str
en0 = 101 ∷ 110 ∷ 48 ∷ []

clear_interface_states-byte_example :
    ((n : ℕ)
      → (clear_interface_states macos crowded pf (Interface.name en0) empty).0 ≡ ok n
      → (buffer : List ℕ) × (until_nul buffer ≡ some en0)
        × (n ≡ 300 % 256)
        × ((clear_interface_states macos crowded pf (Interface.name en0) empty).1
            ≡ (crowded.pf_clear_states 3 (record zero_state_kill { psk_ifname = buffer }) empty).1))
    × (¬ Fits 16 en0
        → (e : Error) × (clear_interface_states macos crowded pf (Interface.name en0) empty
            ≡ (err e, empty))
          × (kind e ≡ ErrorKind.invalid_interface_name))
clear_interface_states-byte_example =
    clear_interface_states-byte macos crowded pf (λ s b. 300) crowded-ReportsCleared
      (Interface.name en0) empty

-- There is a call that succeeds, with 44 for the 300 states.
cleared-eq : (clear_interface_states macos crowded pf (Interface.name en0) empty).0 ≡ ok 44
unfolding clear_interface_states Interface.try_copy_to pfctl_rs.Cstr.try_copy_chars
    pfctl_rs.Cstr.zeros pfctl_rs.Kernel.ioctl_guard
cleared-eq = refl

direction_text : Text.to_string "" (Error.invalid_direction 207) ≡ "Invalid direction (207)"
direction_text = refl

label_text : Text.to_string "" (Error.invalid_label "Too long") ≡ "Invalid rule label (Too long"
label_text = refl
