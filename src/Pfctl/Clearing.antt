-- ===== src/Pfctl/Clearing.antt =====
-- `clear_interface_states`: which states are cleared, and the number that is returned.
use pfctl_rs.Common.{ℕ, ◌%◌, ◌≡◌, ◌≢◌, refl, sym, ap, ◌∙◌, inl, inr, some, List, arith}
use pfctl_rs.Error.{Error, ErrorKind, kind, ok, err}
use pfctl_rs.Cstr.{until_nul, try_copy_chars}
use pfctl_rs.Cstr.Laws.{Fits, try_copy_chars-until_nul, try_copy_chars-cases, length-zeros}
use pfctl_rs.Platform.{Platform}
use pfctl_rs.Ffi.{PfiocStateKill, zero_state_kill}
use pfctl_rs.Kernel.{Kernel, lift, pure, ◌>>=◌, ioctl_error, ioctl_guard}
use pfctl_rs.Kernel.Laws.{>>=-eq-ok, ioctl_guard-eq-ok}
use pfctl_rs.Rule.Interface
use pfctl_rs.Rule.Interface.{Interface, to_str}
use pfctl_rs.Pfctl.{PfCtl, clear_interface_states}

module _ (P : Platform) (K : Kernel) (self : PfCtl) (cleared : K.State → List ℕ → ℕ) where
  -- DIOCCLRSTATES reports the number of states that it has cleared in the field `psk_af`, which
  -- holds one byte.
  abbrev pub ReportsCleared : Type 0
  ReportsCleared =
      (a : PfiocStateKill) (s : K.State)
      → (K.pf_clear_states self.file a s).0.ret ≢ ioctl_error
      → (K.pf_clear_states self.file a s).0.arg.psk_af ≡ cleared s a.psk_ifname % 256

  -- Where `clear_interface_states` succeeds, it has made the one call with the interface's name in
  -- a buffer that reads back as the name, and returns the number of states that were cleared modulo
  -- 256. A name that does not fit the 16 bytes of the buffer is refused as an invalid interface
  -- name, without a call.
  pub clear_interface_states-byte :
      ReportsCleared
      → (i : Interface) (s : K.State)
      → ((n : ℕ)
          → (clear_interface_states P K self i s).0 ≡ ok n
          → (buffer : List ℕ) × (until_nul buffer ≡ some (to_str i))
            × (n ≡ cleared s buffer % 256)
            × ((clear_interface_states P K self i s).1
                ≡ (K.pf_clear_states self.file
                    (record zero_state_kill { psk_ifname = buffer })
                    s).1))
        × (¬ Fits 16 (to_str i)
            → (e : Error) × (clear_interface_states P K self i s ≡ (err e, s))
              × (kind e ≡ ErrorKind.invalid_interface_name))
  unfolding clear_interface_states Interface.try_copy_to
  clear_interface_states-byte reports i s = (succeeded, refused)
    where
      succeeded :
          (n : ℕ)
          → (clear_interface_states P K self i s).0 ≡ ok n
          → (buffer : List ℕ) × (until_nul buffer ≡ some (to_str i))
            × (n ≡ cleared s buffer % 256)
            × ((clear_interface_states P K self i s).1
                ≡ (K.pf_clear_states self.file
                    (record zero_state_kill { psk_ifname = buffer })
                    s).1)
      succeeded n h =
          let named = Interface.try_copy_to i zero_state_kill.psk_ifname in
          let call = λ (b : List ℕ).
            ioctl_guard P (K.pf_clear_states self.file)
              (record zero_state_kill { psk_ifname = b }) in
          let (buffer, copied, h', same) =
            >>=-eq-ok (lift named) (λ b. call b >>= λ kill. pure kill.psk_af) s h in
          let (kill, done, last, same') = >>=-eq-ok (call buffer) (λ kill. pure kill.psk_af) s h' in
          let arg = record zero_state_kill { psk_ifname = buffer } in
          let (ret, got, there) = ioctl_guard-eq-ok P (K.pf_clear_states self.file) arg s done in
          let c : try_copy_chars (to_str i) zero_state_kill.psk_ifname ≡ ok buffer = ground arith in
          let value : kill.psk_af ≡ n = ground arith in
          (
            buffer,
            (try_copy_chars-until_nul (to_str i) zero_state_kill.psk_ifname c).0,
            sym value ∙ ap (λ k. k.psk_af) got ∙ reports arg s ret,
            ap (λ r. r.1) same ∙ ap (λ r. r.1) same' ∙ there,
          )

      refused :
          ¬ Fits 16 (to_str i)
          → (e : Error) × (clear_interface_states P K self i s ≡ (err e, s))
            × (kind e ≡ ErrorKind.invalid_interface_name)
      refused h = elim (try_copy_chars-cases (to_str i) zero_state_kill.psk_ifname) [
        | inl (fits, copied) ↦ absurd (h (rw (length-zeros 16) at fits))
        | inr (inl (long, e)) ↦
            (Error.invalid_interface_name "Too long", rw (e, clear_interface_states) refl, refl)
        | inr (inr (short, null, e)) ↦ (
          Error.invalid_interface_name "Contains null byte",
          rw (e, clear_interface_states) refl,
          refl,
        )
      ]
