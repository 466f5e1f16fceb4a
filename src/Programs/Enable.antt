-- ===== src/Programs/Enable.antt =====
-- examples/enable.rs
use pfctl_rs.Common.{◌≡◌, refl, ap, Bool-cases, inl, inr, if◌then◌else◌}
use mathlib.Core.Path.{fun_ext}
use pfctl_rs.Error.{Error, ErrorKind, Result, ok, err, panic, kind, same_kind, ignore_error_kind}
use pfctl_rs.Platform.{Platform}
use pfctl_rs.Kernel.{Kernel, Action}
use pfctl_rs.Pfctl.{enable, try_enable}
use pfctl_rs.Programs.Main.{expect, expect_ok, with_pf}

-- The match on the result of `enable`.
abbrev pub settle : Result Error (Unit {0}) → Result Error (Unit {0})
settle (ok x) = ok tt
settle (err e) = if same_kind (kind e) ErrorKind.state_already_active then ok tt else panic
settle panic = panic

unfoldable pub main : (P : Platform) (K : Kernel) → Action K.State (Unit {0})
unfolding with_pf enable
main P K = with_pf P K (λ pf s. let (r, s') = enable P K pf s in (settle r, s'))

settle-expect :
    (r : Result Error (Unit {0}))
    → settle r ≡ expect_ok (ignore_error_kind r ErrorKind.state_already_active)
unfolding ignore_error_kind
settle-expect (ok tt) = refl
settle-expect (err e) = elim (Bool-cases (same_kind (kind e) ErrorKind.state_already_active)) [
  | inl already ↦ rw already refl
  | inr other ↦ rw other refl
]
settle-expect panic = refl

-- The program that enables pf does, on every kernel and from every state, what a program does that
-- calls `try_enable` and expects it to succeed.
pub enable_main-try_enable :
    (P : Platform) (K : Kernel) → main P K ≡ with_pf P K (λ pf. expect (try_enable P K pf))
unfolding main try_enable
enable_main-try_enable P K = ap (with_pf P K) (
    fun_ext
      (λ pf. fun_ext (λ s. ap (λ r. (r, (enable P K pf s).1)) (settle-expect (enable P K pf s).0))))
