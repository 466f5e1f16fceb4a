-- ===== src/Programs/Main.antt =====
-- What the programs of examples/ share: `expect`, and a `main` that holds a `PfCtl`.
use pfctl_rs.Common.{◌≡◌, refl, arith}
use pfctl_rs.Error.{Error, Result, ok, err, panic}
use pfctl_rs.Platform.{Platform}
use pfctl_rs.Kernel.{Kernel, Action, pure}
use pfctl_rs.Kernel.Keeps.{Keeps, bind-Keeps}
use pfctl_rs.Utils.{open_pf}
use pfctl_rs.Pfctl.{PfCtl, new}

-- `Result::expect`
abbrev pub expect_ok : {A : Type 0} → Result Error A → Result Error A
expect_ok (ok a) = ok a
expect_ok (err e) = panic
expect_ok panic = panic

abbrev pub expect : {S A : Type 0} → Action S A → Action S A
expect m s = let (r, s') = m s in (expect_ok r, s')

-- `let mut pf = PfCtl::new().expect(..)`, and the rest of `main`. The file is closed when `pf` is
-- dropped, which a panic does too.
abbrev pub run_with :
    (K : Kernel)
    → (PfCtl → Action K.State (Unit {0}))
    → Result Error PfCtl
    → Action K.State (Unit {0})
run_with K body (ok pf) s = let (r, s') = body pf s in (r, K.close_pf pf.file s')
run_with K body (err e) s = (panic, s)
run_with K body panic s = (panic, s)

unfoldable pub with_pf :
    (P : Platform) (K : Kernel) → (PfCtl → Action K.State (Unit {0})) → Action K.State (Unit {0})
unfolding new
with_pf P K body s = let (r, s') = new P K s in run_with K body r s'

pub expect-eq-ok :
    {S A : Type 0} (m : Action S A) (s : S) {a : A} → (expect m s).0 ≡ ok a → (m s).0 ≡ ok a
expect-eq-ok m s h = ground arith

-- A program that ends without a panic has run its body on an open file.
pub with_pf-eq-ok :
    (P : Platform) (K : Kernel) (body : PfCtl → Action K.State (Unit {0})) (s : K.State)
    → (with_pf P K body s).0 ≡ ok tt
    → (pf : PfCtl) × ((new P K s).0 ≡ ok pf)
      × ((body pf (new P K s).1).0 ≡ ok tt)
      × ((with_pf P K body s).1 ≡ K.close_pf pf.file (body pf (new P K s).1).1)
unfolding with_pf
with_pf-eq-ok P K body s h = go (new P K s).0 (new P K s).1 h
  where
    go :
        (r : Result Error PfCtl) (t : K.State)
        → (run_with K body r t).0 ≡ ok tt
        → (pf : PfCtl) × (r ≡ ok pf)
          × ((body pf t).0 ≡ ok tt)
          × ((run_with K body r t).1 ≡ K.close_pf pf.file (body pf t).1)
    go (ok pf) t h = (pf, refl, h, refl)
    go (err e) t h = absurd (ground arith)
    go panic t h = absurd (ground arith)

pub new-Keeps :
    {X : Type 0} (P : Platform) (K : Kernel) (F : K.State → X)
    → ((s : K.State) → F (K.open_pf s).1 ≡ F s)
    → Keeps F (new P K)
unfolding new
new-Keeps P K F h =
    bind-Keeps F (open_pf P K) (λ file. pure (record { file = file })) (λ s. h s) (λ file s. refl)
