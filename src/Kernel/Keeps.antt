-- ===== src/Kernel/Keeps.antt =====
-- What a run leaves as it was: closed under the ways in which code is put together.
use pfctl_rs.Common.{◌≡◌, refl, ◌∙◌}
use pfctl_rs.Error.{Error, Result, ok, err, panic}
use pfctl_rs.Platform.{Platform}
use pfctl_rs.Kernel.{Action, lift, ◌>>=◌, Reply, ioctl_guard}

module _ {S X : Type 0} (F : S → X) where
  -- The run leaves `F` of the state as it was, however it ends.
  abbrev pub Keeps : {A : Type 0} → Action S A → Type 0
  Keeps m = (s : S) → F (m s).1 ≡ F s

  pub bind-Keeps :
      {A B : Type 0} (m : Action S A) (f : A → Action S B)
      → Keeps m
      → ((a : A) → Keeps (f a))
      → Keeps (m >>= f)
  bind-Keeps {A} {B} m f hm hf s = go (m s).0 refl
    where
      go : (r : Result Error A) → (m s).0 ≡ r → F ((m >>= f) s).1 ≡ F s
      go (ok a) e = rw (e, ◌>>=◌) (hf a (m s).1 ∙ hm s)
      go (err x) e = rw (e, ◌>>=◌) (hm s)
      go panic e = rw (e, ◌>>=◌) (hm s)

  pub lift-Keeps : {A : Type 0} (r : Result Error A) → Keeps (lift r)
  lift-Keeps r s = refl

  pub ioctl_guard-Keeps :
      {A : Type 0} (P : Platform) (call : A → S → Reply A × S) (arg : A)
      → ((s : S) → F (call arg s).1 ≡ F s)
      → Keeps (ioctl_guard P call arg)
  unfolding ioctl_guard
  ioctl_guard-Keeps P call arg h s = h s
