-- ===== src/Kernel/Goes.antt =====
-- Runs that succeed from every state: closed under the ways in which code is put together.
use pfctl_rs.Common.{◌≡◌, ◌≢◌, refl, ap, ◌∙◌}
use pfctl_rs.Error.{Error, Result, ok}
use pfctl_rs.Platform.{Platform}
use pfctl_rs.Kernel.{Action, pure, lift, ◌>>=◌, ◌>>◌, Reply, ioctl_error, ioctl_guard}
use pfctl_rs.Kernel.Laws.{>>=-ok, ioctl_guard-ok}

module _ {S : Type 0} where
  -- The run succeeds, from every state.
  abbrev pub Goes : {A : Type 0} → Action S A → Type 0
  Goes {A} m = (s : S) → (a : A) × (s' : S) × (m s ≡ (ok a, s'))

  pub pure-Goes : {A : Type 0} (a : A) → Goes (pure a)
  pure-Goes a s = (a, s, refl)

  pub bind-Goes :
      {A B : Type 0} (m : Action S A) (f : A → Action S B)
      → Goes m
      → ((a : A) → Goes (f a))
      → Goes (m >>= f)
  bind-Goes m f hm hf s =
      let (a, s', e) = hm s in let (b, s'', q) = hf a s' in (b, s'', >>=-ok m f s s' a e ∙ q)

  pub then-Goes : {A B : Type 0} (m : Action S A) (k : Action S B) → Goes m → Goes k → Goes (m >> k)
  then-Goes m k hm hk = bind-Goes m (λ _. k) hm (λ _. hk)

  -- A known value goes on with that value.
  pub lift-Goes :
      {A B : Type 0} (r : Result Error A) (f : A → Action S B) {a : A}
      → r ≡ ok a
      → Goes (f a)
      → Goes (lift r >>= f)
  lift-Goes r f {a} e hf s =
      let (b, s', q) = hf s in (b, s', >>=-ok (lift r) f s s a (ap (λ z. (z, s)) e) ∙ q)

  -- From every state with the first property, the run succeeds, with a value and a state that have
  -- the second.
  abbrev pub Meets : {A : Type 0} → (S → Type 0) → Action S A → (A → S → Type 0) → Type 0
  Meets {A} I m J = (s : S) → I s → (a : A) × (s' : S) × (m s ≡ (ok a, s')) × J a s'

  pub pure-Meets : {A : Type 0} (I : S → Type 0) (a : A) → Meets I (pure a) (λ _. I)
  pure-Meets I a s i = (a, s, refl, i)

  pub bind-Meets :
      {A B : Type 0} {I : S → Type 0} {J : A → S → Type 0} {L : B → S → Type 0} (m : Action S A)
      (f : A → Action S B)
      → Meets I m J
      → ((a : A) → Meets (J a) (f a) L)
      → Meets I (m >>= f) L
  bind-Meets m f hm hf s i =
      let (a, s', e, j) = hm s i in
      let (b, s'', q, l) = hf a s' j in (b, s'', >>=-ok m f s s' a e ∙ q, l)

  pub lift-Meets :
      {A B : Type 0} {I : S → Type 0} {L : B → S → Type 0} (r : Result Error A) (f : A → Action S B)
      {a : A}
      → r ≡ ok a
      → Meets I (f a) L
      → Meets I (lift r >>= f) L
  lift-Meets r f {a} e hf s i =
      let (b, s', q, l) = hf s i in (b, s', >>=-ok (lift r) f s s a (ap (λ z. (z, s)) e) ∙ q, l)

  pub guard-Meets :
      {A : Type 0} {I : S → Type 0} {J : A → S → Type 0} (P : Platform) (call : A → S → Reply A × S)
      (arg : A)
      → ((s : S) → I s → (call arg s).0.ret ≢ ioctl_error)
      → ((s : S) → I s → J (call arg s).0.arg (call arg s).1)
      → Meets I (ioctl_guard P call arg) J
  guard-Meets P call arg h j s i = (
    (call arg s).0.arg,
    (call arg s).1,
    ioctl_guard-ok P call arg s (call arg s).1 (h s i) refl,
    j s i,
  )
