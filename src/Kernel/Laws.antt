-- ===== src/Kernel/Laws.antt =====
-- Inversion of a run that succeeds, and what an ioctl call that succeeds has returned.
use pfctl_rs.Common.{Bool-cases, ◌⊎◌, inl, inr, ◌==◌, ◌≡◌, refl, ap, ◌≢◌, arith}
use pfctl_rs.Common.Int.{eq_ℤ, eq_ℤ_iff}
use pfctl_rs.Error.{Error, Result, ok, err, panic}
use pfctl_rs.Platform.{Platform}
use pfctl_rs.Kernel.{Action, pure, lift, ◌>>=◌, ◌>>◌, Reply, ioctl_error, ioctl_guard}

-- The first part of a chain has succeeded, and the second ran from there.
pub >>=-eq-ok :
    {S A B : Type 0} (m : Action S A) (f : A → Action S B) (s : S) {b : B}
    → ((m >>= f) s).0 ≡ ok b
    → (a : A) × ((m s).0 ≡ ok a) × ((f a (m s).1).0 ≡ ok b) × ((m >>= f) s ≡ f a (m s).1)
>>=-eq-ok {S} {A} {B} m f s {b} h = go (m s).0 refl
  where
    go :
        (r : Result Error A)
        → (m s).0 ≡ r
        → (a : A) × ((m s).0 ≡ ok a) × ((f a (m s).1).0 ≡ ok b) × ((m >>= f) s ≡ f a (m s).1)
    go (ok a) e = (a, e, (rw (e, ◌>>=◌) at h), rw (e, ◌>>=◌))
    go (err x) e = absurd (ground arith)
    go panic e = absurd (ground arith)

pub lift-eq-ok :
    {S A : Type 0} (r : Result Error A) (s : S) {a : A} → (lift r s).0 ≡ ok a → r ≡ ok a
lift-eq-ok r s h = h

-- A guarded call that succeeds did not return -1, and gives the structure as it was written.
pub ioctl_guard-eq-ok :
    {S A : Type 0} (P : Platform) (call : A → S → Reply A × S) (arg : A) (s : S) {a : A}
    → (ioctl_guard P call arg s).0 ≡ ok a
    → ((call arg s).0.ret ≢ ioctl_error)
      × (a ≡ (call arg s).0.arg)
      × ((ioctl_guard P call arg s).1 ≡ (call arg s).1)
unfolding ioctl_guard
ioctl_guard-eq-ok P call arg s h = ground arith

-- A chain whose first part is known to succeed.
pub >>=-ok :
    {S A B : Type 0} (m : Action S A) (f : A → Action S B) (s s' : S) (a : A)
    → m s ≡ (ok a, s')
    → (m >>= f) s ≡ f a s'
>>=-ok m f s s' a h =
    ap (λ (r, z). elim r [ ok a ↦ f a z | err e ↦ (err e, z) | panic ↦ (panic, z) ]) h

-- A chain whose first part is known to fail.
pub >>=-err :
    {S A B : Type 0} (m : Action S A) (f : A → Action S B) (s s' : S) (e : Error)
    → m s ≡ (err e, s')
    → (m >>= f) s ≡ (err e, s')
>>=-err m f s s' e h =
    ap (λ (r, z). elim r [ ok a ↦ f a z | err e ↦ (err e, z) | panic ↦ (panic, z) ]) h

pub ioctl_guard-ok :
    {S A : Type 0} (P : Platform) (call : A → S → Reply A × S) (arg : A) (s s' : S)
    → (call arg s).0.ret ≢ ioctl_error
    → (call arg s).1 ≡ s'
    → ioctl_guard P call arg s ≡ (ok (call arg s).0.arg, s')
unfolding ioctl_guard
ioctl_guard-ok P call arg s s' h q = ground (arith, eq_ℤ_iff (call arg s).0.ret ioctl_error)

-- Two computed results in a row leave the state.
pub lift->>=-same :
    {S A B : Type 0} (r : Result Error A) (f : A → Result Error B) (s : S)
    → ((lift r >>= λ a. lift (f a)) s).1 ≡ s
lift->>=-same (ok a) f s = refl
lift->>=-same (err e) f s = refl
lift->>=-same panic f s = refl

-- A guarded call whose result is dropped: it leaves the state of the call, fails if the call
-- returned -1, and succeeds if it did not.
pub ioctl_guard-dropped :
    {S A : Type 0} (P : Platform) (call : A → S → Reply A × S) (arg : A) (s : S)
    → let r = (ioctl_guard P call arg >> pure tt) s in
      (r.1 ≡ (call arg s).1)
      × (r.0 ≢ ok tt → (call arg s).0.ret ≡ ioctl_error)
      × (r.0 ≡ ok tt → (call arg s).0.ret ≢ ioctl_error)
unfolding ioctl_guard
ioctl_guard-dropped P call arg s = (
  ground arith,
  λ h. ground (arith, eq_ℤ_iff (call arg s).0.ret ioctl_error),
  λ h q. ground (arith, eq_ℤ_iff (call arg s).0.ret ioctl_error),
)

-- A guarded call gives the structure as it was written, or it was refused and gives an error.
pub ioctl_guard-cases :
    {S A : Type 0} (P : Platform) (call : A → S → Reply A × S) (arg : A) (s : S)
    → (((call arg s).0.ret ≢ ioctl_error)
        × (ioctl_guard P call arg s ≡ (ok (call arg s).0.arg, (call arg s).1)))
      ⊎ (((call arg s).0.ret ≡ ioctl_error)
          × ((e : Error) × (ioctl_guard P call arg s ≡ (err e, (call arg s).1))))
unfolding ioctl_guard
ioctl_guard-cases P call arg s = elim (Bool-cases (eq_ℤ (call arg s).0.ret ioctl_error)) [
  | inl bad ↦ inr (
    (eq_ℤ_iff (call arg s).0.ret ioctl_error).0 bad,
    elim (Bool-cases ((call arg s).0.errno == P.eexist)) [
      | inl e ↦ (Error.state_already_active, rw (bad, e) refl)
      | inr e ↦ (Error.ioctl (call arg s).0.errno, rw (bad, e) refl)
    ],
  )
  | inr good ↦
      (let fine : (call arg s).0.ret ≢ ioctl_error =
          λ q. ground (arith, eq_ℤ_iff (call arg s).0.ret ioctl_error) in
        inl (fine, ioctl_guard-ok P call arg s (call arg s).1 fine refl))
]
