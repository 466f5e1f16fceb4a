-- ===== src/Common/Lists.antt =====
-- Lists measured and indexed by the native numbers, byte buffers, and equality of byte strings.
use Prim.Native.Nat.{ℕ, zero, suc, ◌+◌}
use mathlib.Core.Path.{◌≡◌, refl, ap}
use mathlib.Core.Logic.{◌↔◌, ◌⊎◌, inl, inr}
use mathlib.Core.Bool.{Bool, true, false, ◌&&◌, ◌||◌}
use mathlib.Core.List.{List, [], ◌∷◌, ◌++◌}
use native.Mathlib.Omega.{arith}
use pfctl_rs.Common.Tests.{◌==◌}

module _ {ℓ} {A : Type ℓ} where
  abbrev pub length : List A → ℕ
  length [] = 0
  length (x ∷ xs) = suc (length xs)

  -- A write out of bounds changes nothing.
  abbrev pub set : List A → ℕ → A → List A
  set [] i v = []
  set (x ∷ xs) zero v = v ∷ xs
  set (x ∷ xs) (suc i) v = x ∷ set xs i v

  abbrev pub take : ℕ → List A → List A
  take zero xs = []
  take (suc n) [] = []
  take (suc n) (x ∷ xs) = x ∷ take n xs

  unfoldable pub replicate : ℕ → A → List A
  replicate zero a = []
  replicate (suc n) a = a ∷ replicate n a

  -- `dst[..src.len()].copy_from_slice(src)`, for a source that fits.
  abbrev pub overlay : List A → List A → List A
  overlay [] dst = dst
  overlay (x ∷ xs) [] = []
  overlay (x ∷ xs) (y ∷ dst) = x ∷ overlay xs dst

  -- A buffer of the caller after a call that has written `new` into it: it keeps its length.
  abbrev pub written : List A → List A → List A
  written [] new = []
  written (x ∷ xs) [] = x ∷ xs
  written (x ∷ xs) (y ∷ new) = y ∷ written xs new

  -- A predicate at every element.
  abbrev pub All {κ} : (A → Type κ) → List A → Type κ
  All P [] = Unit
  All P (x ∷ xs) = P x × All P xs

  pub length-append : (xs ys : List A) → length (xs ++ ys) ≡ length xs + length ys
  length-append [] ys = omega arith
  length-append (x ∷ xs) ys = omega (arith, length-append xs ys)

  pub length-replicate : (n : ℕ) (a : A) → length (replicate n a) ≡ n
  unfolding replicate
  length-replicate zero a = refl
  length-replicate (suc n) a = ap suc (length-replicate n a)

  pub length-set : (xs : List A) (i : ℕ) (v : A) → length (set xs i v) ≡ length xs
  length-set [] i v = refl
  length-set (x ∷ xs) zero v = refl
  length-set (x ∷ xs) (suc i) v = ap suc (length-set xs i v)

  pub length-written : (xs new : List A) → length (written xs new) ≡ length xs
  length-written [] new = refl
  length-written (x ∷ xs) [] = refl
  length-written (x ∷ xs) (y ∷ new) = ap suc (length-written xs new)

  pub length-overlay : (xs dst : List A) → length (overlay xs dst) ≡ length dst
  length-overlay [] dst = refl
  length-overlay (x ∷ xs) [] = refl
  length-overlay (x ∷ xs) (y ∷ dst) = ap suc (length-overlay xs dst)

-- An element of the list.
abbrev pub Among : {A : Type 0} → A → List A → Type 0
Among e [] = ⊥
Among e (x ∷ xs) = (e ≡ x) ⊎ Among e xs

pub Among-append_left : {A : Type 0} (e : A) (xs ys : List A) → Among e xs → Among e (xs ++ ys)
Among-append_left e [] ys h = elim h [ ]
Among-append_left e (x ∷ xs) ys (inl h) = inl h
Among-append_left e (x ∷ xs) ys (inr h) = inr (Among-append_left e xs ys h)

pub Among-append_right : {A : Type 0} (e : A) (xs ys : List A) → Among e ys → Among e (xs ++ ys)
Among-append_right e [] ys h = h
Among-append_right e (x ∷ xs) ys h = inr (Among-append_right e xs ys h)

pub Among-append :
    {A : Type 0} (e : A) (xs ys : List A) → Among e (xs ++ ys) → Among e xs ⊎ Among e ys
Among-append e [] ys h = inr h
Among-append e (x ∷ xs) ys (inl h) = inl (inl h)
Among-append e (x ∷ xs) ys (inr h) = elim (Among-append e xs ys h) [
  | inl g ↦ inl (inr g)
  | inr g ↦ inr g
]

unfoldable pub contains : List ℕ → ℕ → Bool
contains [] a = false
contains (x ∷ xs) a = a == x || contains xs a

unfoldable pub bytes_eq : List ℕ → List ℕ → Bool
bytes_eq [] [] = true
bytes_eq [] (y ∷ ys) = false
bytes_eq (x ∷ xs) [] = false
bytes_eq (x ∷ xs) (y ∷ ys) = x == y && bytes_eq xs ys

pub bytes_eq_iff : (xs ys : List ℕ) → (bytes_eq xs ys ≡ true) ↔ (xs ≡ ys)
unfolding bytes_eq
bytes_eq_iff [] [] = (λ _. refl, λ _. refl)
bytes_eq_iff [] (y ∷ ys) = (λ h. cc, λ h. cc)
bytes_eq_iff (x ∷ xs) [] = (λ h. cc, λ h. cc)
bytes_eq_iff (x ∷ xs) (y ∷ ys) = ground (arith, bytes_eq_iff xs ys)
