-- ===== src/Cstr/Laws.antt =====
-- What a copied string reads back as, and when the copy is refused.
use pfctl_rs.Common.{
  ℕ, ◌<◌, ◌≤◌, leb, ap, ◌≡◌, refl, ◌↔◌, ◌⊎◌, inl, inr, true, false, none, some, List, [], ◌∷◌,
  length, set, overlay, contains, bytes_eq_iff, length-set, length-overlay, length-replicate,
  Bool-cases, arith,
}
use pfctl_rs.Error.{ok, err, panic}
use pfctl_rs.Cstr.{Str, zeros, try_copy_chars, until_nul, compare_cstr_safe}

pub length-zeros : (n : ℕ) → length (zeros n) ≡ n
unfolding zeros
length-zeros n = length-replicate n 0

-- A string that fits a buffer of `n` bytes: shorter than it, and without a null byte.
abbrev pub Fits : ℕ → Str → Type 0
Fits n s = (length s < n) × (contains s 0 ≡ false)

until_nul-set-overlay :
    (s dst : List ℕ)
    → length s < length dst
    → contains s 0 ≡ false
    → until_nul (set (overlay s dst) (length s) 0) ≡ some s
unfolding until_nul contains
until_nul-set-overlay [] [] lt free = absurd (omega arith)
until_nul-set-overlay [] (y ∷ dst) lt free = refl
until_nul-set-overlay (x ∷ s) [] lt free = absurd (omega arith)
until_nul-set-overlay (x ∷ s) (y ∷ dst) lt free = ground (arith, until_nul-set-overlay s dst)

-- A copied string reads back as it was, in a buffer of the same length.
pub try_copy_chars-until_nul :
    (s dst : List ℕ) {out : List ℕ}
    → try_copy_chars s dst ≡ ok out
    → (until_nul out ≡ some s) × (length out ≡ length dst)
unfolding try_copy_chars
try_copy_chars-until_nul s dst h = ground (
  arith,
  until_nul-set-overlay s dst,
  length-set (overlay s dst) (length s) 0,
  length-overlay s dst,
)

-- A string is copied exactly if it fits. If it is as long as the buffer or longer it is "Too long",
-- and otherwise it "Contains null byte"; the copy never panics.
pub try_copy_chars-cases :
    (s dst : List ℕ)
    → ((Fits (length dst) s) × ((out : List ℕ) × (try_copy_chars s dst ≡ ok out)))
      ⊎ ((length dst ≤ length s) × (try_copy_chars s dst ≡ err "Too long"))
      ⊎ ((length s < length dst)
          × (contains s 0 ≡ true)
          × (try_copy_chars s dst ≡ err "Contains null byte"))
unfolding try_copy_chars
try_copy_chars-cases s dst = elim (Bool-cases (leb (length dst) (length s))) [
  | inl long ↦ inr (inl (ground arith, rw long))
  | inr short ↦ elim (Bool-cases (contains s 0)) [
    | inl null ↦ inr (inr (ground arith, null, rw (short, null)))
    | inr free ↦ inl ((ground arith, free), (set (overlay s dst) (length s) 0, rw (short, free)))
  ]
]

pub Fits-of_copied :
    (s dst : List ℕ) {out : List ℕ} → try_copy_chars s dst ≡ ok out → Fits (length dst) s
unfolding try_copy_chars
Fits-of_copied s dst h = ground arith

pub copied_of_Fits :
    (s dst : List ℕ)
    → Fits (length dst) s
    → try_copy_chars s dst ≡ ok (set (overlay s dst) (length s) 0)
unfolding try_copy_chars
copied_of_Fits s dst h = ground arith

-- A buffer written from one string compares equal to a string exactly if that is the same string.
pub compare_cstr_safe-try_copy_chars :
    (s t dst : List ℕ) {out : List ℕ}
    → try_copy_chars s dst ≡ ok out
    → (compare_cstr_safe t out ≡ ok true) ↔ (t ≡ s)
unfolding compare_cstr_safe
compare_cstr_safe-try_copy_chars s t dst h =
    rw ((try_copy_chars-until_nul s dst h).0, compare_cstr_safe)
      (λ e. (bytes_eq_iff t s).0 (ground arith), λ e. ap ok ((bytes_eq_iff t s).1 e))

-- Different strings, or the same string, are told apart by their buffers.
pub try_copy_chars_injective :
    (s t dst dst' : List ℕ) {out : List ℕ}
    → try_copy_chars s dst ≡ ok out
    → try_copy_chars t dst' ≡ ok out
    → s ≡ t
try_copy_chars_injective s t dst dst' h k =
    cc ((try_copy_chars-until_nul s dst h).0, (try_copy_chars-until_nul t dst' k).0)

until_nul-eq-none : (c : List ℕ) → (until_nul c ≡ none) ↔ (contains c 0 ≡ false)
unfolding until_nul contains
until_nul-eq-none [] = (λ _. refl, λ _. refl)
until_nul-eq-none (x ∷ xs) = ground (arith, until_nul-eq-none xs)

-- The comparison panics exactly on a buffer without a null byte.
pub compare_cstr_safe_panics :
    (s c : List ℕ) → (compare_cstr_safe s c ≡ panic) ↔ (contains c 0 ≡ false)
unfolding compare_cstr_safe
compare_cstr_safe_panics s c = ground (arith, until_nul-eq-none c)

-- The comparison of a string with a buffer: if the buffer was written from a string, then it is
-- true exactly if that is the same string; and it panics exactly on a buffer without a null byte.
pub compare_cstr_safe_iff :
    (s t dst c : List ℕ) {out : List ℕ}
    → try_copy_chars s dst ≡ ok out
    → ((compare_cstr_safe t out ≡ ok true) ↔ (t ≡ s))
      × ((compare_cstr_safe t c ≡ panic) ↔ (contains c 0 ≡ false))
compare_cstr_safe_iff s t dst c h =
    (compare_cstr_safe-try_copy_chars s t dst h, compare_cstr_safe_panics t c)

-- A string is copied exactly if it fits, and then it reads back, from a buffer of the same length.
-- If it is as long as the buffer or longer it is "Too long", and otherwise it "Contains null byte";
-- the copy never panics.
pub try_copy_chars-Fits :
    (s dst : List ℕ)
    → ((Fits (length dst) s)
        × ((out : List ℕ) × (try_copy_chars s dst ≡ ok out)
            × (until_nul out ≡ some s)
            × (length out ≡ length dst)))
      ⊎ ((length dst ≤ length s) × (try_copy_chars s dst ≡ err "Too long"))
      ⊎ ((length s < length dst)
          × (contains s 0 ≡ true)
          × (try_copy_chars s dst ≡ err "Contains null byte"))
try_copy_chars-Fits s dst = elim (try_copy_chars-cases s dst) [
  | inl (fits, (out, e)) ↦
      (let (read, len) = try_copy_chars-until_nul s dst e in inl (fits, (out, e, read, len)))
  | inr refused ↦ inr refused
]
