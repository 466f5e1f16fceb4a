-- ===== src/Pfctl/AnchorLists.antt =====
-- The names of the anchors of a kind, as a list: adding one at the end, and removing one.
use pfctl_rs.Common.{
  ℕ, zero, suc, ◌+◌, ◌≡◌, ◌≢◌, refl, ap, ◌⊎◌, inl, inr, false, Bool-cases, Option-cases, Option,
  none, some, List, [], ◌∷◌, ◌++◌, All, Among, Among-append_left, Among-append_right, bytes_eq,
  bytes_eq_iff, if◌then◌else◌, arith,
}
use pfctl_rs.Cstr.{Str}
use pfctl_rs.Pfctl.Finding.{position}

-- The list without the entry of this number.
abbrev pub remove_nth : ℕ → List Str → List Str
remove_nth i [] = []
remove_nth zero (a ∷ anchors) = anchors
remove_nth (suc i) (a ∷ anchors) = a ∷ remove_nth i anchors

-- The list with the name at its end, if it was not there.
abbrev pub with_name : Str → List Str → List Str
with_name name anchors = elim (position name 0 anchors) [
  | none ↦ anchors ++ name ∷ []
  | some i ↦ anchors
]

-- The list without the first entry of the name, if there is one.
unfoldable pub without_name : Str → List Str → List Str
without_name name [] = []
without_name name (a ∷ anchors) =
    let rest = a ∷ without_name name anchors in if bytes_eq name a then anchors else rest

-- What is found at a position counted from `j`.
pub position-remove :
    (name : Str) (j : ℕ) (l : List Str) {i : ℕ}
    → position name j l ≡ some i
    → (k : ℕ) × (i ≡ j + k) × (remove_nth k l ≡ without_name name l)
unfolding position without_name
position-remove name j [] h = absurd (ground arith)
position-remove name j (a ∷ l) {i} h = elim (Bool-cases (bytes_eq name a)) [
  | inl here ↦
      (let found : position name j (a ∷ l) ≡ some j = rw (here, position) refl in
        (0, ground arith, rw (here, without_name) refl))
  | inr later ↦
      (let next : position name (suc j) l ≡ some i = rw (later, position) at h in
        let (k, e, q) = position-remove name (suc j) l next in
        (suc k, omega arith, rw (later, without_name) (ap (λ z. a ∷ z) q)))
]

pub position-none-without :
    (name : Str) (j : ℕ) (l : List Str) → position name j l ≡ none → without_name name l ≡ l
unfolding position without_name
position-none-without name j [] h = refl
position-none-without name j (a ∷ l) h = elim (Bool-cases (bytes_eq name a)) [
  | inl here ↦ absurd (ground arith)
  | inr later ↦
      (let next : position name (suc j) l ≡ none = rw (later, position) at h in
        rw (later, without_name) (ap (λ z. a ∷ z) (position-none-without name (suc j) l next)))
]

pub position-cases :
    (name : Str) (l : List Str) → (position name 0 l ≡ none) ⊎ (position name 0 l ≢ none)
position-cases name l = elim (Option-cases (position name 0 l)) [
  | inl absent ↦ inl absent
  | inr (i, there) ↦ inr (λ h. cc (h, there))
]

pub with_name-none :
    (name : Str) (l : List Str) → position name 0 l ≡ none → with_name name l ≡ l ++ name ∷ []
with_name-none name l h = rw (h, with_name) refl

pub with_name-some : (name : Str) (l : List Str) → position name 0 l ≢ none → with_name name l ≡ l
with_name-some name l h = go (position name 0 l) refl
  where
    go : (o : Option ℕ) → position name 0 l ≡ o → with_name name l ≡ l
    go none e = absurd (h e)
    go (some i) e = rw (e, with_name) refl

-- No anchor has the name.
abbrev pub IsAbsent : Str → List Str → Type 0
IsAbsent name = All (λ a. name ≢ a)

bytes_ne : (x y : Str) → x ≢ y → bytes_eq x y ≡ false
bytes_ne x y h = elim (Bool-cases (bytes_eq x y)) [
  | inl same ↦ absurd (h ((bytes_eq_iff x y).0 same))
  | inr other ↦ other
]

pub position-none-IsAbsent :
    (name : Str) (j : ℕ) (l : List Str) → position name j l ≡ none → IsAbsent name l
unfolding position
position-none-IsAbsent name j [] h = tt
position-none-IsAbsent name j (a ∷ l) h = elim (Bool-cases (bytes_eq name a)) [
  | inl here ↦ absurd (ground arith)
  | inr later ↦
      (let next : position name (suc j) l ≡ none = rw (later, position) at h in
        (
          (λ e. (let same = (bytes_eq_iff name a).1 e in cc (same, later))),
          position-none-IsAbsent name (suc j) l next,
        ))
]

pub without_name-append :
    (name : Str) (l : List Str) → IsAbsent name l → without_name name (l ++ name ∷ []) ≡ l
unfolding without_name
without_name-append name [] h = rw ((bytes_eq_iff name name).1 refl, without_name) refl
without_name-append name (a ∷ l) (d, h) =
    rw (bytes_ne name a d, without_name) (ap (λ z. a ∷ z) (without_name-append name l h))

position-Among : (name : Str) (j : ℕ) (l : List Str) → position name j l ≢ none → Among name l
unfolding position
position-Among name j [] h = absurd (h refl)
position-Among name j (a ∷ l) h = elim (Bool-cases (bytes_eq name a)) [
  | inl here ↦ inl ((bytes_eq_iff name a).0 here)
  | inr later ↦
      (let next : position name (suc j) l ≢ none = rw (later, position) at h in
        inr (position-Among name (suc j) l next))
]

-- The name is there afterwards, and so is what was there before.
pub with_name-Among :
    (name : Str) (l : List Str)
    → Among name (with_name name l) × ((a : Str) → Among a l → Among a (with_name name l))
with_name-Among name l = elim (position-cases name l) [
  | inl absent ↦
      rw (with_name-none name l absent) (
        Among-append_right name l (name ∷ []) (inl refl),
        λ a m. Among-append_left a l (name ∷ []) m,
      )
  | inr there ↦ rw (with_name-some name l there) (position-Among name 0 l there, λ a m. m)
]
