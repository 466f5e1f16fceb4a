-- ===== src/Transaction/Names.antt =====
-- The keys of a list of entries, such as the changes of a transaction by the anchor's name.
pub use pfctl_rs.Common.{Among, Among-append_left, Among-append_right, Among-append}
use pfctl_rs.Common.{
  ◌≡◌, refl, sym, ap, ◌∙◌, ◌≢◌, inl, inr, false, All, Option, some, List, [], ◌∷◌, bytes_eq,
  bytes_eq_iff, Bool-cases, Option-cases,
}
use pfctl_rs.Cstr.{Str}
use pfctl_rs.Platform.{Platform}
use pfctl_rs.Transaction.{AnchorChange, Entries, Transaction, insert, add_change, changes_of}

-- No entry has the key.
abbrev pub IsNew : {X : Type 0} → Str → List (Str × X) → Type 0
IsNew name = All (λ (n, x). n ≢ name)

-- No two entries have the same key.
abbrev pub HasUniqueNames : {X : Type 0} → List (Str × X) → Type 0
HasUniqueNames [] = Unit {0}
HasUniqueNames ((name, x) ∷ entries) = IsNew name entries × HasUniqueNames entries

pub IsNew-not_Among :
    {X : Type 0} (name : Str) (x : X) (entries : List (Str × X))
    → IsNew name entries
    → ¬ Among (name, x) entries
IsNew-not_Among name x [] d h = elim h [ ]
IsNew-not_Among name x ((n, y) ∷ entries) (d, h) (inl e) = d (sym (ap (λ z. z.0) e))
IsNew-not_Among name x ((n, y) ∷ entries) (d, h) (inr m) = IsNew-not_Among name x entries h m

-- The entry of a key is the only one.
pub HasUniqueNames-same :
    {X : Type 0} (name : Str) (x y : X) (entries : List (Str × X))
    → HasUniqueNames entries
    → Among (name, x) entries
    → Among (name, y) entries
    → x ≡ y
HasUniqueNames-same name x y [] u g h = elim g [ ]
HasUniqueNames-same name x y ((n, z) ∷ entries) (d, u) (inl e) (inl f) = ap (λ w. w.1) (e ∙ sym f)
HasUniqueNames-same name x y ((n, z) ∷ entries) (d, u) (inl e) (inr g) =
    absurd (IsNew-not_Among n y entries d (rw (ap (λ w. w.0) e) at g))
HasUniqueNames-same name x y ((n, z) ∷ entries) (d, u) (inr g) (inl e) =
    absurd (IsNew-not_Among n x entries d (rw (ap (λ w. w.0) e) at g))
HasUniqueNames-same name x y ((n, z) ∷ entries) (d, u) (inr g) (inr f) =
    HasUniqueNames-same name x y entries u g f

bytes_eq-false : (n m : Str) → bytes_eq n m ≡ false → m ≢ n
bytes_eq-false n m h e = cc ((bytes_eq_iff n m).1 (sym e), h)

module _ {P : Platform} where
  insert-IsNew :
      (name other : Str) (change : AnchorChange P) (entries : Entries P)
      → other ≢ name
      → IsNew name entries
      → IsNew name (insert other change entries)
  unfolding insert
  insert-IsNew name other change [] d h = (d, tt)
  insert-IsNew name other change ((n, c) ∷ entries) d (e, h) =
      elim (Bool-cases (bytes_eq n other)) [
        | inl same ↦ rw same (e, h)
        | inr differs ↦ rw differs (e, insert-IsNew name other change entries d h)
      ]

  insert-HasUniqueNames :
      (name : Str) (change : AnchorChange P) (entries : Entries P)
      → HasUniqueNames entries
      → HasUniqueNames (insert name change entries)
  unfolding insert
  insert-HasUniqueNames name change [] h = (tt, tt)
  insert-HasUniqueNames name change ((n, c) ∷ entries) (d, u) =
      elim (Bool-cases (bytes_eq n name)) [
        | inl same ↦ rw same (d, u)
        | inr differs ↦ rw differs (
          insert-IsNew n name change entries (bytes_eq-false n name differs) d,
          insert-HasUniqueNames name change entries u,
        )
      ]

  insert-Among :
      (name : Str) (change : AnchorChange P) (entries : Entries P)
      → Among (name, change) (insert name change entries)
  unfolding insert
  insert-Among name change [] = inl refl
  insert-Among name change ((n, c) ∷ entries) = elim (Bool-cases (bytes_eq n name)) [
    | inl same ↦ rw same (inl (ap (λ z. (z, change)) (sym ((bytes_eq_iff n name).0 same))))
    | inr differs ↦ rw differs (inr (insert-Among name change entries))
  ]

  insert-Among_other :
      (name other : Str) (change c : AnchorChange P) (entries : Entries P)
      → other ≢ name
      → Among (other, c) entries
      → Among (other, c) (insert name change entries)
  unfolding insert
  insert-Among_other name other change c [] d h = elim h [ ]
  insert-Among_other name other change c ((n, x) ∷ entries) d h =
      elim (Bool-cases (bytes_eq n name)) [
        | inl same ↦ rw same (elim h [
          | inl e ↦ absurd (d (ap (λ z. z.0) e ∙ (bytes_eq_iff n name).0 same))
          | inr m ↦ inr m
        ])
        | inr differs ↦ rw differs (elim h [
          | inl e ↦ inl e
          | inr m ↦ inr (insert-Among_other name other change c entries d m)
        ])
      ]

  -- Adding a change keeps one entry for each anchor: the anchor's entry is the new change, whatever
  -- it was before, and the entries of the other anchors stay.
  pub add_change-HasUniqueNames :
      (name : Str) (change : AnchorChange P) (t : Transaction P)
      → HasUniqueNames t.change_by_anchor
      → let t' = add_change name change t in
        HasUniqueNames t'.change_by_anchor
        × Among (name, change) t'.change_by_anchor
        × ((other : Str) (c : AnchorChange P)
            → other ≢ name
            → Among (other, c) t.change_by_anchor
            → Among (other, c) t'.change_by_anchor)
  unfolding add_change
  add_change-HasUniqueNames name change t u = (
    insert-HasUniqueNames name change t.change_by_anchor u,
    insert-Among name change t.change_by_anchor,
    λ other c d m. insert-Among_other name other change c t.change_by_anchor d m,
  )

  module _ {R : Type 0} (field : AnchorChange P → Option (List R)) where
    pub changes_of-Among :
        (anchor : Str) (rules : List R) (entries : Entries P)
        → Among (anchor, rules) (changes_of field entries)
        → (c : AnchorChange P) × Among (anchor, c) entries × (field c ≡ some rules)
    unfolding changes_of
    changes_of-Among anchor rules [] h = elim h [ ]
    changes_of-Among anchor rules ((n, c) ∷ entries) h = elim (Option-cases (field c)) [
      | inl e ↦
          (let (x, m, f) = changes_of-Among anchor rules entries (rw (e, changes_of) at h) in
            (x, inr m, f))
      | inr (rs, e) ↦ (elim (rw (e, changes_of) at h) [
        | inl q ↦ (c, inl (ap (λ z. (z.0, c)) q), e ∙ ap (λ z. some z.1) (sym q))
        | inr m ↦ (let (x, k, f) = changes_of-Among anchor rules entries m in (x, inr k, f))
      ])
    ]

    pub Among-changes_of :
        (anchor : Str) (rules : List R) (c : AnchorChange P) (entries : Entries P)
        → Among (anchor, c) entries
        → field c ≡ some rules
        → Among (anchor, rules) (changes_of field entries)
    unfolding changes_of
    Among-changes_of anchor rules c [] m h = elim m [ ]
    Among-changes_of anchor rules c ((n, x) ∷ entries) (inl e) h =
        let f : field x ≡ some rules = ap field (sym (ap (λ z. z.1) e)) ∙ h in
        rw (f, changes_of) (inl (ap (λ z. (z.0, rules)) e))
    Among-changes_of anchor rules c ((n, x) ∷ entries) (inr m) h =
        let rest = Among-changes_of anchor rules c entries m h in
        elim (Option-cases (field x)) [
          | inl e ↦ rw (e, changes_of) rest
          | inr (rs, e) ↦ rw (e, changes_of) (inr rest)
        ]

    changes_of-IsNew :
        (name : Str) (entries : Entries P)
        → IsNew name entries
        → IsNew name (changes_of field entries)
    unfolding changes_of
    changes_of-IsNew name [] h = tt
    changes_of-IsNew name ((n, c) ∷ entries) (d, h) = elim (Option-cases (field c)) [
      | inl e ↦ rw (e, changes_of) (changes_of-IsNew name entries h)
      | inr (rs, e) ↦ rw (e, changes_of) (d, changes_of-IsNew name entries h)
    ]

    pub changes_of-HasUniqueNames :
        (entries : Entries P) → HasUniqueNames entries → HasUniqueNames (changes_of field entries)
    unfolding changes_of
    changes_of-HasUniqueNames [] h = tt
    changes_of-HasUniqueNames ((n, c) ∷ entries) (d, u) = elim (Option-cases (field c)) [
      | inl e ↦ rw (e, changes_of) (changes_of-HasUniqueNames entries u)
      | inr (rs, e) ↦
          rw (e, changes_of) (changes_of-IsNew n entries d, changes_of-HasUniqueNames entries u)
    ]
