-- ===== src/Transaction/Order.antt =====
-- The order of the entries: a hash map iterates over them in any order.
use pfctl_rs.Common.{
  ℕ, ◌≡◌, ◌≢◌, refl, sym, ap, ◌∙◌, ◌⊎◌, inl, inr, Bool-cases, Option, none, some, List, [], ◌∷◌,
  bytes_eq, bytes_eq_iff, map,
}
use pfctl_rs.Error.{Error, Result, ok, err, panic}
use pfctl_rs.Cstr.{Str, zeros}
use pfctl_rs.Platform.{Platform}
use pfctl_rs.Kernel.{Kernel}
use pfctl_rs.Anchor.{RulesetKind, ruleset_to_i32}
use pfctl_rs.Utils.{copy_anchor_name}
use pfctl_rs.Transaction.{AnchorChange, Transaction, commit}
use pfctl_rs.Transaction.Names.{Among, HasUniqueNames}
use pfctl_rs.Transaction.Rulesets.{Submitted, Rulesets, IsTransactional}
use pfctl_rs.Transaction.Run.{Published}
use pfctl_rs.Transaction.Submission.{
  filter_submission, nat_submission, redirect_submission, scrub_submission,
}
use pfctl_rs.Transaction.Atomic.{commit-Published, commit-others}

-- The same entries, in any order.
abbrev pub SameEntries : {X : Type 0} → List X → List X → Type 0
SameEntries {X} xs ys = ((e : X) → Among e xs → Among e ys) × ((e : X) → Among e ys → Among e xs)

-- Whether a name is written as the buffer.
pub is_written_as :
    (anchor : Str) (b : List ℕ)
    → (copy_anchor_name anchor (zeros 1024) ≡ ok b) ⊎ (copy_anchor_name anchor (zeros 1024) ≢ ok b)
is_written_as anchor b = go (copy_anchor_name anchor (zeros 1024))
  where
    go : (r : Result Error (List ℕ)) → (r ≡ ok b) ⊎ (r ≢ ok b)
    go (ok a) = elim (Bool-cases (bytes_eq a b)) [
      | inl same ↦ inl (ap ok ((bytes_eq_iff a b).0 same))
      | inr other ↦
          inr (λ h. let eq : a ≡ b = cc in let same = (bytes_eq_iff a b).1 eq in cc (same, other))
    ]
    go (err e) = inr (λ h. cc)
    go panic = inr (λ h. cc)

-- Whether one of the entries has a name that is written as the buffer.
written_entry :
    {X : Type 0} (entries : List (Str × X)) (b : List ℕ)
    → ((anchor : Str) × (x : X) × Among (anchor, x) entries
        × (copy_anchor_name anchor (zeros 1024) ≡ ok b))
      ⊎ ((anchor : Str) (x : X)
          → Among (anchor, x) entries
          → copy_anchor_name anchor (zeros 1024) ≢ ok b)
written_entry [] b = inr (λ anchor x m. absurd m)
written_entry ((name, y) ∷ entries) b = elim (is_written_as name b) [
  | inl here ↦ inl (name, y, inl refl, here)
  | inr not_here ↦ elim (written_entry entries b) [
    | inl (anchor, x, m, c) ↦ inl (anchor, x, inr m, c)
    | inr nowhere ↦ inr (λ anchor x m. elim m [
      | inl e ↦ (λ h. not_here (rw (ap (λ z. z.0) e) at h))
      | inr later ↦ nowhere anchor x later
    ])
  ]
]

module _ (P : Platform) {K : Kernel} (V : Rulesets K) (L : IsTransactional K V) where
  Published-determined :
      {R : Type 0} (kind : RulesetKind) (sub : R → Result Error Submitted) (o : Option (List R))
      (b : List ℕ) (s u v : K.State)
      → Published P V L kind sub o b s u
      → Published P V L kind sub o b s v
      → V.active u (ruleset_to_i32 kind) b ≡ V.active v (ruleset_to_i32 kind) b
  Published-determined kind sub none b s u v p q = p ∙ sym q
  Published-determined kind sub (some rules) b s u v (ps, e, p) (qs, f, q) =
      let same : ps ≡ qs = cc in p ∙ ap (map V.image) same ∙ sym q

  -- What `commit-Published` says of a change.
  abbrev PublishedAll : AnchorChange P → List ℕ → K.State → K.State → Type 0
  PublishedAll change b s s' =
      Published P V L RulesetKind.filter filter_submission change.filter_rules b s s'
      × Published P V L RulesetKind.nat nat_submission change.nat_rules b s s'
      × Published P V L RulesetKind.redirect redirect_submission change.redirect_rules b s s'
      × Published P V L RulesetKind.scrub scrub_submission change.scrub_rules b s s'

  PublishedAll-determined :
      (change : AnchorChange P) (b : List ℕ) (s u v : K.State)
      → PublishedAll change b s u
      → PublishedAll change b s v
      → (kind : RulesetKind)
      → V.active u (ruleset_to_i32 kind) b ≡ V.active v (ruleset_to_i32 kind) b
  PublishedAll-determined change b s u v p q RulesetKind.filter =
      Published-determined RulesetKind.filter filter_submission change.filter_rules b s u v p.0 q.0
  PublishedAll-determined change b s u v p q RulesetKind.nat =
      Published-determined RulesetKind.nat nat_submission change.nat_rules b s u v p.1 q.1
  PublishedAll-determined change b s u v p q RulesetKind.redirect =
      Published-determined RulesetKind.redirect redirect_submission change.redirect_rules b s u v
        p.2 q.2
  PublishedAll-determined change b s u v p q RulesetKind.scrub =
      Published-determined RulesetKind.scrub scrub_submission change.scrub_rules b s u v p.3 q.3

  -- Two transactions with the same entries, in whatever order a hash map iterates over them, with
  -- one entry per anchor: if both commits succeed from a state, then they leave the same active
  -- rulesets, at every anchor and of every kind.
  pub commit-SameEntries :
      (t u : Transaction P) (s : K.State)
      → SameEntries t.change_by_anchor u.change_by_anchor
      → HasUniqueNames t.change_by_anchor
      → HasUniqueNames u.change_by_anchor
      → (commit P K t s).0 ≡ ok tt
      → (commit P K u s).0 ≡ ok tt
      → (kind : RulesetKind) (b : List ℕ)
      → V.active (commit P K t s).1 (ruleset_to_i32 kind) b
        ≡ V.active (commit P K u s).1 (ruleset_to_i32 kind) b
  commit-SameEntries t u s (to, from) unique_t unique_u ht hu kind b =
      elim (written_entry t.change_by_anchor b) [
        | inl (anchor, change, m, c) ↦
            (let p = commit-Published P V L t s anchor change b unique_t m c ht in
              let q = commit-Published P V L u s anchor change b unique_u (to _ m) c hu in
              PublishedAll-determined change b s _ _ p q kind)
        | inr nowhere ↦
            commit-others P V L t s (ruleset_to_i32 kind) b nowhere ht
            ∙ sym (
                commit-others P V L u s (ruleset_to_i32 kind) b
                  (λ anchor change m. nowhere anchor change (from _ m)) hu)
      ]
