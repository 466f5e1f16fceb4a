-- ===== src/Transaction/Distinct.antt =====
-- The elements of a transaction with one entry per anchor are for different rulesets.
use pfctl_rs.Common.{◌≡◌, ◌≢◌, refl, sym, ap, ◌∙◌, inl, inr, List, [], ◌∷◌, ◌++◌}
use pfctl_rs.Error.{ok}
use pfctl_rs.Cstr.{Str, zeros}
use pfctl_rs.Platform.{Platform}
use pfctl_rs.Ffi.{PfiocTransElem}
use pfctl_rs.Anchor.{RulesetKind}
use pfctl_rs.Transaction.{Entries, partition, specs, specs_of}
use pfctl_rs.Transaction.Names.{
  Among, Among-append, HasUniqueNames, IsNew-not_Among, changes_of-HasUniqueNames,
}
use pfctl_rs.Transaction.Tickets.{AreFor}
use pfctl_rs.Transaction.Elements.{spec_of, specs_of-Among}
use pfctl_rs.Transaction.Filling.{copy_anchor_name_injective}
use pfctl_rs.Transaction.Run.{ruleset_to_i32_injective}
use pfctl_rs.Transaction.Going.{HasDistinctKeys}

abbrev HasNoDuplicates : List (Str × RulesetKind) → Type 0
HasNoDuplicates [] = Unit {0}
HasNoDuplicates (s ∷ ss) = (¬ Among s ss) × HasNoDuplicates ss

append-HasNoDuplicates :
    (xs ys : List (Str × RulesetKind))
    → HasNoDuplicates xs
    → HasNoDuplicates ys
    → ((s : Str × RulesetKind) → Among s xs → ¬ Among s ys)
    → HasNoDuplicates (xs ++ ys)
append-HasNoDuplicates [] ys h k apart = k
append-HasNoDuplicates (x ∷ xs) ys (d, h) k apart = (
  λ m. elim (Among-append x xs ys m) [ inl a ↦ d a | inr b ↦ apart x (inl refl) b ],
  append-HasNoDuplicates xs ys h k (λ s m. apart s (inr m)),
)

specs_of-HasNoDuplicates :
    {R : Type 0} (kind : RulesetKind) (cs : List (Str × List R))
    → HasUniqueNames cs
    → HasNoDuplicates (specs_of kind cs)
specs_of-HasNoDuplicates kind [] h = tt
specs_of-HasNoDuplicates kind ((a, rules) ∷ cs) (new, h) = (
  λ m. (let (q, (rs, k)) = specs_of-Among kind kind a cs m in IsNew-not_Among a rs cs new k),
  specs_of-HasNoDuplicates kind cs h,
)

-- Rules of two kinds have no spec in common.
kinds-apart :
    {R : Type 0} (kind : RulesetKind) (cs : List (Str × List R)) (rest : List (Str × RulesetKind))
    → ((s : Str × RulesetKind) → Among s rest → s.1 ≢ kind)
    → (s : Str × RulesetKind) → Among s (specs_of kind cs)
    → ¬ Among s rest
kinds-apart kind cs rest other (a, k) m n = other (a, k) n (specs_of-Among kind k a cs m).0

not_kind :
    {R : Type 0} (kind other : RulesetKind) (cs : List (Str × List R))
    → other ≢ kind
    → (s : Str × RulesetKind) → Among s (specs_of other cs)
    → s.1 ≢ kind
not_kind kind other cs d (a, k) m e = d (sym (specs_of-Among other k a cs m).0 ∙ e)

append-not_kind :
    (kind : RulesetKind) (xs ys : List (Str × RulesetKind))
    → ((s : Str × RulesetKind) → Among s xs → s.1 ≢ kind)
    → ((s : Str × RulesetKind) → Among s ys → s.1 ≢ kind)
    → (s : Str × RulesetKind) → Among s (xs ++ ys)
    → s.1 ≢ kind
append-not_kind kind xs ys f g s m = elim (Among-append s xs ys m) [ inl a ↦ f s a | inr b ↦ g s b ]

specs-HasNoDuplicates :
    {P : Platform} (entries : Entries P)
    → HasUniqueNames entries
    → HasNoDuplicates (specs (partition entries))
specs-HasNoDuplicates entries u =
    let p = partition entries in
    let filters =
      specs_of-HasNoDuplicates RulesetKind.filter p.filter_changes
        (changes_of-HasUniqueNames (λ c. c.filter_rules) entries u) in
    let nats =
      specs_of-HasNoDuplicates RulesetKind.nat p.nat_changes
        (changes_of-HasUniqueNames (λ c. c.nat_rules) entries u) in
    let redirects =
      specs_of-HasNoDuplicates RulesetKind.redirect p.redirect_changes
        (changes_of-HasUniqueNames (λ c. c.redirect_rules) entries u) in
    let scrubs =
      specs_of-HasNoDuplicates RulesetKind.scrub p.scrub_changes
        (changes_of-HasUniqueNames (λ c. c.scrub_rules) entries u) in
    append-HasNoDuplicates _ _ filters
      (append-HasNoDuplicates _ _ nats
        (append-HasNoDuplicates _ _ redirects scrubs (
          kinds-apart RulesetKind.redirect p.redirect_changes _
            (not_kind RulesetKind.redirect RulesetKind.scrub p.scrub_changes (λ e. cc))))
        (kinds-apart RulesetKind.nat p.nat_changes _ (
          append-not_kind RulesetKind.nat _ _
            (not_kind RulesetKind.nat RulesetKind.redirect p.redirect_changes (λ e. cc))
            (not_kind RulesetKind.nat RulesetKind.scrub p.scrub_changes (λ e. cc)))))
      (kinds-apart RulesetKind.filter p.filter_changes _ (
        append-not_kind RulesetKind.filter _ _
          (not_kind RulesetKind.filter RulesetKind.nat p.nat_changes (λ e. cc))
          (append-not_kind RulesetKind.filter _ _
            (not_kind RulesetKind.filter RulesetKind.redirect p.redirect_changes (λ e. cc))
            (not_kind RulesetKind.filter RulesetKind.scrub p.scrub_changes (λ e. cc)))))

AreFor-HasDistinctKeys :
    (ss : List (Str × RulesetKind)) (es : List PfiocTransElem)
    → HasNoDuplicates ss
    → AreFor ss es
    → HasDistinctKeys es
AreFor-HasDistinctKeys [] [] d h = tt
AreFor-HasDistinctKeys [] (e ∷ es) d h = elim h [ ]
AreFor-HasDistinctKeys (s ∷ ss) [] d h = elim h [ ]
AreFor-HasDistinctKeys ((anchor, kind) ∷ ss) (e ∷ es) (new, d) ((n, c), h) = (
  λ x m (n', a').
      (let (anchor', kind', spec, (k, c')) = spec_of x ss es h m in
        let kinds : kind' ≡ kind = ruleset_to_i32_injective kind' kind (sym k ∙ n' ∙ n) in
        let anchors : anchor' ≡ anchor =
          copy_anchor_name_injective anchor' anchor (zeros 1024) (c' ∙ ap ok a') c in
        new (rw (kinds, anchors) at spec)),
  AreFor-HasDistinctKeys ss es d h,
)

-- With one entry per anchor, no two elements are for the same ruleset.
pub elements-HasDistinctKeys :
    {P : Platform} (entries : Entries P) (es : List PfiocTransElem)
    → HasUniqueNames entries
    → AreFor (specs (partition entries)) es
    → HasDistinctKeys es
elements-HasDistinctKeys entries es u h =
    AreFor-HasDistinctKeys (specs (partition entries)) es (specs-HasNoDuplicates entries u) h
