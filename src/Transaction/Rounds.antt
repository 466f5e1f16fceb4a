-- ===== src/Transaction/Rounds.antt =====
-- What the loops over rules and changes do to the inactive rulesets.
use mathlib.Core.List.{append-nil, append_assoc, map-append}
use pfctl_rs.Common.{
  ℕ, ◌≡◌, refl, sym, ap, ◌∙◌, inl, inr, Bool, true, false, All, ◌&&◌, List, [], ◌∷◌, ◌++◌, map,
  bytes_eq, Bool-cases, if◌then◌else◌, arith,
}
use pfctl_rs.Common.Int.{ℤ, eq_ℤ}
use pfctl_rs.Error.{Error, Result, ok, err, panic}
use pfctl_rs.Cstr.{Str, zeros}
use pfctl_rs.Kernel.{Kernel, Action}
use pfctl_rs.Kernel.Laws.{>>=-eq-ok}
use pfctl_rs.Kernel.Keeps.{Keeps, bind-Keeps, lift-Keeps}
use pfctl_rs.Anchor.{RulesetKind, ruleset_to_i32}
use pfctl_rs.Utils.{copy_anchor_name}
use pfctl_rs.Transaction.{add_rules, add_changes}
use pfctl_rs.Transaction.Rulesets.{Submitted, Rulesets, same_key}
use pfctl_rs.Transaction.Submission.{all_submitted}
use pfctl_rs.Transaction.Tickets.{fst}
use pfctl_rs.Transaction.Adding.{Staged}

-- The rules of all changes whose anchor has the name `b` as it stands in a buffer.
unfoldable pub rules_at : {R : Type 0} → List ℕ → List (Str × List R) → List R
rules_at b [] = []
rules_at b ((anchor, rules) ∷ cs) =
    let rest = rules_at b cs in
    elim (copy_anchor_name anchor (zeros 1024)) [
      | ok name ↦ if bytes_eq b name then rules ++ rest else rest
      | err e ↦ rest
      | panic ↦ rest
    ]

pub rules_at-cons :
    {R : Type 0} (b : List ℕ) (anchor : Str) (rules : List R) (cs : List (Str × List R))
    {name : List ℕ}
    → copy_anchor_name anchor (zeros 1024) ≡ ok name
    → rules_at b ((anchor, rules) ∷ cs)
      ≡ (if bytes_eq b name then rules ++ rules_at b cs else rules_at b cs)
unfolding rules_at
rules_at-cons b anchor rules cs e = rw (e, rules_at)

all_submitted-cons :
    {R : Type 0} (sub : R → Result Error Submitted) (x : R) (xs : List R) {ps : List Submitted}
    → all_submitted sub (x ∷ xs) ≡ ok ps
    → (p : Submitted) × (ps' : List Submitted) × (sub x ≡ ok p)
      × (all_submitted sub xs ≡ ok ps')
      × (p ∷ ps' ≡ ps)
unfolding all_submitted
all_submitted-cons sub x xs h = ground arith

cons-all_submitted :
    {R : Type 0} (sub : R → Result Error Submitted) (x : R) (xs : List R) {p : Submitted}
    {ps : List Submitted}
    → sub x ≡ ok p
    → all_submitted sub xs ≡ ok ps
    → all_submitted sub (x ∷ xs) ≡ ok (p ∷ ps)
unfolding all_submitted
cons-all_submitted sub x xs h k = rw (h, k)

all_submitted-append :
    {R : Type 0} (sub : R → Result Error Submitted) (xs ys : List R) {ps qs : List Submitted}
    → all_submitted sub xs ≡ ok ps
    → all_submitted sub ys ≡ ok qs
    → all_submitted sub (xs ++ ys) ≡ ok (ps ++ qs)
unfolding all_submitted
all_submitted-append sub [] ys h k = ground arith
all_submitted-append sub (x ∷ xs) ys {ps} {qs} h k =
    let (p, ps', e, f, q) = all_submitted-cons sub x xs h in
    cons-all_submitted sub x (xs ++ ys) e (all_submitted-append sub xs ys f k)
    ∙ ap (λ z. ok (z ++ qs)) q

-- Two parts that are appended under one test.
if-append {ℓ} :
    {A : Type ℓ} (t : Bool) (l xs ys : List A)
    → (l ++ (if t then xs else [])) ++ (if t then ys else []) ≡ l ++ (if t then xs ++ ys else [])
if-append true l xs ys = append_assoc l xs ys
if-append false l xs ys = append-nil (l ++ [])

if-nil {ℓ} : {A : Type ℓ} (t : Bool) (l : List A) → l ++ (if t then [] else []) ≡ l
if-nil true l = append-nil l
if-nil false l = append-nil l

if-nil_alone {ℓ} : {A : Type ℓ} (t : Bool) → ◌≡◌ {A = List A} (if t then [] else []) []
if-nil_alone true = refl
if-nil_alone false = refl

if-and_true {ℓ} :
    {A : Type ℓ} (t u : Bool) (l : List A)
    → u ≡ true
    → (if t && u then l else []) ≡ (if t then l else [])
if-and_true true u l h = rw h
if-and_true false u l h = refl

if-and_false {ℓ} :
    {A : Type ℓ} (t u : Bool) (l : List A) → u ≡ false → (if t && u then l else []) ≡ []
if-and_false true u l h = rw h
if-and_false false u l h = refl

-- A change's rules stand before the others of the name, if it has the name.
both :
    {R : Type 0} (sub : R → Result Error Submitted) (t : Bool) (xs ys : List R)
    {ps qs : List Submitted}
    → all_submitted sub xs ≡ ok ps
    → all_submitted sub ys ≡ ok qs
    → all_submitted sub (if t then xs ++ ys else ys) ≡ ok ((if t then ps else []) ++ qs)
both sub true xs ys f g = all_submitted-append sub xs ys f g
both sub false xs ys f g = g

-- Every anchor's name fits the buffer for it.
abbrev pub IsNamed : {R : Type 0} → List ((Str × List R) × ℕ) → Type 0
IsNamed work =
    All (λ ((anchor, rules), t). (n : List ℕ) × (copy_anchor_name anchor (zeros 1024) ≡ ok n)) work

module _ {K : Kernel} (V : Rulesets K) {R : Type 0} (kind : RulesetKind)
    (sub : R → Result Error Submitted) (add : Str → R → ℕ → Action K.State (Unit {0}))
    (staged : (anchor : Str) (rule : R) (ticket : ℕ) (s : K.State)
      → (add anchor rule ticket s).0 ≡ ok tt
      → Staged V kind sub anchor rule s (add anchor rule ticket s).1) where
  -- What a run appends at the anchor's name, for rules that are submitted as `ps`.
  abbrev Appends : List ℕ → List Submitted → K.State → K.State → Type 0
  Appends name ps s s' =
      (k : ℤ) (b : List ℕ)
      → V.staged s' k b
        ≡ V.staged s k b ++ (if same_key k b (ruleset_to_i32 kind) name then map V.image ps else [])

  Appends-trans :
      (name : List ℕ) (ps qs : List Submitted) (s s1 s' : K.State)
      → Appends name ps s s1
      → Appends name qs s1 s'
      → Appends name (ps ++ qs) s s'
  Appends-trans name ps qs s s1 s' h g k b =
      let t = same_key k b (ruleset_to_i32 kind) name in
      g k b
      ∙ ap (λ l. l ++ (if t then map V.image qs else [])) (h k b)
      ∙ if-append t (V.staged s k b) (map V.image ps) (map V.image qs)
      ∙ ap (λ l. V.staged s k b ++ (if t then l else [])) (sym (map-append V.image ps qs))

  same_name :
      (anchor : Str) (rule : R) (name : List ℕ) (s s' : K.State)
      → copy_anchor_name anchor (zeros 1024) ≡ ok name
      → (d : Staged V kind sub anchor rule s s') → Appends name (d.submitted_rule ∷ []) s s'
  same_name anchor rule name s s' e d =
      let same : d.name ≡ name = cc (d.copied, e) in rw same at d.appended

  add_rules-Appends :
      (anchor : Str) (rules : List R) (ticket : ℕ) (name : List ℕ) (s : K.State)
      → copy_anchor_name anchor (zeros 1024) ≡ ok name
      → (add_rules add anchor rules ticket s).0 ≡ ok tt
      → (ps : List Submitted) × (all_submitted sub rules ≡ ok ps)
        × Appends name ps s (add_rules add anchor rules ticket s).1
  unfolding add_rules all_submitted
  add_rules-Appends anchor [] ticket name s e h = ([], refl, λ k b. sym (if-nil _ (V.staged s k b)))
  add_rules-Appends anchor (rule ∷ rules) ticket name s e h =
      let m = add anchor rule ticket in
      let (a, r, rest, q) = >>=-eq-ok m (λ _. add_rules add anchor rules ticket) s h in
      let d = staged anchor rule ticket s r in
      let (ps, f, g) = add_rules-Appends anchor rules ticket name (m s).1 e rest in
      (
        d.submitted_rule ∷ ps,
        cons-all_submitted sub rule rules d.submitted f,
        λ k b.
            ap (λ z. V.staged z.1 k b) q
            ∙ Appends-trans name (d.submitted_rule ∷ []) ps s (m s).1 _
                (same_name anchor rule name s (m s).1 e d) g k b,
      )

  -- What a run appends at one name, to the ruleset of the kind and to no other.
  abbrev pub AppendsAt : List ℕ → List Submitted → K.State → K.State → Type 0
  AppendsAt b ps s s' =
      (k : ℤ)
      → V.staged s' k b
        ≡ V.staged s k b ++ (if eq_ℤ k (ruleset_to_i32 kind) then map V.image ps else [])

  AppendsAt-trans :
      (b : List ℕ) (ps qs : List Submitted) (s s1 s' : K.State)
      → AppendsAt b ps s s1
      → AppendsAt b qs s1 s'
      → AppendsAt b (ps ++ qs) s s'
  AppendsAt-trans b ps qs s s1 s' h g k =
      let t = eq_ℤ k (ruleset_to_i32 kind) in
      g k
      ∙ ap (λ l. l ++ (if t then map V.image qs else [])) (h k)
      ∙ if-append t (V.staged s k b) (map V.image ps) (map V.image qs)
      ∙ ap (λ l. V.staged s k b ++ (if t then l else [])) (sym (map-append V.image ps qs))

  -- The name is that of the change, or another.
  Appends-AppendsAt :
      (b name : List ℕ) (ps : List Submitted) (s s' : K.State)
      → Appends name ps s s'
      → AppendsAt b (if bytes_eq b name then ps else []) s s'
  Appends-AppendsAt b name ps s s' h k = elim (Bool-cases (bytes_eq b name)) [
    | inl same ↦ rw same (h k b ∙ ap (λ l. V.staged s k b ++ l) (if-and_true _ _ _ same))
    | inr other ↦ rw other (
        h k b
        ∙ ap (λ l. V.staged s k b ++ l) (if-and_false _ _ _ other)
        ∙ ap (λ l. V.staged s k b ++ l) (sym (if-nil_alone _)))
  ]

  pub add_changes-AppendsAt :
      (work : List ((Str × List R) × ℕ)) (b : List ℕ) (s : K.State)
      → IsNamed work
      → (add_changes add work s).0 ≡ ok tt
      → (ps : List Submitted) × (all_submitted sub (rules_at b (map fst work)) ≡ ok ps)
        × AppendsAt b ps s (add_changes add work s).1
  unfolding add_changes all_submitted rules_at
  add_changes-AppendsAt [] b s names h = ([], refl, λ k. sym (if-nil _ (V.staged s k b)))
  add_changes-AppendsAt (((anchor, rules), ticket) ∷ work) b s ((name, e), names) h =
      let m = add_rules add anchor rules ticket in
      let (a, r, rest, q) = >>=-eq-ok m (λ _. add_changes add work) s h in
      let (ps, f, g) = add_rules-Appends anchor rules ticket name s e r in
      let (qs, f', g') = add_changes-AppendsAt work b (m s).1 names rest in
      (
        (if bytes_eq b name then ps else []) ++ qs,
        ap (all_submitted sub) (rules_at-cons b anchor rules (map fst work) e)
            ∙ both sub (bytes_eq b name) rules (rules_at b (map fst work)) f f',
        λ k.
            ap (λ z. V.staged z.1 k b) q
            ∙ AppendsAt-trans b (if bytes_eq b name then ps else []) qs s (m s).1 _
                (Appends-AppendsAt b name ps s (m s).1 g) g' k,
      )

-- The loops leave as it was what adding one rule leaves as it was.
module _ {S X R : Type 0} (F : S → X) (add : Str → R → ℕ → Action S (Unit {0}))
    (keeps : (anchor : Str) (rule : R) (ticket : ℕ) → Keeps F (add anchor rule ticket)) where
  add_rules-Keeps :
      (anchor : Str) (rules : List R) (ticket : ℕ) → Keeps F (add_rules add anchor rules ticket)
  unfolding add_rules
  add_rules-Keeps anchor [] ticket = lift-Keeps F (ok tt)
  add_rules-Keeps anchor (rule ∷ rules) ticket =
      bind-Keeps F (add anchor rule ticket) (λ _. add_rules add anchor rules ticket)
        (keeps anchor rule ticket) (λ _. add_rules-Keeps anchor rules ticket)

  pub add_changes-Keeps : (work : List ((Str × List R) × ℕ)) → Keeps F (add_changes add work)
  unfolding add_changes
  add_changes-Keeps [] = lift-Keeps F (ok tt)
  add_changes-Keeps (((anchor, rules), ticket) ∷ work) =
      bind-Keeps F (add_rules add anchor rules ticket) (λ _. add_changes add work)
        (add_rules-Keeps anchor rules ticket) (λ _. add_changes-Keeps work)
