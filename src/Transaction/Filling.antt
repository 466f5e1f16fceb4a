-- ===== src/Transaction/Filling.antt =====
-- What the four loops of a commit do to the inactive rulesets of one name.
use mathlib.Core.List.{append-nil}
use pfctl_rs.Common.{
  ℕ, ◌≡◌, refl, sym, ap, ◌∙◌, ◌≢◌, inl, inr, true, List, [], ◌∷◌, ◌++◌, map, bytes_eq, bytes_eq_iff,
  Bool-cases, if◌then◌else◌, arith,
}
use pfctl_rs.Common.Int.{ℤ, eq_ℤ}
use pfctl_rs.Error.{Error, Result, ok, err, panic}
use pfctl_rs.Cstr.{Str, zeros, try_copy_chars}
use pfctl_rs.Cstr.Laws.{try_copy_chars_injective}
use pfctl_rs.Platform.{Platform}
use pfctl_rs.Kernel.{Kernel, ◌>>◌}
use pfctl_rs.Kernel.Laws.{>>=-eq-ok}
use pfctl_rs.Kernel.Keeps.{Keeps, bind-Keeps}
use pfctl_rs.Anchor.{RulesetKind, ruleset_to_i32}
use pfctl_rs.Utils.{copy_anchor_name}
use pfctl_rs.Transaction.{
  Work, add_changes, add_filter_rule, add_nat_rule, add_redirect_rule, add_scrub_rule, add_work,
}
use pfctl_rs.Transaction.Names.{Among, IsNew, HasUniqueNames}
use pfctl_rs.Transaction.Tickets.{fst}
use pfctl_rs.Transaction.Rulesets.{Submitted, Rulesets, IsTransactional}
use pfctl_rs.Transaction.Submission.{
  filter_submission, nat_submission, redirect_submission, scrub_submission, all_submitted,
}
use pfctl_rs.Transaction.Adding.{
  filter-Staged, nat-Staged, redirect-Staged, scrub-Staged, filter-Keeps, nat-Keeps, redirect-Keeps,
  scrub-Keeps,
}
use pfctl_rs.Transaction.Rounds.{
  rules_at, rules_at-cons, IsNamed, add_changes-AppendsAt, add_changes-Keeps,
}

-- Anchors whose names are the same in a buffer are the same.
pub copy_anchor_name_injective :
    (a a' : Str) (dst : List ℕ) {b : List ℕ}
    → copy_anchor_name a dst ≡ ok b
    → copy_anchor_name a' dst ≡ ok b
    → a ≡ a'
unfolding copy_anchor_name
copy_anchor_name_injective a a' dst {b} h k =
    try_copy_chars_injective a a' dst dst (copied a h) (copied a' k)
  where
    copied : (x : Str) → copy_anchor_name x dst ≡ ok b → try_copy_chars x dst ≡ ok b
    copied x h = ground arith

rules_at-skip :
    {R : Type 0} (b : List ℕ) (anchor : Str) (rules : List R) (cs : List (Str × List R))
    → ((name : List ℕ) → copy_anchor_name anchor (zeros 1024) ≡ ok name → b ≢ name)
    → rules_at b ((anchor, rules) ∷ cs) ≡ rules_at b cs
unfolding rules_at
rules_at-skip {R} b anchor rules cs h = go (copy_anchor_name anchor (zeros 1024)) refl
  where
    go :
        (r : Result Error (List ℕ))
        → copy_anchor_name anchor (zeros 1024) ≡ r
        → rules_at b ((anchor, rules) ∷ cs) ≡ rules_at b cs
    go (ok name) e = elim (Bool-cases (bytes_eq b name)) [
      | inl same ↦ absurd (h name e ((bytes_eq_iff b name).0 same))
      | inr other ↦ rw (e, other, rules_at) refl
    ]
    go (err x) e = rw (e, rules_at) refl
    go panic e = rw (e, rules_at) refl

other_name :
    (anchor other : Str) (b : List ℕ)
    → copy_anchor_name anchor (zeros 1024) ≡ ok b
    → other ≢ anchor
    → (name : List ℕ) → copy_anchor_name other (zeros 1024) ≡ ok name
    → b ≢ name
other_name anchor other b h d name e q =
    d (copy_anchor_name_injective other anchor (zeros 1024) e (h ∙ ap ok q))

rules_at-IsNew :
    {R : Type 0} (anchor : Str) (b : List ℕ) (cs : List (Str × List R))
    → copy_anchor_name anchor (zeros 1024) ≡ ok b
    → IsNew anchor cs
    → rules_at b cs ≡ []
unfolding rules_at
rules_at-IsNew anchor b [] h d = refl
rules_at-IsNew anchor b ((n, rules) ∷ cs) h (d, ds) =
    rules_at-skip b n rules cs (other_name anchor n b h d) ∙ rules_at-IsNew anchor b cs h ds

-- With one change for each anchor, the rules at its name are those of its change.
pub rules_at-Among :
    {R : Type 0} (anchor : Str) (b : List ℕ) (rules : List R) (cs : List (Str × List R))
    → copy_anchor_name anchor (zeros 1024) ≡ ok b
    → HasUniqueNames cs
    → Among (anchor, rules) cs
    → rules_at b cs ≡ rules
rules_at-Among anchor b rules [] h u m = elim m [ ]
rules_at-Among anchor b rules ((n, rs) ∷ cs) h (d, u) (inl q) =
    let name : copy_anchor_name n (zeros 1024) ≡ ok b =
      ap (λ z. copy_anchor_name z (zeros 1024)) (sym (ap (λ z. z.0) q)) ∙ h in
    let same : bytes_eq b b ≡ true = (bytes_eq_iff b b).1 refl in
    rules_at-cons b n rs cs name
    ∙ ap (λ t. if t then rs ++ rules_at b cs else rules_at b cs) same
    ∙ ap (λ l. rs ++ l) (rules_at-IsNew n b cs name d)
    ∙ append-nil rs
    ∙ sym (ap (λ z. z.1) q)
rules_at-Among {R} anchor b rules ((n, rs) ∷ cs) h (d, u) (inr m) =
    rules_at-skip b n rs cs (other_name anchor n b h (differs cs d m))
    ∙ rules_at-Among anchor b rules cs h u m
  where
    differs : (cs : List (Str × List R)) → IsNew n cs → Among (anchor, rules) cs → n ≢ anchor
    differs [] d m = elim m [ ]
    differs ((x, y) ∷ cs) (d, ds) (inl q) = λ e. d (sym (ap (λ z. z.0) q) ∙ sym e)
    differs ((x, y) ∷ cs) (d, ds) (inr m) = differs cs ds m

-- Each kind of rules has a ruleset of its own.
by_kind :
    {E : Type 0} (x0 x1 x2 x3 x4 : ℤ → List E) (l1 l2 l3 l4 : List E)
    → ((k : ℤ) → x1 k ≡ x0 k ++ (if eq_ℤ k (ruleset_to_i32 RulesetKind.filter) then l1 else []))
    → ((k : ℤ) → x2 k ≡ x1 k ++ (if eq_ℤ k (ruleset_to_i32 RulesetKind.nat) then l2 else []))
    → ((k : ℤ) → x3 k ≡ x2 k ++ (if eq_ℤ k (ruleset_to_i32 RulesetKind.redirect) then l3 else []))
    → ((k : ℤ) → x4 k ≡ x3 k ++ (if eq_ℤ k (ruleset_to_i32 RulesetKind.scrub) then l4 else []))
    → (kind : RulesetKind)
    → x4 (ruleset_to_i32 kind)
      ≡ x0 (ruleset_to_i32 kind) ++ elim kind [
        | RulesetKind.filter ↦ l1
        | RulesetKind.nat ↦ l2
        | RulesetKind.redirect ↦ l3
        | RulesetKind.scrub ↦ l4
      ]
by_kind x0 x1 x2 x3 x4 l1 l2 l3 l4 h1 h2 h3 h4 RulesetKind.filter =
    h4 _ ∙ append-nil _ ∙ h3 _ ∙ append-nil _ ∙ h2 _ ∙ append-nil _ ∙ h1 _
by_kind x0 x1 x2 x3 x4 l1 l2 l3 l4 h1 h2 h3 h4 RulesetKind.nat =
    h4 _ ∙ append-nil _ ∙ h3 _ ∙ append-nil _ ∙ h2 _ ∙ ap (λ l. l ++ l2) (h1 _ ∙ append-nil _)
by_kind x0 x1 x2 x3 x4 l1 l2 l3 l4 h1 h2 h3 h4 RulesetKind.redirect =
    h4 _ ∙ append-nil _ ∙ h3 _ ∙ ap (λ l. l ++ l3) (h2 _ ∙ append-nil _ ∙ h1 _ ∙ append-nil _)
by_kind x0 x1 x2 x3 x4 l1 l2 l3 l4 h1 h2 h3 h4 RulesetKind.scrub =
    h4 _ ∙ ap (λ l. l ++ l4) (h3 _ ∙ append-nil _ ∙ h2 _ ∙ append-nil _ ∙ h1 _ ∙ append-nil _)

module _ (P : Platform) {K : Kernel} (V : Rulesets K) (L : IsTransactional K V) where
  -- What the loops have staged at the name `b`, by kind.
  pub record Filled (w : Work P) (b : List ℕ) (s s' : K.State) : Type 0 where
    pub filters : List Submitted
    pub nats : List Submitted
    pub redirects : List Submitted
    pub scrubs : List Submitted
    pub filters_submitted :
        all_submitted filter_submission (rules_at b (map fst w.filter_work)) ≡ ok filters
    pub nats_submitted : all_submitted nat_submission (rules_at b (map fst w.nat_work)) ≡ ok nats
    pub redirects_submitted :
        all_submitted redirect_submission (rules_at b (map fst w.redirect_work)) ≡ ok redirects
    pub scrubs_submitted :
        all_submitted scrub_submission (rules_at b (map fst w.scrub_work)) ≡ ok scrubs
    pub filled :
        (kind : RulesetKind)
        → V.staged s' (ruleset_to_i32 kind) b
          ≡ V.staged s (ruleset_to_i32 kind) b ++ elim kind [
            | RulesetKind.filter ↦ map V.image filters
            | RulesetKind.nat ↦ map V.image nats
            | RulesetKind.redirect ↦ map V.image redirects
            | RulesetKind.scrub ↦ map V.image scrubs
          ]

  pub add_work-Filled :
      (fd : ℕ) (w : Work P) (b : List ℕ) (s : K.State)
      → IsNamed w.filter_work
      → IsNamed w.nat_work
      → IsNamed w.redirect_work
      → IsNamed w.scrub_work
      → (add_work P K fd w s).0 ≡ ok tt
      → Filled w b s (add_work P K fd w s).1
  unfolding add_work
  add_work-Filled fd w b s fn nn rn sn h =
      let m1 = add_changes (add_filter_rule P K fd) w.filter_work in
      let m2 = add_changes (add_nat_rule P K fd) w.nat_work in
      let m3 = add_changes (add_redirect_rule P K fd) w.redirect_work in
      let m4 = add_changes (add_scrub_rule P K fd) w.scrub_work in
      let (a1, r1, h1, q1) = >>=-eq-ok m1 (λ _. m2 >> (m3 >> m4)) s h in
      let s1 = (m1 s).1 in
      let (a2, r2, h2, q2) = >>=-eq-ok m2 (λ _. m3 >> m4) s1 h1 in
      let s2 = (m2 s1).1 in
      let (a3, r3, h3, q3) = >>=-eq-ok m3 (λ _. m4) s2 h2 in
      let s3 = (m3 s2).1 in
      let (ps1, f1, g1) =
        add_changes-AppendsAt V RulesetKind.filter filter_submission (add_filter_rule P K fd)
          (filter-Staged P V L fd) w.filter_work b s fn r1 in
      let (ps2, f2, g2) =
        add_changes-AppendsAt V RulesetKind.nat nat_submission (add_nat_rule P K fd)
          (nat-Staged P V L fd) w.nat_work b s1 nn r2 in
      let (ps3, f3, g3) =
        add_changes-AppendsAt V RulesetKind.redirect redirect_submission (add_redirect_rule P K fd)
          (redirect-Staged P V L fd) w.redirect_work b s2 rn r3 in
      let (ps4, f4, g4) =
        add_changes-AppendsAt V RulesetKind.scrub scrub_submission (add_scrub_rule P K fd)
          (scrub-Staged P V L fd) w.scrub_work b s3 sn h3 in
      record {
        filters = ps1;
        nats = ps2;
        redirects = ps3;
        scrubs = ps4;
        filters_submitted = f1;
        nats_submitted = f2;
        redirects_submitted = f3;
        scrubs_submitted = f4;
        filled = λ k.
            ap (λ r. V.staged r.1 (ruleset_to_i32 k) b) (q1 ∙ q2 ∙ q3)
            ∙ by_kind (λ z. V.staged s z b) (λ z. V.staged s1 z b) (λ z. V.staged s2 z b)
                (λ z. V.staged s3 z b) (λ z. V.staged (m4 s3).1 z b) _ _ _ _ g1 g2 g3 g4 k;
      }

  pub add_work-Keeps :
      (k : ℤ) (b : List ℕ) (fd : ℕ) (w : Work P) → Keeps (λ s. V.active s k b) (add_work P K fd w)
  unfolding add_work
  add_work-Keeps k b fd w =
      let F = λ (s : K.State). V.active s k b in
      let m1 = add_changes (add_filter_rule P K fd) w.filter_work in
      let m2 = add_changes (add_nat_rule P K fd) w.nat_work in
      let m3 = add_changes (add_redirect_rule P K fd) w.redirect_work in
      let m4 = add_changes (add_scrub_rule P K fd) w.scrub_work in
      bind-Keeps F m1 (λ _. m2 >> (m3 >> m4))
        (add_changes-Keeps F (add_filter_rule P K fd) (filter-Keeps P V L k b fd) w.filter_work)
        (λ _.
          bind-Keeps F m2 (λ _. m3 >> m4)
            (add_changes-Keeps F (add_nat_rule P K fd) (nat-Keeps P V L k b fd) w.nat_work)
            (λ _.
              bind-Keeps F m3 (λ _. m4)
                (add_changes-Keeps F (add_redirect_rule P K fd) (redirect-Keeps P V L k b fd)
                  w.redirect_work)
                (λ _.
                  add_changes-Keeps F (add_scrub_rule P K fd) (scrub-Keeps P V L k b fd)
                    w.scrub_work)))
