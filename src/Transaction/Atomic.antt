-- ===== src/Transaction/Atomic.antt =====
-- A commit takes effect as a whole: all of it, or nothing.
use pfctl_rs.Common.{ℕ, ◌≡◌, refl, sym, ap, ◌∙◌, ◌≢◌, Option, none, some, List, map, arith}
use pfctl_rs.Common.Int.{ℤ}
use pfctl_rs.Error.{Error, Result, ok, err, panic}
use pfctl_rs.Cstr.{Str, zeros}
use pfctl_rs.Platform.{Platform}
use pfctl_rs.Ffi.{PfiocTrans, PfiocTransElem, zero_pfioc_trans}
use pfctl_rs.Kernel.{Kernel, Action, pure, lift, ◌>>=◌, ◌>>◌, ioctl_guard}
use pfctl_rs.Kernel.Laws.{>>=-eq-ok}
use pfctl_rs.Kernel.Keeps.{Keeps, lift-Keeps, ioctl_guard-Keeps}
use pfctl_rs.Anchor.{RulesetKind}
use pfctl_rs.Utils.{copy_anchor_name, open_pf}
use pfctl_rs.Transaction.{
  AnchorChange, Transaction, partition, specs, trans_elements, setup_trans, assign_tickets,
  add_work, commit_with, commit,
}
use pfctl_rs.Transaction.Names.{Among, HasUniqueNames, changes_of-Among}
use pfctl_rs.Transaction.Rulesets.{Submitted, Rulesets, IsTransactional}
use pfctl_rs.Transaction.Elements.{spec_of, specs-Sets, Sets}
use pfctl_rs.Transaction.Submission.{
  filter_submission, nat_submission, redirect_submission, scrub_submission,
}
use pfctl_rs.Transaction.Filling.{add_work-Keeps}
use pfctl_rs.Transaction.Run.{run, Published, published, assigned, filled, granted, untouched}

module _ (P : Platform) {K : Kernel} (V : Rulesets K) (L : IsTransactional K V) where
  -- A run that changes nothing unless it succeeds.
  abbrev RollsBack : {X : Type 0} → (K.State → X) → Action K.State (Unit {0}) → Type 0
  RollsBack F m = (s : K.State) → (m s).0 ≢ ok tt → F (m s).1 ≡ F s

  bind-RollsBack :
      {A X : Type 0} (F : K.State → X) (m : Action K.State A) (f : A → Action K.State (Unit {0}))
      → Keeps F m
      → ((a : A) → RollsBack F (f a))
      → RollsBack F (m >>= f)
  bind-RollsBack {A} F m f hm hf s h = go (m s).0 refl
    where
      go : (r : Result Error A) → (m s).0 ≡ r → F ((m >>= f) s).1 ≡ F s
      go (ok a) e =
          let failed : (f a (m s).1).0 ≢ ok tt = rw (e, ◌>>=◌) at h in
          rw (e, ◌>>=◌) (hf a (m s).1 failed ∙ hm s)
      go (err x) e = rw (e, ◌>>=◌) (hm s)
      go panic e = rw (e, ◌>>=◌) (hm s)

  commit_call-RollsBack :
      (fd : ℕ) (trans : PfiocTrans) (k : ℤ) (b : List ℕ)
      → RollsBack (λ s. V.active s k b) (ioctl_guard P (K.pf_commit_trans fd) trans >> pure tt)
  unfolding ioctl_guard
  commit_call-RollsBack fd trans k b s h = ground (arith, L.commit_refused fd trans s k b)

  commit_with-RollsBack :
      (fd : ℕ) (t : Transaction P) (k : ℤ) (b : List ℕ)
      → RollsBack (λ s. V.active s k b) (commit_with P K fd t)
  unfolding commit_with
  commit_with-RollsBack fd t k b =
      let F = λ (s : K.State). V.active s k b in
      let p = partition t.change_by_anchor in
      let adding = λ (trans : PfiocTrans).
        add_work P K fd (assign_tickets p (map (λ e. e.ticket) trans.array)) in
      let ending = λ (trans : PfiocTrans). ioctl_guard P (K.pf_commit_trans fd) trans >> pure tt in
      let begin = λ (es : List PfiocTransElem).
        ioctl_guard P (K.pf_begin_trans fd) (setup_trans zero_pfioc_trans es) in
      bind-RollsBack F (lift (trans_elements (specs p)))
        (λ es. begin es >>= λ trans. adding trans >> ending trans)
        (lift-Keeps F (trans_elements (specs p)))
        (λ es.
          bind-RollsBack F (begin es) (λ trans. adding trans >> ending trans)
            (ioctl_guard-Keeps F P (K.pf_begin_trans fd) (setup_trans zero_pfioc_trans es)
              (λ s. L.begin_active fd (setup_trans zero_pfioc_trans es) s k b))
            (λ trans.
              bind-RollsBack F (adding trans) (λ _. ending trans) (add_work-Keeps P V L k b fd _)
                (λ _. commit_call-RollsBack fd trans k b)))

  open_pf-Keeps : (k : ℤ) (b : List ℕ) → Keeps (λ s. V.active s k b) (open_pf P K)
  unfolding open_pf
  open_pf-Keeps k b s = L.open_active s k b

  -- If a commit does not succeed, whatever the step at which it fails, and whether with an error or
  -- with a panic, then every active ruleset is the one from before.
  pub commit-RollsBack :
      (t : Transaction P) (s : K.State) (k : ℤ) (b : List ℕ)
      → (commit P K t s).0 ≢ ok tt
      → V.active (commit P K t s).1 k b ≡ V.active s k b
  unfolding commit
  commit-RollsBack t s k b h =
      let F = λ (s : K.State). V.active s k b in
      bind-RollsBack F (open_pf P K)
        (λ fd s. ((commit_with P K fd t s).0, K.close_pf fd (commit_with P K fd t s).1))
        (open_pf-Keeps k b)
        (λ fd s h.
          L.close_active fd (commit_with P K fd t s).1 k b ∙ commit_with-RollsBack fd t k b s h)
        s h

  -- A commit that succeeds is a run between the opening and the closing of the device.
  opened_run :
      (t : Transaction P) (s : K.State)
      → (commit P K t s).0 ≡ ok tt
      → (fd : ℕ) × ((commit_with P K fd t (open_pf P K s).1).0 ≡ ok tt)
        × ((k : ℤ) (b : List ℕ)
            → V.active (commit P K t s).1 k b
              ≡ V.active (commit_with P K fd t (open_pf P K s).1).1 k b)
  unfolding commit
  opened_run t s h =
      let (fd, e, h', q) =
        >>=-eq-ok (open_pf P K)
          (λ fd s. ((commit_with P K fd t s).0, K.close_pf fd (commit_with P K fd t s).1)) s h in
      (
        fd,
        h',
        λ k b.
            ap (λ r. V.active r.1 k b) q
            ∙ L.close_active fd (commit_with P K fd t (open_pf P K s).1).1 k b,
      )

  Published-moved :
      {R : Type 0} (kind : RulesetKind) (sub : R → Result Error Submitted) (o : Option (List R))
      (b : List ℕ) (s1 s2 s1' s2' : K.State)
      → ((k : ℤ) → V.active s1' k b ≡ V.active s1 k b)
      → ((k : ℤ) → V.active s2' k b ≡ V.active s2 k b)
      → Published P V L kind sub o b s1 s2
      → Published P V L kind sub o b s1' s2'
  Published-moved kind sub none b s1 s2 s1' s2' h g p = g _ ∙ p ∙ sym (h _)
  Published-moved kind sub (some rules) b s1 s2 s1' s2' h g (ps, e, p) = (ps, e, g _ ∙ p)

  -- After a commit that succeeds, for every change of the transaction and every kind of rules: if
  -- the change sets rules of that kind, then the active ruleset of the kind at the anchor holds
  -- exactly these rules, in order, each as its encoding with its pool and with the encoded address
  -- of that pool, if it has one; if not, it is the ruleset
  -- from before.
  pub commit-Published :
      (t : Transaction P) (s : K.State) (anchor : Str) (change : AnchorChange P) (b : List ℕ)
      → HasUniqueNames t.change_by_anchor
      → Among (anchor, change) t.change_by_anchor
      → copy_anchor_name anchor (zeros 1024) ≡ ok b
      → (commit P K t s).0 ≡ ok tt
      → let s' = (commit P K t s).1 in
        Published P V L RulesetKind.filter filter_submission change.filter_rules b s s'
        × Published P V L RulesetKind.nat nat_submission change.nat_rules b s s'
        × Published P V L RulesetKind.redirect redirect_submission change.redirect_rules b s s'
        × Published P V L RulesetKind.scrub scrub_submission change.scrub_rules b s s'
  unfolding open_pf
  commit-Published t s anchor change b unique m c h =
      let (fd, h', same) = opened_run t s h in
      let s1 = (open_pf P K s).1 in
      let r = run P V L fd t s1 h' in
      let d = filled P V L fd t s1 r b in
      let a = assigned P V L fd t s1 r in
      let opening : (k : ℤ) → V.active s k b ≡ V.active s1 k b = λ k. sym (L.open_active s k b) in
      let closing : (k : ℤ)
          → V.active (commit P K t s).1 k b ≡ V.active (commit_with P K fd t s1).1 k b =
        λ k. same k b in
      (
        Published-moved RulesetKind.filter filter_submission change.filter_rules b s1 _ s _ opening
            closing
            (published P V L fd t s1 r RulesetKind.filter filter_submission (λ c. c.filter_rules) _
              _ anchor change b unique m c a.0.0 (λ rs k. (rs, k)) (λ k. k) d.filters_submitted
              (d.filled RulesetKind.filter)),
        Published-moved RulesetKind.nat nat_submission change.nat_rules b s1 _ s _ opening closing (
            published P V L fd t s1 r RulesetKind.nat nat_submission (λ c. c.nat_rules) _ _ anchor
              change b unique m c a.1.0 (λ rs k. (rs, k)) (λ k. k) d.nats_submitted
              (d.filled RulesetKind.nat)),
        Published-moved RulesetKind.redirect redirect_submission change.redirect_rules b s1 _ s _
            opening closing
            (published P V L fd t s1 r RulesetKind.redirect redirect_submission
              (λ c. c.redirect_rules) _ _ anchor change b unique m c a.2.0 (λ rs k. (rs, k))
              (λ k. k) d.redirects_submitted (d.filled RulesetKind.redirect)),
        Published-moved RulesetKind.scrub scrub_submission change.scrub_rules b s1 _ s _ opening
            closing
            (published P V L fd t s1 r RulesetKind.scrub scrub_submission (λ c. c.scrub_rules) _ _
              anchor change b unique m c a.3.0 (λ rs k. (rs, k)) (λ k. k) d.scrubs_submitted
              (d.filled RulesetKind.scrub)),
      )

  Sets-Among :
      (t : Transaction P) (kind : RulesetKind) (anchor : Str)
      → Sets (partition t.change_by_anchor) kind anchor
      → (change : AnchorChange P) × Among (anchor, change) t.change_by_anchor
  Sets-Among t RulesetKind.filter anchor (rules, m) =
      let (c, k, f) = changes_of-Among _ anchor rules t.change_by_anchor m in (c, k)
  Sets-Among t RulesetKind.nat anchor (rules, m) =
      let (c, k, f) = changes_of-Among _ anchor rules t.change_by_anchor m in (c, k)
  Sets-Among t RulesetKind.redirect anchor (rules, m) =
      let (c, k, f) = changes_of-Among _ anchor rules t.change_by_anchor m in (c, k)
  Sets-Among t RulesetKind.scrub anchor (rules, m) =
      let (c, k, f) = changes_of-Among _ anchor rules t.change_by_anchor m in (c, k)

  -- A commit that succeeds leaves the active rulesets of every anchor that the transaction does not
  -- change as they were: those at a name that is not the name of any of its anchors.
  pub commit-others :
      (t : Transaction P) (s : K.State) (k : ℤ) (b : List ℕ)
      → ((anchor : Str) (change : AnchorChange P)
          → Among (anchor, change) t.change_by_anchor
          → copy_anchor_name anchor (zeros 1024) ≢ ok b)
      → (commit P K t s).0 ≡ ok tt
      → V.active (commit P K t s).1 k b ≡ V.active s k b
  unfolding open_pf
  commit-others t s k b others h =
      let (fd, h', same) = opened_run t s h in
      let s1 = (open_pf P K s).1 in
      let r = run P V L fd t s1 h' in
      same k b
      ∙ untouched P V L fd t s1 r k b (λ e m (n, a).
        let (anchor, kind, spec, f) = spec_of e _ r.trans.array (granted P V L fd t s1 r) m in
        let (change, there) = Sets-Among t kind anchor (specs-Sets _ kind anchor spec) in
        others anchor change there (f.1 ∙ ap ok a))
      ∙ L.open_active s k b
