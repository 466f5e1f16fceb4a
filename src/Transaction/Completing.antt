-- ===== src/Transaction/Completing.antt =====
-- When `Transaction::commit` succeeds.
use mathlib.Core.Path.{subst}
use pfctl_rs.Common.Int.{ℤ}
use pfctl_rs.Common.{
  ℕ, All, sym, ◌≡◌, refl, ap, ◌∙◌, inl, inr, Option, none, some, List, [], ◌∷◌, Among,
}
use pfctl_rs.Error
use pfctl_rs.Error.{Result, ok}
use pfctl_rs.Cstr.{Str, zeros}
use pfctl_rs.Platform.{Platform}
use pfctl_rs.Ffi.{PfiocTrans, PfiocTransElem, zero_trans_elem, zero_pfioc_trans}
use pfctl_rs.Kernel.{Kernel, Action, pure, lift, ◌>>=◌, ◌>>◌, ioctl_guard}
use pfctl_rs.Kernel.Laws.{>>=-ok, ioctl_guard-ok}
use pfctl_rs.Kernel.Goes.{Meets, pure-Meets, bind-Meets}
use pfctl_rs.Anchor.{RulesetKind, ruleset_to_i32}
use pfctl_rs.Utils.{copy_anchor_name, open_pf, open_result}
use pfctl_rs.Rule.Filter.{FilterRule}
use pfctl_rs.Rule.Nat.{NatRule}
use pfctl_rs.Rule.Redirect.{RedirectRule}
use pfctl_rs.Rule.Scrub.{ScrubRule}
use pfctl_rs.Transaction.{
  AnchorChange, Transaction, changes_of, add_filter_rule, add_nat_rule, add_redirect_rule,
  add_scrub_rule, add_rules, add_changes, zip_by_ref, assign_tickets, trans_elements, partition,
  specs, add_work, commit_with, commit, setup_trans, Partition, new_trans_element,
}
use pfctl_rs.Transaction.Rulesets.{Submitted, Rulesets, IsTransactional}
use pfctl_rs.Transaction.Names.{HasUniqueNames, changes_of-Among}
use pfctl_rs.Transaction.Elements.{Sets, specs-Sets, trans_elements-AreFor, SameElements-AreFor}
use pfctl_rs.Transaction.Submission.{
  filter_submission, nat_submission, redirect_submission, scrub_submission,
}
use pfctl_rs.Transaction.Distinct.{elements-HasDistinctKeys}
use pfctl_rs.Transaction.Tickets.{AreFor, HasTicket, tickets_of, assign_tickets-Assigned}
use pfctl_rs.Transaction.Going.{
  Obliges, Tickets, add_filter_rule-Meets, add_nat_rule-Meets, add_redirect_rule-Meets,
  add_scrub_rule-Meets,
}

-- The anchor's name fits its buffer, and each of the rules can be submitted.
abbrev pub Ready : {R : Type 0} → (R → Result Error.Error Submitted) → Str → List R → Type 0
Ready {R} sub anchor rules =
    ((name : List ℕ) × (copy_anchor_name anchor (zeros 1024) ≡ ok name))
    × ((r : R) → Among r rules → (p : Submitted) × (sub r ≡ ok p))

module _ {S R : Type 0} (I : S → Type 0) (current : ℤ → List ℕ → ℕ) (n : ℤ)
    (add : Str → R → ℕ → Action S (Unit {0})) (sub : R → Result Error.Error Submitted)
    (goes : (anchor : Str) (name : List ℕ)
      → copy_anchor_name anchor (zeros 1024) ≡ ok name
      → (ticket : ℕ) → current n name ≡ ticket
      → (r : R) (p : Submitted) → sub r ≡ ok p
      → Meets I (add anchor r ticket) (λ _. I)) where
  -- The ticket is the current one of the anchor.
  abbrev Keyed : Str → ℕ → Type 0
  Keyed anchor ticket =
      (name : List ℕ) → copy_anchor_name anchor (zeros 1024) ≡ ok name → current n name ≡ ticket

  add_rules-Meets :
      (anchor : Str) (rules : List R) (ticket : ℕ)
      → Ready sub anchor rules
      → Keyed anchor ticket
      → Meets I (add_rules add anchor rules ticket) (λ _. I)
  unfolding add_rules
  add_rules-Meets anchor [] ticket ready keyed = pure-Meets I tt
  add_rules-Meets anchor (r ∷ rules) ticket ((name, named), subs) keyed =
      let (p, sent) = subs r (inl refl) in
      bind-Meets (add anchor r ticket) (λ _. add_rules add anchor rules ticket)
        (goes anchor name named ticket (keyed name named) r p sent)
        (λ _. add_rules-Meets anchor rules ticket ((name, named), (λ x m. subs x (inr m))) keyed)

  add_changes-Meets :
      (work : List ((Str × List R) × ℕ))
      → ((anchor : Str) (rules : List R) (ticket : ℕ)
          → Among ((anchor, rules), ticket) work
          → Ready sub anchor rules × Keyed anchor ticket)
      → Meets I (add_changes add work) (λ _. I)
  unfolding add_changes
  add_changes-Meets [] ready = pure-Meets I tt
  add_changes-Meets (((anchor, rules), ticket) ∷ work) ready =
      let (here, keyed) = ready anchor rules ticket (inl refl) in
      bind-Meets (add_rules add anchor rules ticket) (λ _. add_changes add work)
        (add_rules-Meets anchor rules ticket here keyed)
        (λ _. add_changes-Meets work (λ a rs t m. ready a rs t (inr m)))

-- A ticket of an element for the anchor and the kind is the current one, if those of the elements
-- are.
HasTicket-current :
    {R : Type 0} (current : ℤ → List ℕ → ℕ) (kind : RulesetKind) (es : List PfiocTransElem)
    → ((e : PfiocTransElem) → Among e es → current e.rs_num e.anchor ≡ e.ticket)
    → (work : List ((Str × List R) × ℕ)) → All (HasTicket kind es) work
    → (anchor : Str) (rules : List R) (ticket : ℕ) → Among ((anchor, rules), ticket) work
    → (name : List ℕ) → copy_anchor_name anchor (zeros 1024) ≡ ok name
    → current (ruleset_to_i32 kind) name ≡ ticket
HasTicket-current current kind es given [] h anchor rules ticket m name c = absurd m
HasTicket-current current kind es given (w ∷ work) (h, hs) anchor rules ticket (inr m) name c =
    HasTicket-current current kind es given work hs anchor rules ticket m name c
HasTicket-current {R} current kind es given (w ∷ work) (h, hs) anchor rules ticket (inl q) name c =
    let (e, m, (n, a), t) = subst (λ z. HasTicket {R = R} kind es z) (sym q) h in
    let same : e.anchor ≡ name = cc (a, c) in
    ap (λ z. current z name) (sym n) ∙ ap (λ z. current e.rs_num z) (sym same) ∙ given e m ∙ t

Among-zip_by_ref :
    {A : Type 0} (cs : List A) (tickets : List ℕ) (c : A) (t : ℕ)
    → Among (c, t) (zip_by_ref cs tickets).0
    → Among c cs
unfolding zip_by_ref
Among-zip_by_ref [] tickets c t m = m
Among-zip_by_ref (x ∷ cs) [] c t m = absurd m
Among-zip_by_ref (x ∷ cs) (u ∷ tickets) c t (inl e) = inl (ap (λ z. z.0) e)
Among-zip_by_ref (x ∷ cs) (u ∷ tickets) c t (inr m) = inr (Among-zip_by_ref cs tickets c t m)

trans_elements-ok :
    (list : List (Str × RulesetKind))
    → ((anchor : Str) (kind : RulesetKind)
        → Among (anchor, kind) list
        → (name : List ℕ) × (copy_anchor_name anchor (zeros 1024) ≡ ok name))
    → (es : List PfiocTransElem) × (trans_elements list ≡ ok es)
unfolding trans_elements new_trans_element
trans_elements-ok [] names = ([], refl)
trans_elements-ok ((anchor, kind) ∷ list) names =
    let (name, named) = names anchor kind (inl refl) in
    let (es, made) = trans_elements-ok list (λ a k m. names a k (inr m)) in
    (
      record zero_trans_elem { rs_num = ruleset_to_i32 kind; anchor = name } ∷ es,
      rw (named, made) refl,
    )

-- A change is ready if the rules of each kind that it sets are.
abbrev pub FieldReady :
    {R : Type 0} → (R → Result Error.Error Submitted) → Str → Option (List R) → Type 0
FieldReady sub anchor none = Unit {0}
FieldReady sub anchor (some rules) = Ready sub anchor rules

abbrev pub IsReady : {P : Platform} → Transaction P → Type 0
IsReady {P} t =
    (anchor : Str) (change : AnchorChange P)
    → Among (anchor, change) t.change_by_anchor
    → FieldReady filter_submission anchor change.filter_rules
      × FieldReady nat_submission anchor change.nat_rules
      × FieldReady redirect_submission anchor change.redirect_rules
      × FieldReady scrub_submission anchor change.scrub_rules

module _ {P : Platform} (t : Transaction P) (ready : IsReady t) where
  abbrev p : Partition P
  p = partition t.change_by_anchor

  set-Ready :
      {R : Type 0} (field : AnchorChange P → Option (List R))
      (sub : R → Result Error.Error Submitted)
      → ((anchor : Str) (change : AnchorChange P)
          → Among (anchor, change) t.change_by_anchor
          → FieldReady sub anchor (field change))
      → (anchor : Str) (rules : List R)
      → Among (anchor, rules) (changes_of field t.change_by_anchor)
      → Ready sub anchor rules
  set-Ready field sub h anchor rules m =
      let (c, k, f) = changes_of-Among field anchor rules t.change_by_anchor m in
      rw f at (h anchor c k)

  filters-Ready :
      (anchor : Str) (rules : List (FilterRule P))
      → Among (anchor, rules) p.filter_changes
      → Ready filter_submission anchor rules
  filters-Ready = set-Ready (λ c. c.filter_rules) filter_submission (λ a c m. (ready a c m).0)

  nats-Ready :
      (anchor : Str) (rules : List (NatRule P))
      → Among (anchor, rules) p.nat_changes
      → Ready nat_submission anchor rules
  nats-Ready = set-Ready (λ c. c.nat_rules) nat_submission (λ a c m. (ready a c m).1)

  redirects-Ready :
      (anchor : Str) (rules : List (RedirectRule P))
      → Among (anchor, rules) p.redirect_changes
      → Ready redirect_submission anchor rules
  redirects-Ready = set-Ready (λ c. c.redirect_rules) redirect_submission (λ a c m. (ready a c m).2)

  scrubs-Ready :
      (anchor : Str) (rules : List ScrubRule)
      → Among (anchor, rules) p.scrub_changes
      → Ready scrub_submission anchor rules
  scrubs-Ready = set-Ready (λ c. c.scrub_rules) scrub_submission (λ a c m. (ready a c m).3)

  named :
      (kind : RulesetKind) (anchor : Str)
      → Sets p kind anchor
      → (name : List ℕ) × (copy_anchor_name anchor (zeros 1024) ≡ ok name)
  named RulesetKind.filter anchor (rules, m) = (filters-Ready anchor rules m).0
  named RulesetKind.nat anchor (rules, m) = (nats-Ready anchor rules m).0
  named RulesetKind.redirect anchor (rules, m) = (redirects-Ready anchor rules m).0
  named RulesetKind.scrub anchor (rules, m) = (scrubs-Ready anchor rules m).0

  module _ {K : Kernel} (V : Rulesets K) (L : IsTransactional K V) (O : Obliges K V) where
    module _ (current : ℤ → List ℕ → ℕ) (fd : ℕ) (es : List PfiocTransElem)
        (there : AreFor (specs p) es)
        (given : (e : PfiocTransElem) → Among e es → current e.rs_num e.anchor ≡ e.ticket) where
      abbrev I : K.State → Type 0
      I = Tickets P V L O current fd

      abbrev named_current :
          {R : Type 0} (kind : RulesetKind) (work : List ((Str × List R) × ℕ))
          → All (HasTicket kind es) work
          → (anchor : Str) (rules : List R) (ticket : ℕ) → Among ((anchor, rules), ticket) work
          → (name : List ℕ) → copy_anchor_name anchor (zeros 1024) ≡ ok name
          → current (ruleset_to_i32 kind) name ≡ ticket
      named_current kind = HasTicket-current current kind es given

      add_work-Meets : Meets I (add_work P K fd (assign_tickets p (tickets_of es))) (λ _. I)
      unfolding add_work assign_tickets
      add_work-Meets =
          let tickets = tickets_of es in
          let f = zip_by_ref p.filter_changes tickets in
          let n = zip_by_ref p.nat_changes f.1 in
          let r = zip_by_ref p.redirect_changes n.1 in
          let c = zip_by_ref p.scrub_changes r.1 in
          let (hf, hn, hr, hc) = assign_tickets-Assigned p es there in
          let filters =
            add_changes-Meets I current (ruleset_to_i32 RulesetKind.filter) (add_filter_rule P K fd)
              filter_submission
              (λ a name q t k r x sent. add_filter_rule-Meets P V L O current fd a q t r k sent) f.0
              (λ a rules t m. (
                filters-Ready a rules (Among-zip_by_ref p.filter_changes tickets _ t m),
                named_current RulesetKind.filter f.0 hf.1 a rules t m,
              )) in
          let nats =
            add_changes-Meets I current (ruleset_to_i32 RulesetKind.nat) (add_nat_rule P K fd)
              nat_submission
              (λ a name q t k r x sent. add_nat_rule-Meets P V L O current fd a q t r k sent) n.0
              (λ a rules t m. (
                nats-Ready a rules (Among-zip_by_ref p.nat_changes f.1 _ t m),
                named_current RulesetKind.nat n.0 hn.1 a rules t m,
              )) in
          let redirects =
            add_changes-Meets I current (ruleset_to_i32 RulesetKind.redirect)
              (add_redirect_rule P K fd) redirect_submission
              (λ a name q t k r x sent. add_redirect_rule-Meets P V L O current fd a q t r k sent)
              r.0
              (λ a rules t m. (
                redirects-Ready a rules (Among-zip_by_ref p.redirect_changes n.1 _ t m),
                named_current RulesetKind.redirect r.0 hr.1 a rules t m,
              )) in
          let scrubs =
            add_changes-Meets I current (ruleset_to_i32 RulesetKind.scrub) (add_scrub_rule P K fd)
              scrub_submission
              (λ a name q t k r x sent. add_scrub_rule-Meets P V L O current fd a q t r k sent) c.0
              (λ a rules t m. (
                scrubs-Ready a rules (Among-zip_by_ref p.scrub_changes r.1 _ t m),
                named_current RulesetKind.scrub c.0 hc.1 a rules t m,
              )) in
          bind-Meets (add_changes (add_filter_rule P K fd) f.0)
            (λ _.
              add_changes (add_nat_rule P K fd) n.0
              >> (add_changes (add_redirect_rule P K fd) r.0
                  >> add_changes (add_scrub_rule P K fd) c.0))
            filters
            (λ _.
              bind-Meets (add_changes (add_nat_rule P K fd) n.0)
                (λ _.
                  add_changes (add_redirect_rule P K fd) r.0
                  >> add_changes (add_scrub_rule P K fd) c.0)
                nats
                (λ _.
                  bind-Meets (add_changes (add_redirect_rule P K fd) r.0)
                    (λ _. add_changes (add_scrub_rule P K fd) c.0) redirects (λ _. scrubs)))

    commit_with-ok :
        (fd : ℕ) (s : K.State)
        → HasUniqueNames t.change_by_anchor
        → (commit_with P K fd t s).0 ≡ ok tt
    unfolding commit_with setup_trans
    commit_with-ok fd s unique =
        let (es, made) = trans_elements-ok (specs p) (λ a k m. named k a (specs-Sets p k a m)) in
        let asked = trans_elements-AreFor (specs p) es made in
        let arg = setup_trans zero_pfioc_trans es in
        let distinct = elements-HasDistinctKeys t.change_by_anchor es unique asked in
        let (fine, given) = O.begins fd arg s distinct refl in
        let trans = (K.pf_begin_trans fd arg s).0.arg in
        let s1 = (K.pf_begin_trans fd arg s).1 in
        let current = O.ruleset_ticket s1 in
        let there =
          SameElements-AreFor (specs p) es trans.array (L.begin_grants fd arg s fine) asked in
        let adding =
          λ (trans : PfiocTrans). add_work P K fd (assign_tickets p (tickets_of trans.array)) in
        let ending =
          λ (trans : PfiocTrans). ioctl_guard P (K.pf_commit_trans fd) trans >> pure tt in
        let begin = λ (es : List PfiocTransElem).
          ioctl_guard P (K.pf_begin_trans fd) (setup_trans zero_pfioc_trans es) in
        let (u, s2, added, kept) =
          add_work-Meets current fd trans.array there given s1 (λ k b. refl) in
        let accepted = O.commits fd trans s2 (λ e m. kept e.rs_num e.anchor ∙ given e m) in
        let committed =
          ioctl_guard-ok P (K.pf_commit_trans fd) trans s2 (K.pf_commit_trans fd trans s2).1
            accepted refl in
        ap (λ z. z.0)
          (>>=-ok (lift (trans_elements (specs p)))
              (λ es. begin es >>= λ trans. adding trans >> ending trans) s s es
              (ap (λ r. (r, s)) made)
            ∙ >>=-ok (begin es) (λ trans. adding trans >> ending trans) s s1 trans
                (ioctl_guard-ok P (K.pf_begin_trans fd) arg s s1 fine refl)
            ∙ >>=-ok (adding trans) (λ _. ending trans) s1 s2 u added
            ∙ >>=-ok (ioctl_guard P (K.pf_commit_trans fd) trans) (λ _. pure tt) s2 _ _ committed)

    pub commit-Succeeds :
        HasUniqueNames t.change_by_anchor → (s : K.State) → (commit P K t s).0 ≡ ok tt
    unfolding commit open_pf
    commit-Succeeds unique s =
        let (fd, e) = O.opens s in
        let s1 = (K.open_pf s).1 in
        let run : ℕ → Action K.State (Unit {0}) =
          λ fd s. ((commit_with P K fd t s).0, K.close_pf fd (commit_with P K fd t s).1) in
        ap (λ z. z.0) (>>=-ok (open_pf P K) run s s1 fd (ap (λ r. (open_result r, s1)) e))
        ∙ commit_with-ok fd s1 unique
