-- ===== src/Transaction/Run.antt =====
-- The steps of a commit that succeeds, and what each of them does to the active rulesets.
use pfctl_rs.Common.{
  ℕ, ◌≡◌, sym, ap, ◌∙◌, ◌≢◌, Option, none, some, List, [], ◌∷◌, ◌++◌, map, All, inl, inr,
  Option-cases, arith,
}
use pfctl_rs.Common.Int.{ℤ}
use pfctl_rs.Error.{Error, Result, ok}
use pfctl_rs.Cstr.{Str, zeros}
use pfctl_rs.Platform.{Platform}
use pfctl_rs.Ffi.{PfiocTrans, PfiocTransElem, zero_pfioc_trans}
use pfctl_rs.Kernel.{Kernel, Action, pure, lift, ◌>>=◌, ◌>>◌, ioctl_error, ioctl_guard}
use pfctl_rs.Kernel.Laws.{>>=-eq-ok, ioctl_guard-eq-ok}
use pfctl_rs.Anchor.{RulesetKind, ruleset_to_i32}
use pfctl_rs.Utils.{copy_anchor_name}
use pfctl_rs.Transaction.{
  AnchorChange, Transaction, Partition, partition, specs, changes_of, trans_elements, setup_trans,
  Work, assign_tickets, add_work, commit_with,
}
use pfctl_rs.Transaction.Names.{
  Among, HasUniqueNames, changes_of-Among, Among-changes_of, changes_of-HasUniqueNames,
  HasUniqueNames-same,
}
use pfctl_rs.Transaction.Tickets.{
  AreFor, tickets_of, HasTicket, fst, Assigned, assign_tickets-Assigned,
}
use pfctl_rs.Transaction.Rulesets.{Submitted, Rulesets, IsTransactional, IsKey}
use pfctl_rs.Transaction.Elements.{
  trans_elements-AreFor, SameElements-AreFor, element_of, spec_of, Sets, specs-Sets, Sets-specs,
}
use pfctl_rs.Transaction.Submission.{all_submitted}
use pfctl_rs.Transaction.Rounds.{rules_at, IsNamed}
use pfctl_rs.Transaction.Filling.{
  copy_anchor_name_injective, rules_at-Among, Filled, add_work-Filled, add_work-Keeps,
}

pub ruleset_to_i32_injective : (k k' : RulesetKind) → ruleset_to_i32 k ≡ ruleset_to_i32 k' → k ≡ k'
ruleset_to_i32_injective k k' h = ground arith

HasTicket-IsNamed :
    {R : Type 0} (kind : RulesetKind) (es : List PfiocTransElem) (w : List ((Str × List R) × ℕ))
    → All (HasTicket kind es) w
    → IsNamed w
HasTicket-IsNamed kind es [] h = tt
HasTicket-IsNamed kind es (((anchor, rules), t) ∷ w) ((e, m, f, q), h) =
    ((e.anchor, f.1), HasTicket-IsNamed kind es w h)

-- An element with the key of an anchor and a kind is there because the partition sets rules of that
-- kind for that anchor.
key-Sets :
    {P : Platform} (p : Partition P) (es : List PfiocTransElem) (e : PfiocTransElem)
    (kind : RulesetKind) (anchor : Str) (b : List ℕ)
    → AreFor (specs p) es
    → copy_anchor_name anchor (zeros 1024) ≡ ok b
    → Among e es
    → IsKey e (ruleset_to_i32 kind) b
    → Sets p kind anchor
key-Sets p es e kind anchor b h c m (n, a) =
    let (anchor', kind', spec, (n', c')) = spec_of e (specs p) es h m in
    let kinds : kind' ≡ kind = ruleset_to_i32_injective kind' kind (sym n' ∙ n) in
    let anchors : anchor' ≡ anchor =
      copy_anchor_name_injective anchor' anchor (zeros 1024) (c' ∙ ap ok a) c in
    rw (kinds, anchors) at (specs-Sets p kind' anchor' spec)

module _ (P : Platform) {K : Kernel} (V : Rulesets K) (L : IsTransactional K V) where
  abbrev begin : ℕ → List PfiocTransElem → Action K.State PfiocTrans
  begin fd elements = ioctl_guard P (K.pf_begin_trans fd) (setup_trans zero_pfioc_trans elements)

  abbrev work : Transaction P → PfiocTrans → Work P
  work t trans = assign_tickets (partition t.change_by_anchor) (tickets_of trans.array)

  -- The steps of a commit that succeeds.
  pub record Run (fd : ℕ) (t : Transaction P) (s : K.State) : Type 0 where
    elements : List PfiocTransElem
    elements_ok : trans_elements (specs (partition t.change_by_anchor)) ≡ ok elements
    begun : (K.pf_begin_trans fd (setup_trans zero_pfioc_trans elements) s).0.ret ≢ ioctl_error
    s2 : K.State
    s2_eq : s2 ≡ (K.pf_begin_trans fd (setup_trans zero_pfioc_trans elements) s).1
    pub trans : PfiocTrans
    trans_eq : trans ≡ (K.pf_begin_trans fd (setup_trans zero_pfioc_trans elements) s).0.arg
    added : (add_work P K fd (work t trans) s2).0 ≡ ok tt
    committed :
        (K.pf_commit_trans fd trans (add_work P K fd (work t trans) s2).1).0.ret ≢ ioctl_error
    final :
        (commit_with P K fd t s).1
        ≡ (K.pf_commit_trans fd trans (add_work P K fd (work t trans) s2).1).1

  pub run :
      (fd : ℕ) (t : Transaction P) (s : K.State) → (commit_with P K fd t s).0 ≡ ok tt → Run fd t s
  unfolding commit_with
  run fd t s h =
      let p = partition t.change_by_anchor in
      let adding = λ (trans : PfiocTrans). add_work P K fd (work t trans) in
      let ending = λ (trans : PfiocTrans). ioctl_guard P (K.pf_commit_trans fd) trans in
      let rest = λ (trans : PfiocTrans). adding trans >> (ending trans >> pure tt) in
      let (elements, e1, h1, q1) =
        >>=-eq-ok (lift (trans_elements (specs p))) (λ es. begin fd es >>= rest) s h in
      let (trans, e2, h2, q2) = >>=-eq-ok (begin fd elements) rest s h1 in
      let s2 = (begin fd elements s).1 in
      let (u, e3, h3, q3) = >>=-eq-ok (adding trans) (λ _. ending trans >> pure tt) s2 h2 in
      let s3 = (adding trans s2).1 in
      let (v, e4, h4, q4) = >>=-eq-ok (ending trans) (λ _. pure tt) s3 h3 in
      let (begun, trans_eq, s2_eq) =
        ioctl_guard-eq-ok P (K.pf_begin_trans fd) (setup_trans zero_pfioc_trans elements) s e2 in
      let (committed, arg, final) = ioctl_guard-eq-ok P (K.pf_commit_trans fd) trans s3 e4 in
      record {
        elements = elements;
        elements_ok = e1;
        begun = begun;
        s2 = s2;
        s2_eq = s2_eq;
        trans = trans;
        trans_eq = trans_eq;
        added = e3;
        committed = committed;
        final = ap (λ r. r.1) (q1 ∙ q2 ∙ q3 ∙ q4) ∙ final;
      }

  -- After a commit, the ruleset of a kind at a name is the rules that were set for it, each as it is
  -- submitted, and nothing else; with no rules set it is what it was.
  abbrev pub Published :
      {R : Type 0}
      → RulesetKind
      → (R → Result Error Submitted)
      → Option (List R)
      → List ℕ
      → K.State
      → K.State
      → Type 0
  Published kind sub none b s s' =
      V.active s' (ruleset_to_i32 kind) b ≡ V.active s (ruleset_to_i32 kind) b
  Published kind sub (some rules) b s s' =
      (ps : List Submitted) × (all_submitted sub rules ≡ ok ps)
      × (V.active s' (ruleset_to_i32 kind) b ≡ map V.image ps)

  module _ (fd : ℕ) (t : Transaction P) (s : K.State) (r : Run fd t s) where
    abbrev p : Partition P
    p = partition t.change_by_anchor

    abbrev s' : K.State
    s' = (commit_with P K fd t s).1

    abbrev w : Work P
    w = work t r.trans

    asked : AreFor (specs p) r.elements
    asked = trans_elements-AreFor (specs p) r.elements r.elements_ok

    pub granted : AreFor (specs p) r.trans.array
    unfolding setup_trans
    granted =
        SameElements-AreFor (specs p) r.elements r.trans.array
          (rw r.trans_eq (L.begin_grants fd (setup_trans zero_pfioc_trans r.elements) s r.begun))
          asked

    pub assigned :
        Assigned RulesetKind.filter r.trans.array p.filter_changes w.filter_work
        × Assigned RulesetKind.nat r.trans.array p.nat_changes w.nat_work
        × Assigned RulesetKind.redirect r.trans.array p.redirect_changes w.redirect_work
        × Assigned RulesetKind.scrub r.trans.array p.scrub_changes w.scrub_work
    assigned = assign_tickets-Assigned p r.trans.array granted

    pub filled : (b : List ℕ) → Filled P V L w b r.s2 (add_work P K fd w r.s2).1
    filled b =
        let (f, n, d, c) = assigned in
        add_work-Filled P V L fd w b r.s2
          (HasTicket-IsNamed RulesetKind.filter r.trans.array w.filter_work f.1)
          (HasTicket-IsNamed RulesetKind.nat r.trans.array w.nat_work n.1)
          (HasTicket-IsNamed RulesetKind.redirect r.trans.array w.redirect_work d.1)
          (HasTicket-IsNamed RulesetKind.scrub r.trans.array w.scrub_work c.1) r.added

    pub untouched :
        (k : ℤ) (b : List ℕ)
        → ((e : PfiocTransElem) → Among e r.trans.array → ¬ IsKey e k b)
        → V.active s' k b ≡ V.active s k b
    untouched k b others =
        ap (λ z. V.active z k b) r.final
        ∙ L.commit_others fd r.trans (add_work P K fd w r.s2).1 k b others
        ∙ add_work-Keeps P V L k b fd w r.s2
        ∙ ap (λ z. V.active z k b) r.s2_eq
        ∙ L.begin_active fd (setup_trans zero_pfioc_trans r.elements) s k b

    -- The ruleset of a kind and an anchor that the transaction sets.
    touched :
        (kind : RulesetKind) (anchor : Str) (b : List ℕ) (l : List V.Entry)
        → copy_anchor_name anchor (zeros 1024) ≡ ok b
        → Sets p kind anchor
        → V.staged (add_work P K fd w r.s2).1 (ruleset_to_i32 kind) b
          ≡ V.staged r.s2 (ruleset_to_i32 kind) b ++ l
        → V.active s' (ruleset_to_i32 kind) b ≡ l
    unfolding setup_trans
    touched kind anchor b l c sets g =
        let k = ruleset_to_i32 kind in
        let spec = Sets-specs p kind anchor sets in
        let (e, m, (n, a)) = element_of anchor kind (specs p) r.trans.array granted spec in
        let (e', m', (n', a')) = element_of anchor kind (specs p) r.elements asked spec in
        let name : e.anchor ≡ b = cc (a, c) in
        let name' : e'.anchor ≡ b = cc (a', c) in
        let cleared : V.staged r.s2 k b ≡ [] =
          ap (λ z. V.staged z k b) r.s2_eq
          ∙ L.begin_clears fd (setup_trans zero_pfioc_trans r.elements) s k b r.begun e' m'
              (n', name') in
        ap (λ z. V.active z k b) r.final
        ∙ L.commit_swaps fd r.trans (add_work P K fd w r.s2).1 k b r.committed e m (n, name)
        ∙ g
        ∙ ap (λ z. z ++ l) cleared

    -- One kind of rules, with what the loops have staged of it.
    pub published :
        {R : Type 0} (kind : RulesetKind) (sub : R → Result Error Submitted)
        (field : AnchorChange P → Option (List R)) (ws : List ((Str × List R) × ℕ))
        (ps : List Submitted) (anchor : Str) (change : AnchorChange P) (b : List ℕ)
        → HasUniqueNames t.change_by_anchor
        → Among (anchor, change) t.change_by_anchor
        → copy_anchor_name anchor (zeros 1024) ≡ ok b
        → (map fst ws ≡ changes_of field t.change_by_anchor)
        → ((rules : List R)
            → Among (anchor, rules) (changes_of field t.change_by_anchor)
            → Sets p kind anchor)
        → (Sets p kind anchor
            → (rules : List R) × Among (anchor, rules) (changes_of field t.change_by_anchor))
        → all_submitted sub (rules_at b (map fst ws)) ≡ ok ps
        → V.staged (add_work P K fd w r.s2).1 (ruleset_to_i32 kind) b
          ≡ V.staged r.s2 (ruleset_to_i32 kind) b ++ map V.image ps
        → Published kind sub (field change) b s s'
    published kind sub field ws ps anchor change b unique m c all up down sent g =
        elim (Option-cases (field change)) [
          | inl nothing ↦ rw nothing (
              untouched (ruleset_to_i32 kind) b (λ e m' key.
                let (rules, k) = down (key-Sets p r.trans.array e kind anchor b granted c m' key) in
                let (x, k', f) = changes_of-Among field anchor rules t.change_by_anchor k in
                let same = HasUniqueNames-same anchor change x t.change_by_anchor unique m k' in
                cc (nothing, same, f)))
          | inr (rules, set) ↦
              (let k = Among-changes_of field anchor rules change t.change_by_anchor m set in
                let mine =
                  rules_at-Among anchor b rules (changes_of field t.change_by_anchor) c
                    (changes_of-HasUniqueNames field t.change_by_anchor unique) k in
                rw set (
                  ps,
                  ap (all_submitted sub) (sym mine ∙ ap (rules_at b) (sym all)) ∙ sent,
                  touched kind anchor b (map V.image ps) c (up rules k) g,
                ))
        ]
