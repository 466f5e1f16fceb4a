-- ===== src/Programs/Transaction/Published.antt =====
-- What examples/transaction.rs leaves.
use mathlib.Core.Path.{subst}
use pfctl_rs.Common.{ℕ, ◌≡◌, sym, ap, ◌∙◌, some, List, [], ◌∷◌}
use pfctl_rs.Common.Int.{ℤ}
use pfctl_rs.Error.{ok}
use pfctl_rs.Cstr.{zeros}
use pfctl_rs.Platform.{Platform}
use pfctl_rs.Net.{IpAddr}
use pfctl_rs.Kernel.{Kernel, lift, ◌>>=◌, ◌>>◌}
use pfctl_rs.Kernel.Laws.{>>=-eq-ok}
use pfctl_rs.Anchor.{AnchorKind, RulesetKind, ruleset_to_i32}
use pfctl_rs.Utils.{copy_anchor_name}
use pfctl_rs.Rule.Port
use pfctl_rs.Rule.Endpoint
use pfctl_rs.Rule.Endpoint.{Endpoint}
use pfctl_rs.Rule.Filter.{FilterRule}
use pfctl_rs.Rule.Redirect.{RedirectRule}
use pfctl_rs.Rule.Scrub.{ScrubRule}
use pfctl_rs.Rule.Builders.{Builders, BuildsRules, any_endpoint}
use pfctl_rs.Transaction.Rulesets.{Rulesets, IsTransactional}
use pfctl_rs.Transaction.Submission.{filter_submission, redirect_submission, scrub_submission}
use pfctl_rs.Transaction.Run.{Published}
use pfctl_rs.Pfctl.{PfCtl, new, try_add_anchor, set_rules}
use pfctl_rs.Pfctl.Flushing.{set_rules-Published}
use pfctl_rs.Programs.Main.{new-Keeps, expect, expect-eq-ok, with_pf-eq-ok}
use pfctl_rs.Programs.TestAnchor.{anchor_name}
use pfctl_rs.Programs.TransRules.{
  first_ip, second_ip, trans_rule1, trans_rule2, trans_rule3, trans_rule4, trans_change,
}
use pfctl_rs.Programs.Transaction.{set_them, body, main}
use pfctl_rs.Programs.TestAnchor.Kept.{InsertsElsewhere, add-Adding}
use pfctl_rs.Programs.TransRules.Built.{
  drops, redirects, scrubs, rule1-eq, rule2-eq, rule3-eq, rule4-eq,
}

module _ (P : Platform) (B : Builders P) (R : BuildsRules P B) where
  module _ {K : Kernel} (V : Rulesets K) (L : IsTransactional K V) (I : InsertsElsewhere V)
      (b : List ℕ) (named : copy_anchor_name anchor_name (zeros 1024) ≡ ok b) where
    -- The four rulesets of the anchor, from a state to a state, when these rules are set.
    abbrev Sets :
        FilterRule P → FilterRule P → RedirectRule P → ScrubRule → K.State → K.State → Type 0
    Sets r1 r2 r3 r4 s t =
        Published P V L RulesetKind.filter filter_submission (some (r1 ∷ r2 ∷ [])) b s t
        × (V.active t (ruleset_to_i32 RulesetKind.nat) b
            ≡ V.active s (ruleset_to_i32 RulesetKind.nat) b)
        × Published P V L RulesetKind.redirect redirect_submission (some (r3 ∷ [])) b s t
        × Published P V L RulesetKind.scrub scrub_submission (some (r4 ∷ [])) b s t

    Sets-as :
        {r1 r1' r2 r2' : FilterRule P} {r3 r3' : RedirectRule P} {r4 r4' : ScrubRule}
        {s t t' : K.State}
        → r1 ≡ r1'
        → r2 ≡ r2'
        → r3 ≡ r3'
        → r4 ≡ r4'
        → t' ≡ t
        → Sets r1 r2 r3 r4 s t
        → Sets r1' r2' r3' r4' s t'
    Sets-as {r1} {r1'} {r2} {r2'} {r3} {r3'} {r4} {r4'} {s} {t} {t'} e1 e2 e3 e4 e h =
        let a = subst (λ r. Sets r r2 r3 r4 s t) e1 h in
        let b = subst (λ r. Sets r1' r r3 r4 s t) e2 a in
        let c = subst (λ r. Sets r1' r2' r r4 s t) e3 b in
        let d = subst (λ r. Sets r1' r2' r3' r s t) e4 c in
        subst (λ z. Sets r1' r2' r3' r4' s z) (sym e) d

    -- The program's rules are set, with the two addresses that it drops packets from.
    abbrev pub SetsThem : K.State → K.State → Type 0
    SetsThem s t =
        (e : Endpoint P) × (e' : Endpoint P) × (Endpoint.from_addr P (IpAddr.v4 first_ip) ≡ ok e)
        × (Endpoint.from_addr P (IpAddr.v4 second_ip) ≡ ok e')
        × Sets (drops e (any_endpoint P)) (drops e' (Endpoint.from_port P (Port.from_u16 80)))
            (redirects P (Port.from_u16 1337) (Port.from_u16 1338)) scrubs s t

    set_them-SetsThem :
        (pf : PfCtl) (s : K.State)
        → (set_them P B K pf s).0 ≡ ok tt
        → SetsThem s (set_them P B K pf s).1
    unfolding set_them
    set_them-SetsThem pf s h =
        let set = λ (r1 r2 : FilterRule P) (r3 : RedirectRule P) (r4 : ScrubRule).
          expect (set_rules P K pf anchor_name (trans_change P B r1 r2 r3 r4)) in
        let last =
          λ (r1 r2 : FilterRule P) (r3 : RedirectRule P). lift (trans_rule4 P B) >>= set r1 r2 r3 in
        let third = λ (r1 r2 : FilterRule P). lift (trans_rule3 P B) >>= last r1 r2 in
        let second = λ (r1 : FilterRule P). lift (trans_rule2 P B) >>= third r1 in
        let (r1, q1, h1, same1) = >>=-eq-ok (lift (trans_rule1 P B)) second s h in
        let (r2, q2, h2, same2) = >>=-eq-ok (lift (trans_rule2 P B)) (third r1) s h1 in
        let (r3, q3, h3, same3) = >>=-eq-ok (lift (trans_rule3 P B)) (last r1 r2) s h2 in
        let (r4, q4, h4, same4) = >>=-eq-ok (lift (trans_rule4 P B)) (set r1 r2 r3) s h3 in
        let (e, from, eq1) = rule1-eq P B R r1 q1 in
        let (e', from', eq2) = rule2-eq P B R r2 q2 in
        let change = trans_change P B r1 r2 r3 r4 in
        let done = expect-eq-ok (set_rules P K pf anchor_name change) s h4 in
        let ends = ap (λ z. z.1) (same1 ∙ same2 ∙ same3 ∙ same4) in
        let sets : Sets r1 r2 r3 r4 s (set_rules P K pf anchor_name change s).1 =
          set_rules-Published P V L pf s anchor_name b named change done in
        (
          e,
          e',
          from,
          from',
          Sets-as eq1 eq2 (rule3-eq P B R r3 q3) (rule4-eq P B R r4 q4) ends sets,
        )

    SetsThem-as :
        {s s' t t' : K.State}
        → ((k : ℤ) → V.active s k b ≡ V.active s' k b)
        → ((k : ℤ) → V.active t' k b ≡ V.active t k b)
        → SetsThem s t
        → SetsThem s' t'
    SetsThem-as before after (e, e', from, from', ((ps, p, f), n, (qs, q, r), (us, u, c))) = (
      e,
      e',
      from,
      from',
      ((ps, p, after _ ∙ f), after _ ∙ n ∙ before _, (qs, q, after _ ∙ r), (us, u, after _ ∙ c)),
    )

    body-SetsThem :
        (pf : PfCtl) (s : K.State) → (body P B K pf s).0 ≡ ok tt → SetsThem s (body P B K pf s).1
    unfolding body
    body-SetsThem pf s h =
        let add = λ (kind : AnchorKind). expect (try_add_anchor P K pf anchor_name kind) in
        let rest = set_them P B K pf in
        let f =
          add-Adding P V I b named pf AnchorKind.filter
            (add AnchorKind.redirect >> (add AnchorKind.scrub >> rest)) s h in
        let r =
          add-Adding P V I b named pf AnchorKind.redirect (add AnchorKind.scrub >> rest) f.middle
            f.succeeds in
        let c = add-Adding P V I b named pf AnchorKind.scrub rest r.middle r.succeeds in
        SetsThem-as (λ k. c.still k ∙ r.still k ∙ f.still k)
          (λ k. ap (λ z. V.active z k b) (f.ends ∙ r.ends ∙ c.ends))
          (set_them-SetsThem pf c.middle c.succeeds)

    -- The program that sets rules in a transaction, if it ends without a panic, on a kernel with the
    -- documented transactions, and in which inserting a rule changes only the ruleset that the call
    -- names: the active rulesets of its anchor are then exactly the rules of the program, two that
    -- drop packets, one that redirects and one that scrubs, each as its encoding with its pool, and
    -- the NAT rules of the anchor are as before.
    pub transaction_main-Published :
        (s : K.State) → (main P B K s).0 ≡ ok tt → SetsThem s (main P B K s).1
    unfolding main
    transaction_main-Published s h =
        let (pf, opened, ran, ends) = with_pf-eq-ok P K (body P B K) s h in
        let t = (new P K s).1 in
        SetsThem-as (λ k. new-Keeps P K (λ s. V.active s k b) (λ s. L.open_active s k b) s)
          (λ k. ap (λ z. V.active z k b) ends ∙ L.close_active pf.file (body P B K pf t).1 k b)
          (body-SetsThem pf t ran)
