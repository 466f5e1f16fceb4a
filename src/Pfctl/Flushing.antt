-- ===== src/Pfctl/Flushing.antt =====
-- `set_rules` and `flush_rules`, which commit a transaction of one change.
use pfctl_rs.Common.{ℕ, ◌≡◌, ◌≢◌, refl, ap, ◌∙◌, inl, some, List, [], map, arith}
use pfctl_rs.Error.{Error, Result, ok}
use pfctl_rs.Cstr.{Str, zeros}
use pfctl_rs.Platform.{Platform}
use pfctl_rs.Kernel.{Kernel}
use pfctl_rs.Anchor.{RulesetKind, ruleset_to_i32}
use pfctl_rs.Utils.{copy_anchor_name}
use pfctl_rs.Transaction.{AnchorChange, new_transaction, insert, add_change}
use pfctl_rs.Transaction.Rulesets.{Submitted, Rulesets, IsTransactional}
use pfctl_rs.Transaction.Submission.{
  filter_submission, nat_submission, redirect_submission, scrub_submission, all_submitted,
}
use pfctl_rs.Transaction.Run.{Published}
use pfctl_rs.Transaction.Atomic.{commit-Published}
use pfctl_rs.Pfctl.{PfCtl, set_rules, flush_rules, flush_change}

module _ (P : Platform) {K : Kernel} (V : Rulesets K) (L : IsTransactional K V) (self : PfCtl)
    (s : K.State) (anchor : Str) (b : List ℕ)
    (named : copy_anchor_name anchor (zeros 1024) ≡ ok b) where
  -- `set_rules` that succeeds makes the active rulesets of the anchor those of the change, kind by
  -- kind: exactly the rules that the change sets, each as its encoding with its pool and with the
  -- encoded address of that pool, if it has one, and for a kind that it does not set the ruleset
  -- from before.
  pub set_rules-Published :
      (change : AnchorChange P)
      → (set_rules P K self anchor change s).0 ≡ ok tt
      → let s' = (set_rules P K self anchor change s).1 in
        Published P V L RulesetKind.filter filter_submission change.filter_rules b s s'
        × Published P V L RulesetKind.nat nat_submission change.nat_rules b s s'
        × Published P V L RulesetKind.redirect redirect_submission change.redirect_rules b s s'
        × Published P V L RulesetKind.scrub scrub_submission change.scrub_rules b s s'
  unfolding set_rules add_change insert
  set_rules-Published change h =
      commit-Published P V L (add_change anchor change (new_transaction P)) s anchor change b
        (tt, tt) (inl refl) named h

  no_rules :
      {R : Type 0} (kind : RulesetKind) (sub : R → Result Error Submitted) (s' : K.State)
      → Published P V L kind sub (some []) b s s'
      → V.active s' (ruleset_to_i32 kind) b ≡ []
  unfolding all_submitted
  no_rules kind sub s' (ps, e, q) =
      let nothing : ps ≡ [] = ground arith in q ∙ ap (map V.image) nothing

  by_kind :
      (s' : K.State) (kind other : RulesetKind)
      → other ≢ kind
      → let change = flush_change P K kind in
        (Published P V L RulesetKind.filter filter_submission change.filter_rules b s s'
          × Published P V L RulesetKind.nat nat_submission change.nat_rules b s s'
          × Published P V L RulesetKind.redirect redirect_submission change.redirect_rules b s s'
          × Published P V L RulesetKind.scrub scrub_submission change.scrub_rules b s s')
        → (V.active s' (ruleset_to_i32 kind) b ≡ [])
          × (V.active s' (ruleset_to_i32 other) b ≡ V.active s (ruleset_to_i32 other) b)
  by_kind s' RulesetKind.filter RulesetKind.filter d h = absurd (d refl)
  by_kind s' RulesetKind.filter RulesetKind.nat d (f, n, r, c) =
      (no_rules RulesetKind.filter filter_submission s' f, n)
  by_kind s' RulesetKind.filter RulesetKind.redirect d (f, n, r, c) =
      (no_rules RulesetKind.filter filter_submission s' f, r)
  by_kind s' RulesetKind.filter RulesetKind.scrub d (f, n, r, c) =
      (no_rules RulesetKind.filter filter_submission s' f, c)
  by_kind s' RulesetKind.nat RulesetKind.filter d (f, n, r, c) =
      (no_rules RulesetKind.nat nat_submission s' n, f)
  by_kind s' RulesetKind.nat RulesetKind.nat d h = absurd (d refl)
  by_kind s' RulesetKind.nat RulesetKind.redirect d (f, n, r, c) =
      (no_rules RulesetKind.nat nat_submission s' n, r)
  by_kind s' RulesetKind.nat RulesetKind.scrub d (f, n, r, c) =
      (no_rules RulesetKind.nat nat_submission s' n, c)
  by_kind s' RulesetKind.redirect RulesetKind.filter d (f, n, r, c) =
      (no_rules RulesetKind.redirect redirect_submission s' r, f)
  by_kind s' RulesetKind.redirect RulesetKind.nat d (f, n, r, c) =
      (no_rules RulesetKind.redirect redirect_submission s' r, n)
  by_kind s' RulesetKind.redirect RulesetKind.redirect d h = absurd (d refl)
  by_kind s' RulesetKind.redirect RulesetKind.scrub d (f, n, r, c) =
      (no_rules RulesetKind.redirect redirect_submission s' r, c)
  by_kind s' RulesetKind.scrub RulesetKind.filter d (f, n, r, c) =
      (no_rules RulesetKind.scrub scrub_submission s' c, f)
  by_kind s' RulesetKind.scrub RulesetKind.nat d (f, n, r, c) =
      (no_rules RulesetKind.scrub scrub_submission s' c, n)
  by_kind s' RulesetKind.scrub RulesetKind.redirect d (f, n, r, c) =
      (no_rules RulesetKind.scrub scrub_submission s' c, r)
  by_kind s' RulesetKind.scrub RulesetKind.scrub d h = absurd (d refl)

  -- `flush_rules` that succeeds leaves no active rule of its kind at the anchor, and the rulesets of
  -- the other kinds as they were.
  pub flush_rules-empty :
      (kind other : RulesetKind)
      → other ≢ kind
      → (flush_rules P K self anchor kind s).0 ≡ ok tt
      → (V.active (flush_rules P K self anchor kind s).1 (ruleset_to_i32 kind) b ≡ [])
        × (V.active (flush_rules P K self anchor kind s).1 (ruleset_to_i32 other) b
            ≡ V.active s (ruleset_to_i32 other) b)
  unfolding flush_rules add_change insert
  flush_rules-empty kind other d h = by_kind (flush_rules P K self anchor kind s).1 kind other d (
      commit-Published P V L (add_change anchor (flush_change P K kind) (new_transaction P)) s
        anchor (flush_change P K kind) b (tt, tt) (inl refl) named h)
