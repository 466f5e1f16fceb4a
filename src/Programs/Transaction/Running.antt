-- ===== src/Programs/Transaction/Running.antt =====
-- When examples/transaction.rs comes to its end.
use mathlib.Core.Path.{subst}
use pfctl_rs.Common.{ℕ, ◌≡◌, refl, ap, ◌∙◌, sym, inl, inr, some, List, arith}
use pfctl_rs.Error
use pfctl_rs.Error.{ErrorKind, Result, ok, err, ignore_error_kind}
use pfctl_rs.Common.Int.{eq_ℤ_iff}
use pfctl_rs.Cstr.{Str, zeros, until_nul, try_copy_chars}
use pfctl_rs.Cstr.Laws.{try_copy_chars-until_nul}
use pfctl_rs.Platform.{Platform, AcceptsPrefixes}
use pfctl_rs.Ffi.{PfiocRule, zero_pfioc_rule}
use pfctl_rs.Kernel.{Kernel, Action, pure, lift, ◌>>◌, Reply, ioctl_error, ioctl_guard}
use pfctl_rs.Kernel.Laws.{>>=-ok}
use pfctl_rs.Kernel.Goes.{Goes, then-Goes, lift-Goes}
use pfctl_rs.Anchor.{AnchorKind, anchor_to_u8}
use pfctl_rs.Utils.{copy_anchor_name, open_pf, open_result}
use pfctl_rs.Rule.Port
use pfctl_rs.Rule.Ip
use pfctl_rs.Rule.Endpoint
use pfctl_rs.Rule.Endpoint.{Endpoint}
use pfctl_rs.Rule.Builders.{Builders, BuildsRules, any_endpoint}
use pfctl_rs.Transaction.Submission.{
  filter_submission, nat_submission, redirect_submission, scrub_submission,
}
use pfctl_rs.Transaction.{new_transaction, add_change, insert}
use pfctl_rs.Transaction.Going.{Obliges}
use pfctl_rs.Transaction.Completing.{FieldReady, IsReady, commit-Succeeds}
use pfctl_rs.Transaction.Rulesets.{Rulesets, IsTransactional}
use pfctl_rs.Pfctl.{PfCtl, new, add_anchor, try_add_anchor, set_rules}
use pfctl_rs.Programs.Main.{expect, run_with, with_pf}
use pfctl_rs.Programs.TestAnchor.{anchor_name}
use pfctl_rs.Programs.TestAnchor.Kept.{InsertsElsewhere}
use pfctl_rs.Programs.TransRules.{
  first_ip, second_ip, trans_rule1, trans_rule2, trans_rule3, trans_rule4, trans_change,
}
use pfctl_rs.Programs.TransRules.Built.{
  drops, redirects, scrubs, drop_rule-eq, drop_to_rule-eq, redirect_rule-eq, scrub_rule-eq,
}
use pfctl_rs.Programs.TransRules.Submitted.{IsOk, drops-IsOk, redirects-IsOk}
use pfctl_rs.Programs.Transaction.{set_them, body, main}
use pfctl_rs.Programs.Transaction.Published.{SetsThem, transaction_main-Published}

-- A kernel that refuses a call of a commit only for a ticket that is not the current one, and that
-- refuses to insert a rule that calls an anchor only because the anchor is there.
pub record ObligesAll (P : Platform) (K : Kernel) (V : Rulesets K) : Type 0 where
  pub obliges : Obliges K V
  pub inserts :
      (fd : ℕ) (a : PfiocRule) (s : K.State) (name : Str)
      → until_nul a.anchor_call ≡ some name
      → (K.pf_insert_rule fd a s).0.ret ≡ ioctl_error
      → (K.pf_insert_rule fd a s).0.errno ≡ P.eexist

-- A guarded call that is refused only with EEXIST, after that error is ignored.
ignored-ok :
    {S A : Type 0} (P : Platform) (call : A → S → Reply A × S) (arg : A) (s : S)
    → ((call arg s).0.ret ≡ ioctl_error → (call arg s).0.errno ≡ P.eexist)
    → ignore_error_kind ((ioctl_guard P call arg >> pure tt) s).0 ErrorKind.state_already_active
      ≡ ok tt
unfolding ignore_error_kind ioctl_guard
ignored-ok P call arg s h = ground (arith, eq_ℤ_iff (call arg s).0.ret ioctl_error)

expect-Goes : {S A : Type 0} (m : Action S A) → Goes m → Goes (expect m)
expect-Goes m h s =
    let (a, s', e) = h s in (a, s', ap (λ (r, z). (pfctl_rs.Programs.Main.expect_ok r, z)) e)

-- A run that gives this value from every state.
always-Goes : {S A : Type 0} (m : Action S A) {a : A} → ((s : S) → (m s).0 ≡ ok a) → Goes m
always-Goes m {a} h s = (a, (m s).1, ap (λ r. (r, (m s).1)) (h s))

transport_IsOk :
    {X Y : Type 0} (f : X → Result Error.Error Y) {x y : X} → x ≡ y → IsOk (f y) → IsOk (f x)
transport_IsOk f e (a, q) = (a, ap f e ∙ q)

module _ (P : Platform) (A : AcceptsPrefixes P) (B : Builders P) (R : BuildsRules P B) where
  rule1 :
      (n : P.Ipv4Network) × (trans_rule1 P B
        ≡ ok (drops (Endpoint.from_ip {P = P} (Ip.net (Ip.v4 n))) (any_endpoint P)))
  unfolding trans_rule1 Endpoint.from_addr Ip.from_addr Ip.from_ipv4
  rule1 =
      let (n, e, q) = A.ipv4_host first_ip in
      (n, rw (e, drop_rule-eq P B R (Endpoint.from_ip {P = P} (Ip.net (Ip.v4 n)))) refl)

  rule2 :
      (n : P.Ipv4Network) × (trans_rule2 P B
        ≡ ok (
            drops
              (Endpoint.from_ip {P = P} (Ip.net (Ip.v4 n)))
              (Endpoint.from_port P (Port.from_u16 80))))
  unfolding trans_rule2 Endpoint.from_addr Ip.from_addr Ip.from_ipv4
  rule2 =
      let (n, e, q) = A.ipv4_host second_ip in
      (
        n,
        rw
            (
              e,
              drop_to_rule-eq P B R (Endpoint.from_ip {P = P} (Ip.net (Ip.v4 n)))
                  (Endpoint.from_port P (Port.from_u16 80)),
            )
            refl,
      )

  rule3 : trans_rule3 P B ≡ ok (redirects P (Port.from_u16 1337) (Port.from_u16 1338))
  unfolding trans_rule3
  rule3 = rw (redirect_rule-eq P B R (Port.from_u16 1337) (Port.from_u16 1338)) refl

  rule4 : trans_rule4 P B ≡ ok scrubs
  unfolding trans_rule4
  rule4 = rw (scrub_rule-eq P B R) refl

  module _ {K : Kernel} (V : Rulesets K) (L : IsTransactional K V) (O : ObligesAll P K V)
      (b : List ℕ) (named : copy_anchor_name anchor_name (zeros 1024) ≡ ok b) where
    reads : until_nul b ≡ some anchor_name
    unfolding copy_anchor_name
    reads =
        let copied : try_copy_chars anchor_name (zeros 1024) ≡ ok b = ground arith in
        (try_copy_chars-until_nul anchor_name (zeros 1024) copied).0

    try_add_anchor-Goes :
        (pf : PfCtl) (kind : AnchorKind) → Goes (try_add_anchor P K pf anchor_name kind)
    unfolding try_add_anchor add_anchor
    try_add_anchor-Goes pf kind =
        let arg = λ (call : List ℕ). record zero_pfioc_rule {
          rule = record zero_pfioc_rule.rule { action = anchor_to_u8 kind };
          anchor_call = call;
        } in
        let rest =
          λ (call : List ℕ). ioctl_guard P (K.pf_insert_rule pf.file) (arg call) >> pure tt in
        always-Goes (try_add_anchor P K pf anchor_name kind) (λ s.
          ap (λ r. ignore_error_kind r.0 ErrorKind.state_already_active)
            (>>=-ok (lift (copy_anchor_name anchor_name zero_pfioc_rule.anchor_call)) rest s s b
              (ap (λ r. (r, s)) named))
          ∙ ignored-ok P (K.pf_insert_rule pf.file) (arg b) s
              (O.inserts pf.file (arg b) s anchor_name reads))

    change-IsReady :
        (n n' : P.Ipv4Network)
        → IsReady (
            add_change anchor_name
              (trans_change P B
                (drops (Endpoint.from_ip {P = P} (Ip.net (Ip.v4 n))) (any_endpoint P))
                (drops
                  (Endpoint.from_ip {P = P} (Ip.net (Ip.v4 n')))
                  (Endpoint.from_port P (Port.from_u16 80)))
                (redirects P (Port.from_u16 1337) (Port.from_u16 1338))
                scrubs)
              (new_transaction P))
    unfolding add_change insert scrub_submission pfctl_rs.Rule.Scrub.try_copy_to
    change-IsReady n n' anchor change (inl e) =
        subst
          (λ z.
            FieldReady filter_submission z.0 z.1.filter_rules
            × FieldReady nat_submission z.0 z.1.nat_rules
            × FieldReady redirect_submission z.0 z.1.redirect_rules
            × FieldReady scrub_submission z.0 z.1.scrub_rules)
          (sym e)
          (
            (
              (b, named),
              (λ r m. elim m [
                | inl q ↦ transport_IsOk filter_submission q (drops-IsOk P A n Port.any tt)
                | inr m ↦ elim m [
                  | inl q ↦
                      transport_IsOk filter_submission q (drops-IsOk P A n' (Port.from_u16 80) tt)
                  | inr z ↦ absurd z
                ]
              ]),
            ),
            tt,
            (
              (b, named),
              (λ r m. elim m [
                | inl q ↦ transport_IsOk redirect_submission q (redirects-IsOk P A 1337 1338)
                | inr z ↦ absurd z
              ]),
            ),
            (
              (b, named),
              (λ r m. elim m [
                | inl q ↦ transport_IsOk scrub_submission q (_, refl)
                | inr z ↦ absurd z
              ]),
            ),
          )
    change-IsReady n n' anchor change (inr z) = absurd z

    set_them-Goes : (pf : PfCtl) → Goes (set_them P B K pf)
    unfolding set_them set_rules add_change insert
    set_them-Goes pf =
        let (n, q1) = rule1 in
        let (n', q2) = rule2 in
        lift-Goes (trans_rule1 P B) _ q1 (
          lift-Goes (trans_rule2 P B) _ q2 (
            lift-Goes (trans_rule3 P B) _ rule3 (
              lift-Goes (trans_rule4 P B) _ rule4 (
                expect-Goes (set_rules P K pf anchor_name _) (
                  always-Goes (set_rules P K pf anchor_name _)
                    (commit-Succeeds _ (change-IsReady n n') V L O.obliges (tt, tt)))))))

    body-Goes : (pf : PfCtl) → Goes (body P B K pf)
    unfolding body
    body-Goes pf =
        let add = λ (kind : AnchorKind).
          expect-Goes (try_add_anchor P K pf anchor_name kind) (try_add_anchor-Goes pf kind) in
        then-Goes _ _ (add AnchorKind.filter) (
          then-Goes _ _ (add AnchorKind.redirect)
            (then-Goes _ _ (add AnchorKind.scrub) (set_them-Goes pf)))

    new-Goes : Goes (new P K)
    unfolding new open_pf
    new-Goes s =
        let (fd, e) = O.obliges.opens s in
        (
          record { file = fd },
          (K.open_pf s).1,
          >>=-ok (open_pf P K) (λ file. pure (record { file = file })) s (K.open_pf s).1 fd
              (ap (λ r. (open_result r, (K.open_pf s).1)) e),
        )

    -- From every state, on a kernel that refuses a call only for a ticket that is not the current
    -- one, or for an anchor that is there already, the program that sets rules in a transaction
    -- comes to its end without a panic.
    pub main-Succeeds : (s : K.State) → (main P B K s).0 ≡ ok tt
    unfolding main with_pf
    main-Succeeds s =
        let (pf, s', e) = new-Goes s in
        let (u, s'', q) = body-Goes pf s' in
        ap (λ (r, z). (run_with K (body P B K) r z).0) e ∙ ap (λ z. z.0) q

  -- The program that sets rules in a transaction, from every state, on a kernel with the documented
  -- transactions that refuses a call only for a ticket that is not the current one, or for an anchor
  -- that is there already, and in which inserting a rule changes only the ruleset that the call
  -- names, comes to its end without a panic: the active rulesets of its anchor are then exactly the
  -- rules of the program, two that drop packets, one that redirects and one that scrubs, each as its
  -- encoding with its pool and with the encoded address of that pool, if it has one, and the NAT
  -- rules of the anchor are as before.
  pub transaction_main-Ends :
      {K : Kernel} (V : Rulesets K) (L : IsTransactional K V) (I : InsertsElsewhere V)
      (O : ObligesAll P K V) (b : List ℕ) (named : copy_anchor_name anchor_name (zeros 1024) ≡ ok b)
      (s : K.State)
      → ((main P B K s).0 ≡ ok tt) × SetsThem P B R V L I b named s (main P B K s).1
  transaction_main-Ends {K} V L I O b named s =
      let ends = main-Succeeds V L O b named s in
      (ends, transaction_main-Published P B R V L I b named s ends)
