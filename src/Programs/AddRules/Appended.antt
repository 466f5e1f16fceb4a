-- ===== src/Programs/AddRules/Appended.antt =====
-- What examples/add_rules.rs leaves.
use mathlib.Core.List.{append-nil, append_assoc}
use mathlib.Core.Path.{subst}
use pfctl_rs.Common.{
  ℕ, ◌≡◌, refl, sym, ap, ◌∙◌, inl, inr, true, Bool-cases, some, List, [], ◌∷◌, ◌++◌, map,
  if◌then◌else◌, bytes_eq, bytes_eq_iff, arith,
}
use pfctl_rs.Common.Int.{ℤ, eq_ℤ}
use pfctl_rs.Error.{ok}
use pfctl_rs.Cstr.{zeros}
use pfctl_rs.Platform.{Platform}
use pfctl_rs.Kernel.{Kernel, Action, pure, lift, ◌>>=◌, ◌>>◌}
use pfctl_rs.Kernel.Laws.{>>=-eq-ok}
use pfctl_rs.Anchor.{AnchorKind, RulesetKind, ruleset_to_i32}
use pfctl_rs.Utils.{copy_anchor_name}
use pfctl_rs.Rule.Ip
use pfctl_rs.Rule.Builders.{Builders, BuildsRules}
use pfctl_rs.Transaction.Rulesets.{Submitted, Rulesets, IsTransactional}
use pfctl_rs.Transaction.Submission.{all_submitted}
use pfctl_rs.Pfctl.{PfCtl, new, try_add_anchor}
use pfctl_rs.Pfctl.Appending.{
  IsChangeable, AnyRule, filter, redirect, scrub, kind_of, submission, add_any, add_any-AppendsOne,
}
use pfctl_rs.Programs.Main.{new-Keeps, expect, expect-eq-ok, with_pf-eq-ok}
use pfctl_rs.Programs.TestAnchor.{anchor_name}
use pfctl_rs.Programs.TestAnchor.Kept.{InsertsElsewhere, add-Adding}
use pfctl_rs.Programs.SingleRules.{Rules, rules, private_ip, localhost}
use pfctl_rs.Programs.SingleRules.Built.{built, rules-built}
use pfctl_rs.Programs.AddRules.{add_them, body, main}

-- The rules of a list that are of a kind.
abbrev pub of_kind : {P : Platform} → RulesetKind → List (AnyRule P) → List (AnyRule P)
of_kind kind [] = []
of_kind kind (r ∷ rs) =
    if eq_ℤ (ruleset_to_i32 kind) (ruleset_to_i32 (kind_of r))
    then r ∷ of_kind kind rs
    else of_kind kind rs

-- The rules in the order in which they are added.
abbrev pub in_order : {P : Platform} → Rules P → List (AnyRule P)
in_order r =
    filter r.pass_all
    ∷ filter r.pass_all_ipv4_quick
    ∷ filter r.pass_all_ipv6_on_utun0
    ∷ filter r.block_a_private_net
    ∷ filter r.pass_all_icmp_echo_req
    ∷ filter r.pass_all_icmp_port_unreach
    ∷ filter r.pass_all_icmp_timex_transit
    ∷ filter r.pass_all_icmp_timex_reassembly
    ∷ redirect r.redirect_incoming_tcp
    ∷ scrub r.scrub
    ∷ []

module _ (P : Platform) {K : Kernel} (V : Rulesets K) (L : IsTransactional K V)
    (C : IsChangeable K V) (b : List ℕ)
    (named : copy_anchor_name anchor_name (zeros 1024) ≡ ok b) where
  -- Each active ruleset of the anchor is longer by the rules of its kind, in order.
  abbrev pub Grows : List (AnyRule P) → K.State → K.State → Type 0
  Grows rs s t =
      (kind : RulesetKind)
      → (ps : List Submitted) × (all_submitted submission (of_kind kind rs) ≡ ok ps)
        × (V.active t (ruleset_to_i32 kind) b
            ≡ V.active s (ruleset_to_i32 kind) b ++ map V.image ps)

  unfoldable add_each : PfCtl → List (AnyRule P) → Action K.State (Unit {0})
  add_each pf [] = pure tt
  add_each pf (r ∷ rs) = expect (add_any P K pf anchor_name r) >> add_each pf rs

  add_each-Grows :
      (pf : PfCtl) (rs : List (AnyRule P)) (s : K.State)
      → (add_each pf rs s).0 ≡ ok tt
      → Grows rs s (add_each pf rs s).1
  unfolding add_each all_submitted
  add_each-Grows pf [] s h kind = ([], refl, sym (append-nil _))
  add_each-Grows pf (r ∷ rs) s h kind =
      let add = add_any P K pf anchor_name r in
      let (x, first, later, same) = >>=-eq-ok (expect add) (λ _. add_each pf rs) s h in
      let (name, p, (called, sent), appended) =
        (add_any-AppendsOne P V L C pf anchor_name r s).1 (expect-eq-ok add s first) in
      let (ps, q, rest) = add_each-Grows pf rs (add s).1 later kind in
      let k = ruleset_to_i32 kind in
      let same_name : bytes_eq b name ≡ true = (bytes_eq_iff b name).1 (ground arith) in
      let there : V.active (add_each pf (r ∷ rs) s).1 k b
          ≡ V.active (add s).1 k b ++ map V.image ps =
        ap (λ z. V.active z.1 k b) same ∙ rest in
      elim (Bool-cases (eq_ℤ k (ruleset_to_i32 (kind_of r)))) [
        | inl mine ↦
            (let here : V.active (add s).1 k b ≡ V.active s k b ++ V.image p ∷ [] =
                appended k b ∙ rw (mine, same_name) refl in
              (
                p ∷ ps,
                rw (mine, sent, q) refl,
                there
                    ∙ ap (λ l. l ++ map V.image ps) here
                    ∙ append_assoc (V.active s k b) (V.image p ∷ []) (map V.image ps),
              ))
        | inr other ↦
            (let here : V.active (add s).1 k b ≡ V.active s k b =
                appended k b ∙ rw other (append-nil _) in
              (ps, rw other q, there ∙ ap (λ l. l ++ map V.image ps) here))
      ]

  add_them-Grows :
      (pf : PfCtl) (r : Rules P) (s : K.State)
      → (add_them P K pf r s).0 ≡ ok tt
      → Grows (in_order r) s (add_them P K pf r s).1
  unfolding add_each add_them
  add_them-Grows pf r s h = add_each-Grows pf (in_order r) s h

  Grows-as :
      (rs : List (AnyRule P)) {s s' t t' : K.State}
      → ((k : ℤ) → V.active s k b ≡ V.active s' k b)
      → ((k : ℤ) → V.active t' k b ≡ V.active t k b)
      → Grows rs s t
      → Grows rs s' t'
  Grows-as rs before after h kind =
      let (ps, q, grown) = h kind in
      (ps, q, after _ ∙ grown ∙ ap (λ l. l ++ map V.image ps) (before _))

  module _ (B : Builders P) (R : BuildsRules P B) (I : InsertsElsewhere V) where
    -- The program's rules are added, with its private network and the address that it redirects to.
    abbrev pub AddsThem : K.State → K.State → Type 0
    AddsThem s t =
        (n : P.Ipv4Network) × (ip : Ip.Ip P) × (P.ipv4_network_new private_ip 8 ≡ some n)
        × (Ip.from_ipv4 P localhost ≡ ok ip)
        × Grows (in_order (built P n ip)) s t

    body-AddsThem :
        (pf : PfCtl) (s : K.State) → (body P B K pf s).0 ≡ ok tt → AddsThem s (body P B K pf s).1
    unfolding body
    body-AddsThem pf s h =
        let add = λ (kind : AnchorKind). expect (try_add_anchor P K pf anchor_name kind) in
        let rest = lift (rules P B) >>= add_them P K pf in
        let f =
          add-Adding P V I b named pf AnchorKind.filter (add AnchorKind.redirect >> rest) s h in
        let r = add-Adding P V I b named pf AnchorKind.redirect rest f.middle f.succeeds in
        let (x, q, h', same) = >>=-eq-ok (lift (rules P B)) (add_them P K pf) r.middle r.succeeds in
        let (n, ip, net, host, are) = rules-built P B R x q in
        let grows : Grows (in_order x) r.middle (add_them P K pf x r.middle).1 =
          add_them-Grows pf x r.middle h' in
        (
          n,
          ip,
          net,
          host,
          Grows-as (in_order (built P n ip)) (λ k. r.still k ∙ f.still k)
              (λ k. ap (λ z. V.active z k b) (f.ends ∙ r.ends ∙ ap (λ z. z.1) same))
              (subst (λ y. Grows (in_order y) r.middle (add_them P K pf x r.middle).1) are grows),
        )

    -- The program that adds rules one by one, if it ends without a panic, on a kernel with the
    -- documented transactions and single additions, in which inserting a rule changes only the
    -- ruleset that the call names: each active ruleset of its anchor is then the one from before
    -- followed by the rules of its kind, in the order in which they are added, each as its encoding,
    -- with its pool and the encoded address of that pool if it redirects.
    pub add_rules_main-Appended :
        (s : K.State) → (main P B K s).0 ≡ ok tt → AddsThem s (main P B K s).1
    unfolding main
    add_rules_main-Appended s h =
        let (pf, opened, ran, ends) = with_pf-eq-ok P K (body P B K) s h in
        let t = (new P K s).1 in
        let (n, ip, net, host, grows) = body-AddsThem pf t ran in
        (
          n,
          ip,
          net,
          host,
          Grows-as (in_order (built P n ip))
              (λ k. new-Keeps P K (λ s. V.active s k b) (λ s. L.open_active s k b) s)
              (λ k. ap (λ z. V.active z k b) ends ∙ L.close_active pf.file (body P B K pf t).1 k b)
              grows,
        )
