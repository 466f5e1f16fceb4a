-- ===== src/Transaction/Adding.antt =====
-- A rule that has been added stands at the end of the inactive ruleset of its kind and anchor.
use pfctl_rs.Common.{
  ℕ, ◌≡◌, refl, ◌∙◌, ap, Option, none, some, List, [], ◌∷◌, ◌++◌, if◌then◌else◌, arith,
}
use pfctl_rs.Common.Int.{ℤ}
use pfctl_rs.Error.{Error, Result, ok}
use pfctl_rs.Cstr.{Str, zeros}
use pfctl_rs.Platform.{Platform}
use pfctl_rs.Ffi.{
  PfRule, PfPooladdr, PfPool, PfPalist, PfiocRule, zero_rule, zero_pfioc_rule, pf_change_none,
}
use pfctl_rs.Kernel.{Kernel, pure, lift, ◌>>=◌}
use pfctl_rs.Kernel.Laws.{lift->>=-same}
use pfctl_rs.Kernel.Keeps.{Keeps}
use pfctl_rs.Anchor.{RulesetKind, ruleset_to_i32}
use pfctl_rs.Rule.Encoded.{filter-action, nat-action, redirect-action, scrub-action}
use pfctl_rs.Rule.PoolAddr.{PoolAddr, PoolAddrList, from_ip, new_list, to_pool_addr_list}
use pfctl_rs.Rule.Port
use pfctl_rs.Rule.Route
use pfctl_rs.Rule.Action.{
  FilterRuleAction, pass, drop, filter_to_u8, NatRuleAction, nat, no_nat, nat_to_u8,
  RedirectRuleAction, redirect, no_redirect, redirect_to_u8, ScrubRuleAction, scrub, no_scrub,
  scrub_to_u8,
}
use pfctl_rs.Rule.Endpoint.{Endpoint, NatEndpoint}
use pfctl_rs.Rule.Filter
use pfctl_rs.Rule.Filter.{FilterRule}
use pfctl_rs.Rule.Nat
use pfctl_rs.Rule.Nat.{NatRule, get_nat_to}
use pfctl_rs.Rule.Redirect
use pfctl_rs.Rule.Redirect.{RedirectRule}
use pfctl_rs.Rule.Scrub
use pfctl_rs.Rule.Scrub.{ScrubRule}
use pfctl_rs.Utils.{copy_anchor_name, add_pool_address}
use pfctl_rs.Transaction.{
  setup_route_pool, setup_endpoint_pool, setup_nat_pool, add_filter_rule, add_nat_rule,
  add_redirect_rule, add_scrub_rule,
}
use pfctl_rs.Transaction.Rulesets.{Submitted, Rulesets, IsTransactional, same_key}
use pfctl_rs.Transaction.Submission.{
  route_list, endpoint_pool, nat_pool, address_of, route_addresses, nat_addresses,
  filter_submission, nat_submission, redirect_submission, scrub_submission,
}
use pfctl_rs.Transaction.Staging.{
  IsQuiet, bind-IsQuiet, lift-IsQuiet, add_pool_address-IsQuiet, Pools, lift-Pools, bind-Pools,
  add_pool_address-Pools, add_shape-Added, add_shape-Keeps,
}

-- What one added rule does to the inactive rulesets.
pub record Staged {K : Kernel} (V : Rulesets K) {R : Type 0} (kind : RulesetKind)
    (submission : R → Result Error Submitted) (anchor : Str) (rule : R) (s s' : K.State)
    : Type 0 where
  pub name : List ℕ
  pub submitted_rule : Submitted
  pub copied : copy_anchor_name anchor (zeros 1024) ≡ ok name
  pub submitted : submission rule ≡ ok submitted_rule
  pub appended :
      (k : ℤ) (b : List ℕ)
      → V.staged s' k b
        ≡ V.staged s k b
          ++ (if same_key k b (ruleset_to_i32 kind) name then V.image submitted_rule ∷ [] else [])

module _ (P : Platform) {K : Kernel} (V : Rulesets K) (L : IsTransactional K V) where
  route_pool-IsQuiet :
      (fd : ℕ) (a : Option (PoolAddr P)) (t : ℕ) (l : PfPalist)
      → IsQuiet P V L (setup_route_pool P K fd a t l)
  unfolding setup_route_pool
  route_pool-IsQuiet fd none t l = lift-IsQuiet P V L (ok l)
  route_pool-IsQuiet fd (some a) t l =
      bind-IsQuiet P V L (add_pool_address P K fd a t)
        (λ r. lift (new_list (a ∷ [])) >>= λ l. pure l.list) (add_pool_address-IsQuiet P V L fd a t)
        (λ r.
          bind-IsQuiet P V L (lift (new_list (a ∷ []))) (λ l. pure l.list)
            (lift-IsQuiet P V L (new_list (a ∷ []))) (λ l. lift-IsQuiet P V L (ok l.list)))

  route_pool-pure :
      (fd : ℕ) (a : Option (PoolAddr P)) (t : ℕ) (l : PfPalist) (s : K.State) (x : PfPalist)
      → (setup_route_pool P K fd a t l s).0 ≡ ok x
      → route_list a l ≡ ok x
  unfolding setup_route_pool route_list
  route_pool-pure fd none t l s x h = h
  route_pool-pure fd (some a) t l s x h = ground arith

  -- A pool that is set up has the addresses of the rule in its buffer.
  route_pool-Pools :
      (fd : ℕ) (a : Option (PoolAddr P)) (t : ℕ) (l : PfPalist)
      → Pools P V L (setup_route_pool P K fd a t l) t (route_addresses a)
  unfolding setup_route_pool route_addresses
  route_pool-Pools fd none t l = lift-Pools P V L (ok l) t
  route_pool-Pools fd (some a) t l =
      bind-Pools P V L (add_pool_address P K fd a t)
        (λ r. lift (new_list (a ∷ [])) >>= λ l. pure l.list) t (add_pool_address-Pools P V L fd a t)
        (λ r s. lift->>=-same (new_list (a ∷ [])) (λ l. ok l.list) s)

  abbrev finish_pool : Endpoint P → PfPool → PoolAddrList → Result Error PfPool
  finish_pool e pool l = Port.try_copy_to_pool e.port (record pool { list = l.list })

  pub endpoint_pool-IsQuiet :
      (fd : ℕ) (e : Endpoint P) (t : ℕ) (pool : PfPool)
      → IsQuiet P V L (setup_endpoint_pool P K fd e t pool)
  unfolding setup_endpoint_pool
  endpoint_pool-IsQuiet fd e t pool =
      bind-IsQuiet P V L (add_pool_address P K fd (from_ip e.ip) t)
        (λ r. lift (to_pool_addr_list e.ip) >>= λ l. lift (finish_pool e pool l))
        (add_pool_address-IsQuiet P V L fd (from_ip e.ip) t)
        (λ r.
          bind-IsQuiet P V L (lift (to_pool_addr_list e.ip)) (λ l. lift (finish_pool e pool l))
            (lift-IsQuiet P V L (to_pool_addr_list e.ip))
            (λ l. lift-IsQuiet P V L (finish_pool e pool l)))

  pub endpoint_pool-pure :
      (fd : ℕ) (e : Endpoint P) (t : ℕ) (pool : PfPool) (s : K.State) (x : PfPool)
      → (setup_endpoint_pool P K fd e t pool s).0 ≡ ok x
      → endpoint_pool e pool ≡ ok x
  unfolding setup_endpoint_pool endpoint_pool
  endpoint_pool-pure fd e t pool s x h = ground arith

  pub endpoint_pool-Pools :
      (fd : ℕ) (e : Endpoint P) (t : ℕ) (pool : PfPool)
      → Pools P V L (setup_endpoint_pool P K fd e t pool) t (address_of (from_ip e.ip))
  unfolding setup_endpoint_pool
  endpoint_pool-Pools fd e t pool =
      bind-Pools P V L (add_pool_address P K fd (from_ip e.ip) t)
        (λ r. lift (to_pool_addr_list e.ip) >>= λ l. lift (finish_pool e pool l)) t
        (add_pool_address-Pools P V L fd (from_ip e.ip) t)
        (λ r s. lift->>=-same (to_pool_addr_list e.ip) (finish_pool e pool) s)

  pub nat_pool-IsQuiet :
      (fd : ℕ) (n : Option (NatEndpoint P)) (t : ℕ) (pool : PfPool)
      → IsQuiet P V L (setup_nat_pool P K fd n t pool)
  unfolding setup_nat_pool
  nat_pool-IsQuiet fd none t pool = lift-IsQuiet P V L (ok pool)
  nat_pool-IsQuiet fd (some n) t pool = endpoint_pool-IsQuiet fd n.endpoint t pool

  pub nat_pool-pure :
      (fd : ℕ) (n : Option (NatEndpoint P)) (t : ℕ) (pool : PfPool) (s : K.State) (x : PfPool)
      → (setup_nat_pool P K fd n t pool s).0 ≡ ok x
      → nat_pool n pool ≡ ok x
  unfolding setup_nat_pool nat_pool
  nat_pool-pure fd none t pool s x h = h
  nat_pool-pure fd (some n) t pool s x h = endpoint_pool-pure fd n.endpoint t pool s x h

  pub nat_pool-Pools :
      (fd : ℕ) (n : Option (NatEndpoint P)) (t : ℕ) (pool : PfPool)
      → Pools P V L (setup_nat_pool P K fd n t pool) t (nat_addresses n)
  unfolding setup_nat_pool nat_addresses
  nat_pool-Pools fd none t pool = lift-Pools P V L (ok pool) t
  nat_pool-Pools fd (some n) t pool = endpoint_pool-Pools fd n.endpoint t pool

  pub filter_ruleset :
      (a : FilterRuleAction) → V.ruleset_of (filter_to_u8 a) ≡ ruleset_to_i32 RulesetKind.filter
  filter_ruleset pass = L.pass_ruleset
  filter_ruleset (drop d) = L.drop_ruleset

  pub nat_ruleset_of :
      (a : NatRuleAction P) → V.ruleset_of (nat_to_u8 a) ≡ ruleset_to_i32 RulesetKind.nat
  nat_ruleset_of (nat n) = L.nat_ruleset
  nat_ruleset_of no_nat = L.nonat_ruleset

  pub redirect_ruleset :
      (a : RedirectRuleAction)
      → V.ruleset_of (redirect_to_u8 a) ≡ ruleset_to_i32 RulesetKind.redirect
  redirect_ruleset redirect = L.rdr_ruleset
  redirect_ruleset no_redirect = L.nordr_ruleset

  pub scrub_ruleset_of :
      (a : ScrubRuleAction) → V.ruleset_of (scrub_to_u8 a) ≡ ruleset_to_i32 RulesetKind.scrub
  scrub_ruleset_of scrub = L.scrub_ruleset
  scrub_ruleset_of no_scrub = L.noscrub_ruleset

  abbrev rule_arg : ℕ → List ℕ → PfRule → ℕ → PfiocRule
  rule_arg ticket name rule pool_ticket = record zero_pfioc_rule {
    anchor = name;
    rule = rule;
    ticket = ticket;
    pool_ticket = pool_ticket;
  }

  -- The appended entry, once the ruleset of the action is known.
  at_ruleset :
      (k' : ℤ) (name b : List ℕ) (k z : ℤ) (p : Submitted) (l l' : List V.Entry)
      → k' ≡ z
      → l' ≡ l ++ (if same_key k b k' name then V.image p ∷ [] else [])
      → l' ≡ l ++ (if same_key k b z name then V.image p ∷ [] else [])
  at_ruleset k' name b k z p l l' e h = rw e at h

  filter_submission-eq :
      (rule : FilterRule P) {p : PfRule} {l : PfPalist} {q : List PfPooladdr}
      → Filter.try_copy_to rule zero_rule ≡ ok p
      → route_list (Route.get_pool_addr rule.route) p.rpool.list ≡ ok l
      → route_addresses (Route.get_pool_addr rule.route) ≡ ok q
      → filter_submission rule ≡ ok (record p { rpool = record p.rpool { list = l } }, q)
  unfolding filter_submission
  filter_submission-eq rule e f g = rw (e, f, g)

  pub nat_submission-eq :
      (rule : NatRule P) {p : PfRule} {pool : PfPool} {q : List PfPooladdr}
      → Nat.try_copy_to rule zero_rule ≡ ok p
      → nat_pool (get_nat_to rule) p.rpool ≡ ok pool
      → nat_addresses (get_nat_to rule) ≡ ok q
      → nat_submission rule ≡ ok (record p { rpool = pool }, q)
  unfolding nat_submission
  nat_submission-eq rule e f g = rw (e, f, g)

  pub redirect_submission-eq :
      (rule : RedirectRule P) {p : PfRule} {pool : PfPool} {q : List PfPooladdr}
      → Redirect.try_copy_to rule zero_rule ≡ ok p
      → endpoint_pool rule.redirect_to p.rpool ≡ ok pool
      → address_of (from_ip rule.redirect_to.ip) ≡ ok q
      → redirect_submission rule ≡ ok (record p { rpool = pool }, q)
  unfolding redirect_submission
  redirect_submission-eq rule e f g = rw (e, f, g)

  pub scrub_submission-eq :
      (rule : ScrubRule) {p : PfRule} {q : List PfPooladdr}
      → Scrub.try_copy_to rule zero_rule ≡ ok p
      → q ≡ []
      → scrub_submission rule ≡ ok (p, q)
  unfolding scrub_submission
  scrub_submission-eq rule {p} e f = ground arith

  pub filter-Staged :
      (fd : ℕ) (anchor : Str) (rule : FilterRule P) (ticket : ℕ) (s : K.State)
      → (add_filter_rule P K fd anchor rule ticket s).0 ≡ ok tt
      → Staged V RulesetKind.filter filter_submission anchor rule s
          (add_filter_rule P K fd anchor rule ticket s).1
  unfolding add_filter_rule
  filter-Staged fd anchor rule ticket s h =
      let a = Route.get_pool_addr rule.route in
      let d =
        add_shape-Added P V L fd (copy_anchor_name anchor (zeros 1024))
          (Filter.try_copy_to rule zero_rule) (λ p t. setup_route_pool P K fd a t p.rpool.list)
          (λ name p t l.
            record (rule_arg ticket name (record p { rpool = record p.rpool { list = l } }) t) {
              action = pf_change_none;
            })
          (λ p. route_list a p.rpool.list) (route_addresses a) (λ _ _ _ _. refl)
          (λ p t. route_pool-Pools fd a t p.rpool.list)
          (λ p t. route_pool-IsQuiet fd a t p.rpool.list)
          (λ p t s x. route_pool-pure fd a t p.rpool.list s x) s h in
      record {
        name = d.name;
        submitted_rule =
            (record d.pf_rule { rpool = record d.pf_rule.rpool { list = d.x } }, d.buffer);
        copied = d.copied_ok;
        submitted = filter_submission-eq rule d.encoded_ok d.pool_ok d.addresses_ok;
        appended = λ k b.
            at_ruleset _ _ b k _ _ _ _
              (ap V.ruleset_of (filter-action rule zero_rule d.encoded_ok)
                ∙ filter_ruleset rule.action)
              (d.appended k b);
      }

  pub nat-Staged :
      (fd : ℕ) (anchor : Str) (rule : NatRule P) (ticket : ℕ) (s : K.State)
      → (add_nat_rule P K fd anchor rule ticket s).0 ≡ ok tt
      → Staged V RulesetKind.nat nat_submission anchor rule s
          (add_nat_rule P K fd anchor rule ticket s).1
  unfolding add_nat_rule
  nat-Staged fd anchor rule ticket s h =
      let d =
        add_shape-Added P V L fd (copy_anchor_name anchor (zeros 1024))
          (Nat.try_copy_to rule zero_rule)
          (λ p t. setup_nat_pool P K fd (get_nat_to rule) t p.rpool)
          (λ name p t x. rule_arg ticket name (record p { rpool = x }) t)
          (λ p. nat_pool (get_nat_to rule) p.rpool) (nat_addresses (get_nat_to rule))
          (λ _ _ _ _. refl) (λ p t. nat_pool-Pools fd (get_nat_to rule) t p.rpool)
          (λ p t. nat_pool-IsQuiet fd (get_nat_to rule) t p.rpool)
          (λ p t s x. nat_pool-pure fd (get_nat_to rule) t p.rpool s x) s h in
      record {
        name = d.name;
        submitted_rule = (record d.pf_rule { rpool = d.x }, d.buffer);
        copied = d.copied_ok;
        submitted = nat_submission-eq rule d.encoded_ok d.pool_ok d.addresses_ok;
        appended = λ k b.
            at_ruleset _ _ b k _ _ _ _
              (ap V.ruleset_of (nat-action rule zero_rule d.encoded_ok)
                ∙ nat_ruleset_of rule.action)
              (d.appended k b);
      }

  pub redirect-Staged :
      (fd : ℕ) (anchor : Str) (rule : RedirectRule P) (ticket : ℕ) (s : K.State)
      → (add_redirect_rule P K fd anchor rule ticket s).0 ≡ ok tt
      → Staged V RulesetKind.redirect redirect_submission anchor rule s
          (add_redirect_rule P K fd anchor rule ticket s).1
  unfolding add_redirect_rule
  redirect-Staged fd anchor rule ticket s h =
      let d =
        add_shape-Added P V L fd (copy_anchor_name anchor (zeros 1024))
          (Redirect.try_copy_to rule zero_rule)
          (λ p t. setup_endpoint_pool P K fd rule.redirect_to t p.rpool)
          (λ name p t x. rule_arg ticket name (record p { rpool = x }) t)
          (λ p. endpoint_pool rule.redirect_to p.rpool) (address_of (from_ip rule.redirect_to.ip))
          (λ _ _ _ _. refl) (λ p t. endpoint_pool-Pools fd rule.redirect_to t p.rpool)
          (λ p t. endpoint_pool-IsQuiet fd rule.redirect_to t p.rpool)
          (λ p t s x. endpoint_pool-pure fd rule.redirect_to t p.rpool s x) s h in
      record {
        name = d.name;
        submitted_rule = (record d.pf_rule { rpool = d.x }, d.buffer);
        copied = d.copied_ok;
        submitted = redirect_submission-eq rule d.encoded_ok d.pool_ok d.addresses_ok;
        appended = λ k b.
            at_ruleset _ _ b k _ _ _ _
              (ap V.ruleset_of (redirect-action rule zero_rule d.encoded_ok)
                ∙ redirect_ruleset rule.action)
              (d.appended k b);
      }

  pub scrub-Staged :
      (fd : ℕ) (anchor : Str) (rule : ScrubRule) (ticket : ℕ) (s : K.State)
      → (add_scrub_rule P K fd anchor rule ticket s).0 ≡ ok tt
      → Staged V RulesetKind.scrub scrub_submission anchor rule s
          (add_scrub_rule P K fd anchor rule ticket s).1
  unfolding add_scrub_rule
  scrub-Staged fd anchor rule ticket s h =
      let d =
        add_shape-Added P V L fd (copy_anchor_name anchor (zeros 1024))
          (Scrub.try_copy_to rule zero_rule) (λ p t. pure tt)
          (λ name p t x. rule_arg ticket name p t) (λ p. ok tt) (ok []) (λ _ _ _ _. refl)
          (λ p t. lift-Pools P V L (ok tt) t) (λ p t. lift-IsQuiet P V L (ok tt)) (λ p t s x e. e) s
          h in
      record {
        name = d.name;
        submitted_rule = (d.pf_rule, d.buffer);
        copied = d.copied_ok;
        submitted =
            (let none_sent : d.buffer ≡ [] = ground (arith, d.addresses_ok) in
              scrub_submission-eq rule d.encoded_ok none_sent);
        appended = λ k b.
            at_ruleset _ _ b k _ _ _ _
              (ap V.ruleset_of (scrub-action rule zero_rule d.encoded_ok)
                ∙ scrub_ruleset_of rule.action)
              (d.appended k b);
      }

  pub filter-Keeps :
      (k : ℤ) (b : List ℕ) (fd : ℕ) (anchor : Str) (rule : FilterRule P) (ticket : ℕ)
      → Keeps (λ s. V.active s k b) (add_filter_rule P K fd anchor rule ticket)
  unfolding add_filter_rule
  filter-Keeps k b fd anchor rule ticket =
      add_shape-Keeps P V L fd (copy_anchor_name anchor (zeros 1024))
        (Filter.try_copy_to rule zero_rule)
        (λ p t. setup_route_pool P K fd (Route.get_pool_addr rule.route) t p.rpool.list)
        (λ name p t l.
          record (rule_arg ticket name (record p { rpool = record p.rpool { list = l } }) t) {
            action = pf_change_none;
          })
        (λ p t. route_pool-IsQuiet fd (Route.get_pool_addr rule.route) t p.rpool.list) k b

  pub nat-Keeps :
      (k : ℤ) (b : List ℕ) (fd : ℕ) (anchor : Str) (rule : NatRule P) (ticket : ℕ)
      → Keeps (λ s. V.active s k b) (add_nat_rule P K fd anchor rule ticket)
  unfolding add_nat_rule
  nat-Keeps k b fd anchor rule ticket =
      add_shape-Keeps P V L fd (copy_anchor_name anchor (zeros 1024))
        (Nat.try_copy_to rule zero_rule) (λ p t. setup_nat_pool P K fd (get_nat_to rule) t p.rpool)
        (λ name p t x. rule_arg ticket name (record p { rpool = x }) t)
        (λ p t. nat_pool-IsQuiet fd (get_nat_to rule) t p.rpool) k b

  pub redirect-Keeps :
      (k : ℤ) (b : List ℕ) (fd : ℕ) (anchor : Str) (rule : RedirectRule P) (ticket : ℕ)
      → Keeps (λ s. V.active s k b) (add_redirect_rule P K fd anchor rule ticket)
  unfolding add_redirect_rule
  redirect-Keeps k b fd anchor rule ticket =
      add_shape-Keeps P V L fd (copy_anchor_name anchor (zeros 1024))
        (Redirect.try_copy_to rule zero_rule)
        (λ p t. setup_endpoint_pool P K fd rule.redirect_to t p.rpool)
        (λ name p t x. rule_arg ticket name (record p { rpool = x }) t)
        (λ p t. endpoint_pool-IsQuiet fd rule.redirect_to t p.rpool) k b

  pub scrub-Keeps :
      (k : ℤ) (b : List ℕ) (fd : ℕ) (anchor : Str) (rule : ScrubRule) (ticket : ℕ)
      → Keeps (λ s. V.active s k b) (add_scrub_rule P K fd anchor rule ticket)
  unfolding add_scrub_rule
  scrub-Keeps k b fd anchor rule ticket =
      add_shape-Keeps P V L fd (copy_anchor_name anchor (zeros 1024))
        (Scrub.try_copy_to rule zero_rule) (λ p t. pure tt) (λ name p t x. rule_arg ticket name p t)
        (λ p t. lift-IsQuiet P V L (ok tt)) k b
