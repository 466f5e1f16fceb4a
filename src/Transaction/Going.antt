-- ===== src/Transaction/Going.antt =====
-- When the calls that add the rules of a transaction succeed: with the tickets that are current.
use pfctl_rs.Common.{refl, ℕ, Among, ◌∙◌, ◌≡◌, ◌≢◌, ap, Option, none, some, List, [], ◌∷◌}
use pfctl_rs.Error
use pfctl_rs.Error.{Result, ok}
use pfctl_rs.Cstr.{Str, zeros}
use pfctl_rs.Platform.{Platform}
use pfctl_rs.Ffi.{
  PfPool, PfPalist, PfPooladdr, PfiocRule, PfiocPooladdr, PfiocTrans, PfiocTransElem, zero_rule,
  zero_pfioc_rule, zero_pfioc_pooladdr, zero_pooladdr,
}
use pfctl_rs.Kernel.{Kernel, opened, pure, lift, ◌>>=◌, ◌>>◌, ioctl_error, ioctl_guard}
use pfctl_rs.Kernel.Goes.{Meets, pure-Meets, bind-Meets, lift-Meets, guard-Meets}
use pfctl_rs.Utils.{copy_anchor_name, add_pool_address, get_pool_ticket}
use pfctl_rs.Rule.PoolAddr
use pfctl_rs.Rule.PoolAddr.{PoolAddr, PoolAddrList, new_list, to_pool_addr_list, init_pool, from_ip}
use pfctl_rs.Rule.Port
use pfctl_rs.Rule.Route
use pfctl_rs.Rule.Endpoint.{Endpoint, NatEndpoint}
use pfctl_rs.Rule.Filter
use pfctl_rs.Rule.Filter.{FilterRule}
use pfctl_rs.Rule.Nat
use pfctl_rs.Rule.Nat.{NatRule, get_nat_to}
use pfctl_rs.Rule.Redirect
use pfctl_rs.Rule.Redirect.{RedirectRule}
use pfctl_rs.Rule.Scrub
use pfctl_rs.Rule.Scrub.{ScrubRule}
use pfctl_rs.Transaction.{
  setup_route_pool, setup_endpoint_pool, setup_nat_pool, add_filter_rule, add_nat_rule,
  add_redirect_rule, add_scrub_rule,
}
use pfctl_rs.Transaction.Rulesets.{Submitted, Rulesets, IsTransactional, IsKey}
use pfctl_rs.Transaction.Adding.{filter_ruleset, nat_ruleset_of, redirect_ruleset, scrub_ruleset_of}
use pfctl_rs.Rule.Encoded.{filter-action, nat-action, redirect-action, scrub-action}
use pfctl_rs.Anchor.{RulesetKind, ruleset_to_i32}
use pfctl_rs.Common.Int.{ℤ, pos}
use pfctl_rs.Transaction.Submission.{
  route_list, endpoint_pool, nat_pool, filter_submission, nat_submission, redirect_submission,
  scrub_submission,
}

-- No two elements are for the same ruleset.
abbrev pub HasDistinctKeys : List PfiocTransElem → Type 0
HasDistinctKeys [] = Unit {0}
HasDistinctKeys (e ∷ es) =
    ((x : PfiocTransElem) → Among x es → ¬ IsKey x e.rs_num e.anchor) × HasDistinctKeys es

-- A kernel that refuses a call of a commit only for a ticket that is not the current one, after
-- pf(4): DIOCXBEGIN and DIOCBEGINADDRS give out the current tickets, of an inactive ruleset and of
-- the buffer of pool addresses; DIOCADDADDR, DIOCADDRULE and DIOCXCOMMIT want them back. Rules and
-- addresses that are added change no ticket.
pub record Obliges (K : Kernel) (V : Rulesets K) : Type 0 where
  pub ruleset_ticket : K.State → ℤ → List ℕ → ℕ
  pub pool_ticket : K.State → ℕ
  pub opens : (s : K.State) → (fd : ℕ) × ((K.open_pf s).0 ≡ opened fd)
  pub begins_addrs :
      (fd : ℕ) (a : PfiocPooladdr) (s : K.State)
      → ((K.pf_begin_addrs fd a s).0.ret ≢ ioctl_error)
        × (pool_ticket (K.pf_begin_addrs fd a s).1 ≡ (K.pf_begin_addrs fd a s).0.arg.ticket)
  pub begins_addrs_keeps :
      (fd : ℕ) (a : PfiocPooladdr) (s : K.State) (k : ℤ) (b : List ℕ)
      → ruleset_ticket (K.pf_begin_addrs fd a s).1 k b ≡ ruleset_ticket s k b
  pub adds_addr :
      (fd : ℕ) (a : PfiocPooladdr) (s : K.State)
      → pool_ticket s ≡ a.ticket
      → (K.pf_add_addr fd a s).0.ret ≢ ioctl_error
  pub adds_addr_keeps :
      (fd : ℕ) (a : PfiocPooladdr) (s : K.State)
      → (pool_ticket (K.pf_add_addr fd a s).1 ≡ pool_ticket s)
        × ((k : ℤ) (b : List ℕ)
            → ruleset_ticket (K.pf_add_addr fd a s).1 k b ≡ ruleset_ticket s k b)
  pub begins :
      (fd : ℕ) (t : PfiocTrans) (s : K.State)
      → HasDistinctKeys t.array
      → t.esize ≡ pos 1032
      → ((K.pf_begin_trans fd t s).0.ret ≢ ioctl_error)
        × ((e : PfiocTransElem)
            → Among e (K.pf_begin_trans fd t s).0.arg.array
            → ruleset_ticket (K.pf_begin_trans fd t s).1 e.rs_num e.anchor ≡ e.ticket)
  pub adds :
      (fd : ℕ) (a : PfiocRule) (s : K.State)
      → ruleset_ticket s (V.ruleset_of a.rule.action) a.anchor ≡ a.ticket
      → pool_ticket s ≡ a.pool_ticket
      → (K.pf_add_rule fd a s).0.ret ≢ ioctl_error
  pub adds_keeps :
      (fd : ℕ) (a : PfiocRule) (s : K.State) (k : ℤ) (b : List ℕ)
      → ruleset_ticket (K.pf_add_rule fd a s).1 k b ≡ ruleset_ticket s k b
  pub commits :
      (fd : ℕ) (t : PfiocTrans) (s : K.State)
      → ((e : PfiocTransElem) → Among e t.array → ruleset_ticket s e.rs_num e.anchor ≡ e.ticket)
      → (K.pf_commit_trans fd t s).0.ret ≢ ioctl_error

-- A list of one address that can be made starts with the encoded address.
new_list-copied :
    {P : Platform} (a : PoolAddr P) {l : PoolAddrList}
    → new_list (a ∷ []) ≡ ok l
    → (x : PfPooladdr) × (PoolAddr.try_copy_to a zero_pooladdr ≡ ok x)
unfolding new_list
new_list-copied a h =
    let (pool, made, _) = Error.>>=-eq-ok (init_pool (a ∷ [])) _ h in
    let (x, copied, _) = Error.>>=-eq-ok (PoolAddr.try_copy_to a zero_pooladdr) _ made in
    (x, copied)

module _ (P : Platform) {K : Kernel} (V : Rulesets K) (L : IsTransactional K V) (O : Obliges K V)
    (current : ℤ → List ℕ → ℕ) (fd : ℕ) where
  -- The tickets of the inactive rulesets are the given ones.
  abbrev pub Tickets : K.State → Type 0
  Tickets s = (k : ℤ) (b : List ℕ) → O.ruleset_ticket s k b ≡ current k b

  -- And so is that of the buffer of pool addresses.
  abbrev Pooled : ℕ → K.State → Type 0
  Pooled t s = Tickets s × (O.pool_ticket s ≡ t)

  get_pool_ticket-Meets : Meets Tickets (get_pool_ticket P K fd) Pooled
  unfolding get_pool_ticket
  get_pool_ticket-Meets =
      bind-Meets {L = Pooled} (ioctl_guard P (K.pf_begin_addrs fd) zero_pfioc_pooladdr)
        (λ p. pure p.ticket)
        (guard-Meets {J = λ a. Pooled a.ticket} P (K.pf_begin_addrs fd) zero_pfioc_pooladdr
          (λ s i. (O.begins_addrs fd zero_pfioc_pooladdr s).0)
          (λ s i. (
            λ k b. O.begins_addrs_keeps fd zero_pfioc_pooladdr s k b ∙ i k b,
            (O.begins_addrs fd zero_pfioc_pooladdr s).1,
          )))
        (λ p s i. (p.ticket, s, refl, i))

  add_pool_address-Meets :
      (a : PoolAddr P) (ticket : ℕ) {l : PoolAddrList}
      → new_list (a ∷ []) ≡ ok l
      → Meets (Pooled ticket) (add_pool_address P K fd a ticket) (λ _. Pooled ticket)
  unfolding add_pool_address
  add_pool_address-Meets a ticket h =
      let (x, copied) = new_list-copied a h in
      let arg = record zero_pfioc_pooladdr { ticket = ticket; addr = x } in
      lift-Meets (PoolAddr.try_copy_to a zero_pfioc_pooladdr.addr) _ copied (
        bind-Meets (ioctl_guard P (K.pf_add_addr fd) arg) (λ _. pure tt)
          (guard-Meets {J = λ _. Pooled ticket} P (K.pf_add_addr fd) arg
            (λ s i. O.adds_addr fd arg s i.1)
            (λ s i. (
              λ k b. (O.adds_addr_keeps fd arg s).1 k b ∙ i.0 k b,
              (O.adds_addr_keeps fd arg s).0 ∙ i.1,
            )))
          (λ _. pure-Meets (Pooled ticket) tt))

  last-Meets :
      {A : Type 0} (I : K.State → Type 0) (r : Result Error.Error A) {a : A}
      → r ≡ ok a
      → Meets I (lift r) (λ _. I)
  last-Meets I r {a} e s i = (a, s, ap (λ z. (z, s)) e, i)

  route_pool-Meets :
      (a : Option (PoolAddr P)) (ticket : ℕ) (list : PfPalist) {l : PfPalist}
      → route_list a list ≡ ok l
      → Meets (Pooled ticket) (setup_route_pool P K fd a ticket list) (λ _. Pooled ticket)
  unfolding setup_route_pool route_list
  route_pool-Meets none ticket list h = pure-Meets (Pooled ticket) list
  route_pool-Meets (some a) ticket list h =
      let (l, made, _) = Error.>>=-eq-ok (new_list (a ∷ [])) _ h in
      bind-Meets (add_pool_address P K fd a ticket)
        (λ _. lift (new_list (a ∷ [])) >>= λ l. pure l.list) (add_pool_address-Meets a ticket made)
        (λ _.
          lift-Meets (new_list (a ∷ [])) (λ l. pure l.list) made
            (pure-Meets (Pooled ticket) l.list))

  endpoint_pool-Meets :
      (e : Endpoint P) (ticket : ℕ) (pool : PfPool) {x : PfPool}
      → endpoint_pool e pool ≡ ok x
      → Meets (Pooled ticket) (setup_endpoint_pool P K fd e ticket pool) (λ _. Pooled ticket)
  unfolding setup_endpoint_pool endpoint_pool to_pool_addr_list
  endpoint_pool-Meets e ticket pool h =
      let (l, made, ports) = Error.>>=-eq-ok (to_pool_addr_list e.ip) _ h in
      let last =
        λ (l : PoolAddrList). lift (Port.try_copy_to_pool e.port (record pool { list = l.list })) in
      bind-Meets (add_pool_address P K fd (from_ip e.ip) ticket)
        (λ _. lift (to_pool_addr_list e.ip) >>= last)
        (add_pool_address-Meets (from_ip e.ip) ticket made)
        (λ _. lift-Meets (to_pool_addr_list e.ip) last made (
          last-Meets (Pooled ticket) (Port.try_copy_to_pool e.port (record pool { list = l.list }))
            ports))

  nat_pool-Meets :
      (e : Option (NatEndpoint P)) (ticket : ℕ) (pool : PfPool) {x : PfPool}
      → nat_pool e pool ≡ ok x
      → Meets (Pooled ticket) (setup_nat_pool P K fd e ticket pool) (λ _. Pooled ticket)
  unfolding setup_nat_pool nat_pool
  nat_pool-Meets none ticket pool h = pure-Meets (Pooled ticket) pool
  nat_pool-Meets (some n) ticket pool h = endpoint_pool-Meets n.endpoint ticket pool h

  add-Meets :
      (a : PfiocRule) (n : ℤ)
      → V.ruleset_of a.rule.action ≡ n
      → current n a.anchor ≡ a.ticket
      → Meets (Pooled a.pool_ticket) (ioctl_guard P (K.pf_add_rule fd) a >> pure tt) (λ _. Tickets)
  add-Meets a n number ticket =
      bind-Meets (ioctl_guard P (K.pf_add_rule fd) a) (λ _. pure tt)
        (guard-Meets {J = λ _. Tickets} P (K.pf_add_rule fd) a
          (λ s i.
            O.adds fd a s
              (i.0 (V.ruleset_of a.rule.action) a.anchor
                ∙ ap (λ z. current z a.anchor) number
                ∙ ticket)
              i.1)
          (λ s i k b. O.adds_keeps fd a s k b ∙ i.0 k b))
        (λ _. pure-Meets Tickets tt)

  module _ (anchor : Str) {name : List ℕ} (named : copy_anchor_name anchor (zeros 1024) ≡ ok name)
      (ticket : ℕ) where
    -- The ticket is that of the ruleset of the kind and the anchor.
    abbrev IsCurrent : RulesetKind → Type 0
    IsCurrent kind = current (ruleset_to_i32 kind) name ≡ ticket

    pub add_filter_rule-Meets :
        (r : FilterRule P) {p : Submitted}
        → IsCurrent RulesetKind.filter
        → filter_submission r ≡ ok p
        → Meets Tickets (add_filter_rule P K fd anchor r ticket) (λ _. Tickets)
    unfolding add_filter_rule filter_submission
    add_filter_rule-Meets r c h =
        let (w, written, k) = Error.>>=-eq-ok (Filter.try_copy_to r zero_rule) _ h in
        let a = Route.get_pool_addr r.route in
        let (l, listed, _) = Error.>>=-eq-ok (route_list a w.rpool.list) _ k in
        let number =
          ap V.ruleset_of (filter-action r zero_rule written) ∙ filter_ruleset P V L r.action in
        lift-Meets (copy_anchor_name anchor zero_pfioc_rule.anchor) _ named (
          lift-Meets (Filter.try_copy_to r zero_rule) _ written (
            bind-Meets (get_pool_ticket P K fd) _ get_pool_ticket-Meets λ t.
              bind-Meets (setup_route_pool P K fd a t w.rpool.list) _
                (route_pool-Meets a t w.rpool.list listed) λ list. add-Meets _ _ number c))

    pub add_nat_rule-Meets :
        (r : NatRule P) {p : Submitted}
        → IsCurrent RulesetKind.nat
        → nat_submission r ≡ ok p
        → Meets Tickets (add_nat_rule P K fd anchor r ticket) (λ _. Tickets)
    unfolding add_nat_rule nat_submission
    add_nat_rule-Meets r c h =
        let (w, written, k) = Error.>>=-eq-ok (Nat.try_copy_to r zero_rule) _ h in
        let (x, pooled, _) = Error.>>=-eq-ok (nat_pool (get_nat_to r) w.rpool) _ k in
        let number =
          ap V.ruleset_of (nat-action r zero_rule written) ∙ nat_ruleset_of P V L r.action in
        lift-Meets (copy_anchor_name anchor zero_pfioc_rule.anchor) _ named (
          lift-Meets (Nat.try_copy_to r zero_rule) _ written (
            bind-Meets (get_pool_ticket P K fd) _ get_pool_ticket-Meets λ t.
              bind-Meets (setup_nat_pool P K fd (get_nat_to r) t w.rpool) _
                (nat_pool-Meets (get_nat_to r) t w.rpool pooled) λ rpool. add-Meets _ _ number c))

    pub add_redirect_rule-Meets :
        (r : RedirectRule P) {p : Submitted}
        → IsCurrent RulesetKind.redirect
        → redirect_submission r ≡ ok p
        → Meets Tickets (add_redirect_rule P K fd anchor r ticket) (λ _. Tickets)
    unfolding add_redirect_rule redirect_submission
    add_redirect_rule-Meets r c h =
        let (w, written, k) = Error.>>=-eq-ok (Redirect.try_copy_to r zero_rule) _ h in
        let (x, pooled, _) = Error.>>=-eq-ok (endpoint_pool r.redirect_to w.rpool) _ k in
        let number =
          ap V.ruleset_of (redirect-action r zero_rule written) ∙ redirect_ruleset P V L r.action in
        lift-Meets (copy_anchor_name anchor zero_pfioc_rule.anchor) _ named (
          lift-Meets (Redirect.try_copy_to r zero_rule) _ written (
            bind-Meets (get_pool_ticket P K fd) _ get_pool_ticket-Meets λ t.
              bind-Meets (setup_endpoint_pool P K fd r.redirect_to t w.rpool) _
                (endpoint_pool-Meets r.redirect_to t w.rpool pooled)
                λ rpool. add-Meets _ _ number c))

    pub add_scrub_rule-Meets :
        (r : ScrubRule) {p : Submitted}
        → IsCurrent RulesetKind.scrub
        → scrub_submission r ≡ ok p
        → Meets Tickets (add_scrub_rule P K fd anchor r ticket) (λ _. Tickets)
    unfolding add_scrub_rule scrub_submission
    add_scrub_rule-Meets r c h =
        let (w, written, _) = Error.>>=-eq-ok (Scrub.try_copy_to r zero_rule) _ h in
        let number =
          ap V.ruleset_of (scrub-action r zero_rule written) ∙ scrub_ruleset_of P V L r.action in
        lift-Meets (copy_anchor_name anchor zero_pfioc_rule.anchor) _ named (
          lift-Meets (Scrub.try_copy_to r zero_rule) _ written (
            bind-Meets (get_pool_ticket P K fd) _ get_pool_ticket-Meets
              λ t. add-Meets _ _ number c))
