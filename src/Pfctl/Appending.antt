-- ===== src/Pfctl/Appending.antt =====
-- `add_rule`, `add_nat_rule`, `add_redirect_rule` and `add_scrub_rule` of `PfCtl`: what a rule
-- that is added on its own does to the active rulesets.
use pfctl_rs.Common.{ℕ, ◌≡◌, ◌≢◌, refl, ap, ◌∙◌, List, [], ◌∷◌, ◌++◌, if◌then◌else◌, arith}
use pfctl_rs.Common.Int.{ℤ}
use pfctl_rs.Error.{Error, Result, ok, err, panic}
use pfctl_rs.Cstr.{Str, zeros}
use pfctl_rs.Platform.{Platform}
use pfctl_rs.Ffi.{
  PfRule, PfPooladdr, PfiocRule, zero_rule, zero_pfioc_rule, pf_change_get_ticket,
  pf_change_add_tail,
}
use pfctl_rs.Kernel.{Kernel, Action, pure, lift, ◌>>=◌, ◌>>◌, ioctl_error, ioctl_guard}
use pfctl_rs.Kernel.Laws.{ioctl_guard-dropped}
use pfctl_rs.Kernel.Keeps.{Keeps, bind-Keeps, lift-Keeps, ioctl_guard-Keeps}
use pfctl_rs.Anchor.{AnchorKind, anchor_to_u8, RulesetKind, ruleset_to_i32}
use pfctl_rs.Rule.Encoded.{filter-action, nat-action, redirect-action, scrub-action}
use pfctl_rs.Rule.PoolAddr.{from_ip}
use pfctl_rs.Rule.Filter
use pfctl_rs.Rule.Filter.{FilterRule}
use pfctl_rs.Rule.Nat
use pfctl_rs.Rule.Nat.{NatRule, get_nat_to}
use pfctl_rs.Rule.Redirect
use pfctl_rs.Rule.Redirect.{RedirectRule}
use pfctl_rs.Rule.Scrub
use pfctl_rs.Rule.Scrub.{ScrubRule}
use pfctl_rs.Utils.{copy_anchor_name, get_pool_ticket, get_ticket}
use pfctl_rs.Transaction.{setup_endpoint_pool, setup_nat_pool}
use pfctl_rs.Transaction.Rulesets.{Submitted, Rulesets, IsTransactional, same_key}
use pfctl_rs.Transaction.Submission.{
  address_of, nat_addresses, nat_submission, redirect_submission, scrub_submission,
}
use pfctl_rs.Transaction.Staging.{get_pool_ticket-IsQuiet, get_pool_ticket-clears, Pools}
use pfctl_rs.Transaction.Adding.{
  endpoint_pool-IsQuiet, endpoint_pool-Pools, nat_pool-Pools, scrub_submission-eq,
  endpoint_pool-pure, nat_pool-IsQuiet, nat_pool-pure, filter_ruleset, nat_ruleset_of,
  redirect_ruleset, scrub_ruleset_of, nat_submission-eq, redirect_submission-eq,
}
use pfctl_rs.Pfctl.{PfCtl, add_rule, add_nat_rule, add_redirect_rule, add_scrub_rule}

-- What the crate relies on of DIOCCHANGERULE, after pf(4): asking for a ticket changes nothing,
-- and adding at the tail appends the rule, with the addresses in the buffer of its pool ticket,
-- to the active ruleset of its anchor and action, or fails without a change.
pub record IsChangeable (K : Kernel) (V : Rulesets K) : Type 0 where
  pub ticket_active :
      (fd : ℕ) (a : PfiocRule) (s : K.State) (k : ℤ) (b : List ℕ)
      → a.action ≡ pf_change_get_ticket
      → V.active (K.pf_change_rule fd a s).1 k b ≡ V.active s k b
  pub ticket_buffered :
      (fd : ℕ) (a : PfiocRule) (s : K.State) (t : ℕ)
      → a.action ≡ pf_change_get_ticket
      → V.buffered (K.pf_change_rule fd a s).1 t ≡ V.buffered s t
  pub change_refused :
      (fd : ℕ) (a : PfiocRule) (s : K.State) (k : ℤ) (b : List ℕ)
      → (K.pf_change_rule fd a s).0.ret ≡ ioctl_error
      → V.active (K.pf_change_rule fd a s).1 k b ≡ V.active s k b
  pub change_appends :
      (fd : ℕ) (a : PfiocRule) (s : K.State) (k : ℤ) (b : List ℕ)
      → a.action ≡ pf_change_add_tail
      → (K.pf_change_rule fd a s).0.ret ≢ ioctl_error
      → V.active (K.pf_change_rule fd a s).1 k b
        ≡ V.active s k b
          ++ (if same_key k b (V.ruleset_of a.rule.action) a.anchor
              then V.image (a.rule, V.buffered s a.pool_ticket) ∷ []
              else [])

-- A rule of any kind.
pub data AnyRule (P : Platform) : Type 0 where
  filter : FilterRule P → AnyRule P
  nat : NatRule P → AnyRule P
  redirect : RedirectRule P → AnyRule P
  scrub : ScrubRule → AnyRule P

abbrev pub kind_of : {P : Platform} → AnyRule P → RulesetKind
kind_of (filter r) = RulesetKind.filter
kind_of (nat r) = RulesetKind.nat
kind_of (redirect r) = RulesetKind.redirect
kind_of (scrub r) = RulesetKind.scrub

-- An encoding without a pool.
abbrev pub plain_submission : Result Error PfRule → Result Error Submitted
plain_submission (ok p) = ok (p, [])
plain_submission (err e) = err e
plain_submission panic = panic

-- What a rule is sent to the kernel as. The pool of a filter rule's route is not set up.
abbrev pub submission : {P : Platform} → AnyRule P → Result Error Submitted
submission (filter r) = plain_submission (Filter.try_copy_to r zero_rule)
submission (nat r) = nat_submission r
submission (redirect r) = redirect_submission r
submission (scrub r) = scrub_submission r

abbrev pub add_any :
    (P : Platform) (K : Kernel) → PfCtl → Str → AnyRule P → Action K.State (Unit {0})
add_any P K self anchor (filter r) = add_rule P K self anchor r
add_any P K self anchor (nat r) = add_nat_rule P K self anchor r
add_any P K self anchor (redirect r) = add_redirect_rule P K self anchor r
add_any P K self anchor (scrub r) = add_scrub_rule P K self anchor r

module _ (P : Platform) {K : Kernel} (V : Rulesets K) (L : IsTransactional K V)
    (C : IsChangeable K V) where
  -- The run leaves every active ruleset as it was.
  abbrev IsStill : {A : Type 0} → Action K.State A → Type 0
  IsStill m = (k : ℤ) (b : List ℕ) → Keeps (λ s. V.active s k b) m

  -- The rule stands at the end of the active ruleset with the number and the name, and the other
  -- rulesets are as before.
  abbrev pub Appended : ℤ → List ℕ → Submitted → K.State → K.State → Type 0
  Appended n name p s s' =
      (k : ℤ) (b : List ℕ)
      → V.active s' k b ≡ V.active s k b ++ (if same_key k b n name then V.image p ∷ [] else [])

  -- A run from a state that appends a wanted rule if it succeeds, and that changes nothing if it
  -- does not.
  abbrev pub AppendsFrom :
      ℤ → (List ℕ → Submitted → Type 0) → Action K.State (Unit {0}) → K.State → Type 0
  AppendsFrom n want m s =
      ((m s).0 ≢ ok tt → (k : ℤ) (b : List ℕ) → V.active (m s).1 k b ≡ V.active s k b)
      × ((m s).0 ≡ ok tt
          → (name : List ℕ) × (p : Submitted) × want name p × Appended n name p s (m s).1)

  abbrev pub AppendsOne : ℤ → (List ℕ → Submitted → Type 0) → Action K.State (Unit {0}) → Type 0
  AppendsOne n want m = (s : K.State) → AppendsFrom n want m s

  module _ (n : ℤ) (want : List ℕ → Submitted → Type 0) where
    bind-AppendsFrom :
        {A : Type 0} (m : Action K.State A) (f : A → Action K.State (Unit {0})) (s : K.State)
        → IsStill m
        → ((a : A) → (m s).0 ≡ ok a → AppendsFrom n want (f a) (m s).1)
        → AppendsFrom n want (m >>= f) s
    bind-AppendsFrom {A} m f s still hf = go (m s).0 refl
      where
        go : (r : Result Error A) → (m s).0 ≡ r → AppendsFrom n want (m >>= f) s
        go (ok a) e =
            let (fails, works) = hf a e in
            rw (e, ◌>>=◌)
              (
                λ h k b. fails h k b ∙ still k b s,
                λ h.
                    let (name, p, w, q) = works h in
                    (
                      name,
                      p,
                      w,
                      λ k b.
                          q k b
                          ∙ ap (λ l. l ++ (if same_key k b n name then V.image p ∷ [] else []))
                              (still k b s),
                    ),
              )
        go (err x) e = rw (e, ◌>>=◌) ((λ h k b. still k b s), (λ h. absurd (ground arith)))
        go panic e = rw (e, ◌>>=◌) ((λ h k b. still k b s), (λ h. absurd (ground arith)))

    finish-AppendsFrom :
        (fd : ℕ) (arg : PfiocRule) (s : K.State) (l : List PfPooladdr)
        → arg.action ≡ pf_change_add_tail
        → V.ruleset_of arg.rule.action ≡ n
        → V.buffered s arg.pool_ticket ≡ l
        → want arg.anchor (arg.rule, l)
        → AppendsFrom n want (ioctl_guard P (K.pf_change_rule fd) arg >> pure tt) s
    finish-AppendsFrom fd arg s l tail number there w =
        let (same, fails, works) = ioctl_guard-dropped P (K.pf_change_rule fd) arg s in
        let entry = λ (z : ℤ) (m : List PfPooladdr) (k : ℤ) (b : List ℕ).
          if same_key k b z arg.anchor then V.image (arg.rule, m) ∷ [] else [] in
        (
          λ h k b. ap (λ z. V.active z k b) same ∙ C.change_refused fd arg s k b (fails h),
          λ h. (
            arg.anchor,
            (arg.rule, l),
            w,
            λ k b.
                ap (λ z. V.active z k b) same
                ∙ C.change_appends fd arg s k b tail (works h)
                ∙ ap (λ z. V.active s k b ++ entry z (V.buffered s arg.pool_ticket) k b) number
                ∙ ap (λ m. V.active s k b ++ entry n m k b) there,
          ),
        )

  -- Asking for the ticket of a ruleset changes no ruleset, and no buffer of pool addresses.
  get_ticket-Keeps :
      {X : Type 0} (F : K.State → X) (fd : ℕ) (anchor : Str) (kind : AnchorKind)
      → ((a : PfiocRule) (s : K.State)
          → a.action ≡ pf_change_get_ticket
          → F (K.pf_change_rule fd a s).1 ≡ F s)
      → Keeps F (get_ticket P K fd anchor kind)
  unfolding get_ticket
  get_ticket-Keeps F fd anchor kind keeps =
      let arg = λ (name : List ℕ). record zero_pfioc_rule {
        action = pf_change_get_ticket;
        rule = record zero_pfioc_rule.rule { action = anchor_to_u8 kind };
        anchor = name;
      } in
      let call = λ (name : List ℕ). ioctl_guard P (K.pf_change_rule fd) (arg name) in
      bind-Keeps F (lift (copy_anchor_name anchor zero_pfioc_rule.anchor))
        (λ name. call name >>= λ r. pure r.ticket)
        (lift-Keeps F (copy_anchor_name anchor (zeros 1024)))
        (λ name.
          bind-Keeps F (call name) (λ r. pure r.ticket)
            (ioctl_guard-Keeps F P (K.pf_change_rule fd) (arg name) (λ s. keeps (arg name) s refl))
            (λ r. lift-Keeps F (ok r.ticket)))

  get_ticket-IsStill :
      (fd : ℕ) (anchor : Str) (kind : AnchorKind) → IsStill (get_ticket P K fd anchor kind)
  get_ticket-IsStill fd anchor kind k b =
      get_ticket-Keeps (λ s. V.active s k b) fd anchor kind (λ a s. C.ticket_active fd a s k b)

  get_ticket-buffered :
      (fd : ℕ) (anchor : Str) (kind : AnchorKind) (t : ℕ)
      → Keeps (λ s. V.buffered s t) (get_ticket P K fd anchor kind)
  get_ticket-buffered fd anchor kind t =
      get_ticket-Keeps (λ s. V.buffered s t) fd anchor kind (λ a s. C.ticket_buffered fd a s t)

  get_pool_ticket-IsStill : (fd : ℕ) → IsStill (get_pool_ticket P K fd)
  get_pool_ticket-IsStill fd k b = (get_pool_ticket-IsQuiet P V L fd k b).0

  lift-IsStill : {A : Type 0} (r : Result Error A) → IsStill (lift r)
  lift-IsStill r k b = lift-Keeps (λ s. V.active s k b) r

  -- What is sent for a rule: the name of the anchor in its buffer, and the encoding of the rule.
  abbrev pub Sent : Str → AnyRule P → List ℕ → Submitted → Type 0
  Sent anchor rule name p =
      (copy_anchor_name anchor (zeros 1024) ≡ ok name) × (submission rule ≡ ok p)

  abbrev tail_arg : List ℕ → PfRule → ℕ → ℕ → PfiocRule
  tail_arg name rule pool_ticket ticket = record zero_pfioc_rule {
    pool_ticket = pool_ticket;
    ticket = ticket;
    anchor = name;
    rule = rule;
    action = pf_change_add_tail;
  }

  -- The shape of `add_rule` and `add_scrub_rule`.
  plain-AppendsOne :
      (n : ℤ) (want : List ℕ → Submitted → Type 0) (fd : ℕ) (anchor : Str) (kind : AnchorKind)
      (encoded : Result Error PfRule)
      → ((name : List ℕ) (p : PfRule)
          → copy_anchor_name anchor (zeros 1024) ≡ ok name
          → encoded ≡ ok p
          → want name (p, []) × (V.ruleset_of p.action ≡ n))
      → AppendsOne n want (
          get_pool_ticket P K fd >>= λ pool_ticket. get_ticket P K fd anchor kind >>= λ ticket.
          lift (copy_anchor_name anchor zero_pfioc_rule.anchor) >>= λ name. lift encoded >>= λ p.
          ioctl_guard P (K.pf_change_rule fd) (tail_arg name p pool_ticket ticket) >> pure tt)
  plain-AppendsOne n want fd anchor kind encoded wanted s =
      let finish = λ (t u : ℕ) (name : List ℕ) (p : PfRule).
        ioctl_guard P (K.pf_change_rule fd) (tail_arg name p t u) >> pure tt in
      let copied = copy_anchor_name anchor (zeros 1024) in
      let s1 = (get_pool_ticket P K fd s).1 in
      let s2 = (get_ticket P K fd anchor kind s1).1 in
      bind-AppendsFrom n want (get_pool_ticket P K fd)
        (λ t. get_ticket P K fd anchor kind >>= λ u.
          lift copied >>= λ name. lift encoded >>= finish t u name)
        s (get_pool_ticket-IsStill fd)
        λ t h.
          bind-AppendsFrom n want (get_ticket P K fd anchor kind)
            (λ u. lift copied >>= λ name. lift encoded >>= finish t u name) s1
            (get_ticket-IsStill fd anchor kind)
            λ u _.
              bind-AppendsFrom n want (lift copied) (λ name. lift encoded >>= finish t u name) s2
                (lift-IsStill copied)
                λ name c.
                  bind-AppendsFrom n want (lift encoded) (finish t u name) s2 (lift-IsStill encoded)
                    λ p e.
                      finish-AppendsFrom n want fd (tail_arg name p t u) s2 [] refl
                        (wanted name p c e).1
                        (get_ticket-buffered fd anchor kind t s1
                          ∙ get_pool_ticket-clears P V L fd s t h)
                        (wanted name p c e).0

  -- The shape of `add_nat_rule` and `add_redirect_rule`, which set up a pool.
  pooled-AppendsOne :
      {X : Type 0} (n : ℤ) (want : List ℕ → Submitted → Type 0) (fd : ℕ) (anchor : Str)
      (kind : AnchorKind) (encoded : Result Error PfRule) (setup : PfRule → ℕ → Action K.State X)
      (addresses : Result Error (List PfPooladdr)) (with_pool : PfRule → X → PfRule)
      → ((p : PfRule) (t : ℕ) → IsStill (setup p t))
      → ((p : PfRule) (t : ℕ) → Pools P V L (setup p t) t addresses)
      → ((name : List ℕ) (p : PfRule) (t : ℕ) (x : X) (s : K.State) (l : List PfPooladdr)
          → copy_anchor_name anchor (zeros 1024) ≡ ok name
          → encoded ≡ ok p
          → (setup p t s).0 ≡ ok x
          → addresses ≡ ok l
          → want name (with_pool p x, l) × (V.ruleset_of (with_pool p x).action ≡ n))
      → AppendsOne n want (
          lift (copy_anchor_name anchor zero_pfioc_rule.anchor) >>= λ name. lift encoded >>= λ p.
          get_pool_ticket P K fd >>= λ pool_ticket. setup p pool_ticket >>= λ x.
          get_ticket P K fd anchor kind >>= λ ticket.
          ioctl_guard P (K.pf_change_rule fd) (tail_arg name (with_pool p x) pool_ticket ticket)
          >> pure tt)
  pooled-AppendsOne {X} n want fd anchor kind encoded setup addresses with_pool still pours wanted
        s =
      let finish = λ (name : List ℕ) (p : PfRule) (t : ℕ) (x : X) (u : ℕ).
        ioctl_guard P (K.pf_change_rule fd) (tail_arg name (with_pool p x) t u) >> pure tt in
      let copied = copy_anchor_name anchor (zeros 1024) in
      let ticketed = λ (name : List ℕ) (p : PfRule) (t : ℕ) (x : X).
        get_ticket P K fd anchor kind >>= finish name p t x in
      let pooled = λ (name : List ℕ) (p : PfRule) (t : ℕ). setup p t >>= ticketed name p t in
      let s1 = (get_pool_ticket P K fd s).1 in
      bind-AppendsFrom n want (lift copied)
        (λ name. lift encoded >>= λ p. get_pool_ticket P K fd >>= pooled name p) s
        (lift-IsStill copied)
        λ name c.
          bind-AppendsFrom n want (lift encoded) (λ p. get_pool_ticket P K fd >>= pooled name p) s
            (lift-IsStill encoded)
            λ p e.
              bind-AppendsFrom n want (get_pool_ticket P K fd) (pooled name p) s
                (get_pool_ticket-IsStill fd)
                λ t h. bind-AppendsFrom n want (setup p t) (ticketed name p t) s1 (still p t) λ x q.
                  let (l, made, there) = pours p t s1 x q (get_pool_ticket-clears P V L fd s t h) in
                  let s2 = (setup p t s1).1 in
                  bind-AppendsFrom n want (get_ticket P K fd anchor kind) (finish name p t x) s2
                    (get_ticket-IsStill fd anchor kind)
                    λ u _.
                      let (w, number) = wanted name p t x s1 l c e q made in
                      finish-AppendsFrom n want fd (tail_arg name (with_pool p x) t u)
                        (get_ticket P K fd anchor kind s2).1 l refl number
                        (get_ticket-buffered fd anchor kind t s2 ∙ there) w

  -- A rule of any kind that is added on its own: if the call succeeds, then the rule stands, as
  -- its encoding with its pool and with the encoded address of that pool, at the end of the
  -- active ruleset of its kind at the anchor, and every other ruleset is as before; if the call
  -- fails, then every active ruleset is as before. The encoding of a filter rule is without the
  -- pool of its route.
  pub add_any-AppendsOne :
      (self : PfCtl) (anchor : Str) (rule : AnyRule P)
      → AppendsOne (ruleset_to_i32 (kind_of rule)) (Sent anchor rule) (add_any P K self anchor rule)
  unfolding add_rule add_nat_rule add_redirect_rule add_scrub_rule
  add_any-AppendsOne self anchor (filter r) =
      plain-AppendsOne (ruleset_to_i32 RulesetKind.filter) (Sent anchor (filter r)) self.file anchor
        AnchorKind.filter (Filter.try_copy_to r zero_rule)
        (λ name p c e. (
          (c, ap plain_submission e),
          ap V.ruleset_of (filter-action r zero_rule e) ∙ filter_ruleset P V L r.action,
        ))
  add_any-AppendsOne self anchor (nat r) =
      pooled-AppendsOne (ruleset_to_i32 RulesetKind.nat) (Sent anchor (nat r)) self.file anchor
        AnchorKind.nat (Nat.try_copy_to r zero_rule)
        (λ p t. setup_nat_pool P K self.file (get_nat_to r) t p.rpool)
        (nat_addresses (get_nat_to r)) (λ p x. record p { rpool = x })
        (λ p t k b. (nat_pool-IsQuiet P V L self.file (get_nat_to r) t p.rpool k b).0)
        (λ p t. nat_pool-Pools P V L self.file (get_nat_to r) t p.rpool)
        (λ name p t x s l c e q made. (
          (
            c,
            nat_submission-eq P V L r e
                (nat_pool-pure P V L self.file (get_nat_to r) t p.rpool s x q) made,
          ),
          ap V.ruleset_of (nat-action r zero_rule e) ∙ nat_ruleset_of P V L r.action,
        ))
  add_any-AppendsOne self anchor (redirect r) =
      pooled-AppendsOne (ruleset_to_i32 RulesetKind.redirect) (Sent anchor (redirect r)) self.file
        anchor AnchorKind.redirect (Redirect.try_copy_to r zero_rule)
        (λ p t. setup_endpoint_pool P K self.file r.redirect_to t p.rpool)
        (address_of (from_ip r.redirect_to.ip)) (λ p x. record p { rpool = x })
        (λ p t k b. (endpoint_pool-IsQuiet P V L self.file r.redirect_to t p.rpool k b).0)
        (λ p t. endpoint_pool-Pools P V L self.file r.redirect_to t p.rpool)
        (λ name p t x s l c e q made. (
          (
            c,
            redirect_submission-eq P V L r e
                (endpoint_pool-pure P V L self.file r.redirect_to t p.rpool s x q) made,
          ),
          ap V.ruleset_of (redirect-action r zero_rule e) ∙ redirect_ruleset P V L r.action,
        ))
  add_any-AppendsOne self anchor (scrub r) =
      plain-AppendsOne (ruleset_to_i32 RulesetKind.scrub) (Sent anchor (scrub r)) self.file anchor
        AnchorKind.scrub (Scrub.try_copy_to r zero_rule)
        (λ name p c e. (
          (c, scrub_submission-eq P V L r e refl),
          ap V.ruleset_of (scrub-action r zero_rule e) ∙ scrub_ruleset_of P V L r.action,
        ))
