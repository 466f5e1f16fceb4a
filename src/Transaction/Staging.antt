-- ===== src/Transaction/Staging.antt =====
-- What adding one rule does to the inactive rulesets.
use pfctl_rs.Common.{arith, ℕ, ◌≡◌, refl, ap, ◌∙◌, List, [], ◌∷◌, ◌++◌, if◌then◌else◌}
use pfctl_rs.Common.Int.{ℤ}
use pfctl_rs.Error.{Error, Result, ok}
use pfctl_rs.Platform.{Platform}
use pfctl_rs.Ffi.{PfRule, PfPooladdr, PfiocPooladdr, PfiocRule, zero_pooladdr, zero_pfioc_pooladdr}
use pfctl_rs.Kernel.{Kernel, Action, pure, lift, ◌>>=◌, ◌>>◌, ioctl_guard}
use pfctl_rs.Kernel.Laws.{>>=-eq-ok, ioctl_guard-eq-ok}
use pfctl_rs.Kernel.Keeps.{Keeps, bind-Keeps, lift-Keeps, ioctl_guard-Keeps}
use pfctl_rs.Rule.PoolAddr
use pfctl_rs.Rule.PoolAddr.{PoolAddr}
use pfctl_rs.Utils.{add_pool_address, get_pool_ticket}
use pfctl_rs.Transaction.Submission.{address_of}
use pfctl_rs.Transaction.Rulesets.{Rulesets, IsTransactional, same_key}

module _ (P : Platform) {K : Kernel} (V : Rulesets K) (L : IsTransactional K V) where
  -- Neither the active nor the inactive rulesets change.
  abbrev pub IsQuiet : {A : Type 0} → Action K.State A → Type 0
  IsQuiet m = (k : ℤ) (b : List ℕ) → Keeps (λ s. V.active s k b) m × Keeps (λ s. V.staged s k b) m

  pub bind-IsQuiet :
      {A B : Type 0} (m : Action K.State A) (f : A → Action K.State B)
      → IsQuiet m
      → ((a : A) → IsQuiet (f a))
      → IsQuiet (m >>= f)
  bind-IsQuiet m f hm hf k b = (
    bind-Keeps (λ s. V.active s k b) m f (hm k b).0 (λ a. (hf a k b).0),
    bind-Keeps (λ s. V.staged s k b) m f (hm k b).1 (λ a. (hf a k b).1),
  )

  pub lift-IsQuiet : {A : Type 0} (r : Result Error A) → IsQuiet (lift r)
  lift-IsQuiet r k b = (λ s. refl, λ s. refl)

  begin_addrs-IsQuiet :
      (fd : ℕ) (a : PfiocPooladdr) → IsQuiet (ioctl_guard P (K.pf_begin_addrs fd) a)
  begin_addrs-IsQuiet fd a k b = (
    ioctl_guard-Keeps (λ s. V.active s k b) P (K.pf_begin_addrs fd) a
        (λ s. L.begin_addrs_active fd a s k b),
    ioctl_guard-Keeps (λ s. V.staged s k b) P (K.pf_begin_addrs fd) a
        (λ s. L.begin_addrs_staged fd a s k b),
  )

  add_addr-IsQuiet : (fd : ℕ) (a : PfiocPooladdr) → IsQuiet (ioctl_guard P (K.pf_add_addr fd) a)
  add_addr-IsQuiet fd a k b = (
    ioctl_guard-Keeps (λ s. V.active s k b) P (K.pf_add_addr fd) a
        (λ s. L.add_addr_active fd a s k b),
    ioctl_guard-Keeps (λ s. V.staged s k b) P (K.pf_add_addr fd) a
        (λ s. L.add_addr_staged fd a s k b),
  )

  pub get_pool_ticket-IsQuiet : (fd : ℕ) → IsQuiet (get_pool_ticket P K fd)
  unfolding get_pool_ticket
  get_pool_ticket-IsQuiet fd =
      bind-IsQuiet (ioctl_guard P (K.pf_begin_addrs fd) zero_pfioc_pooladdr) (λ a. pure a.ticket)
        (begin_addrs-IsQuiet fd zero_pfioc_pooladdr) (λ a. lift-IsQuiet (ok a.ticket))

  abbrev pooladdr_arg : ℕ → PfPooladdr → PfiocPooladdr
  pooladdr_arg ticket addr = record zero_pfioc_pooladdr { ticket = ticket; addr = addr }

  pub add_pool_address-IsQuiet :
      (fd : ℕ) (a : PoolAddr P) (ticket : ℕ) → IsQuiet (add_pool_address P K fd a ticket)
  unfolding add_pool_address
  add_pool_address-IsQuiet fd a ticket =
      let encoded = PoolAddr.try_copy_to a zero_pfioc_pooladdr.addr in
      bind-IsQuiet (lift encoded)
        (λ addr. ioctl_guard P (K.pf_add_addr fd) (pooladdr_arg ticket addr) >> pure tt)
        (lift-IsQuiet encoded)
        (λ addr.
          bind-IsQuiet (ioctl_guard P (K.pf_add_addr fd) (pooladdr_arg ticket addr)) (λ r. pure tt)
            (add_addr-IsQuiet fd (pooladdr_arg ticket addr)) (λ r. lift-IsQuiet (ok tt)))

  -- A run that fills an empty buffer with the given addresses when it succeeds.
  abbrev pub Pools : {A : Type 0} → Action K.State A → ℕ → Result Error (List PfPooladdr) → Type 0
  Pools {A} m t addresses =
      (s : K.State) (a : A)
      → (m s).0 ≡ ok a
      → V.buffered s t ≡ []
      → (l : List PfPooladdr) × (addresses ≡ ok l) × (V.buffered (m s).1 t ≡ l)

  pub lift-Pools : {A : Type 0} (r : Result Error A) (t : ℕ) → Pools (lift r) t (ok [])
  lift-Pools r t s a h e = ([], refl, e)

  -- What comes after does not touch the state.
  pub bind-Pools :
      {A B : Type 0} (m : Action K.State A) (f : A → Action K.State B) (t : ℕ)
      {addresses : Result Error (List PfPooladdr)}
      → Pools m t addresses
      → ((a : A) (s : K.State) → (f a s).1 ≡ s)
      → Pools (m >>= f) t addresses
  bind-Pools m f t hm still s b h e =
      let (a, ran, rest, q) = >>=-eq-ok m f s h in
      let (l, encoded, there) = hm s a ran e in
      (
        l,
        encoded,
        ap (λ z. V.buffered z.1 t) q ∙ ap (λ z. V.buffered z t) (still a (m s).1) ∙ there,
      )

  add_addr-Pools :
      (fd : ℕ) (addr : PfPooladdr) (t : ℕ)
      → Pools (ioctl_guard P (K.pf_add_addr fd) (pooladdr_arg t addr)) t (ok (addr ∷ []))
  add_addr-Pools fd addr t s a h e =
      let (ret, _, same) = ioctl_guard-eq-ok P (K.pf_add_addr fd) (pooladdr_arg t addr) s h in
      (
        addr ∷ [],
        refl,
        ap (λ z. V.buffered z t) same
            ∙ L.add_addr_appends fd (pooladdr_arg t addr) s ret
            ∙ ap (λ l. l ++ (addr ∷ [])) e,
      )

  -- Adding the address of a pool fills the buffer with its encoding.
  pub add_pool_address-Pools :
      (fd : ℕ) (a : PoolAddr P) (t : ℕ) → Pools (add_pool_address P K fd a t) t (address_of a)
  unfolding add_pool_address address_of
  add_pool_address-Pools fd a t s u h e =
      let add =
        λ (addr : PfPooladdr). ioctl_guard P (K.pf_add_addr fd) (pooladdr_arg t addr) >> pure tt in
      let (addr, encoded, rest, q) =
        >>=-eq-ok (lift (PoolAddr.try_copy_to a zero_pooladdr)) add s h in
      let (l, made, there) =
        bind-Pools (ioctl_guard P (K.pf_add_addr fd) (pooladdr_arg t addr)) (λ _. pure tt) t
          (add_addr-Pools fd addr t) (λ _ _. refl) s tt rest e in
      (l, rw encoded made, ap (λ z. V.buffered z.1 t) q ∙ there)

  -- The buffer of a pool ticket that has just been given out is empty.
  pub get_pool_ticket-clears :
      (fd : ℕ) (s : K.State) (t : ℕ)
      → (get_pool_ticket P K fd s).0 ≡ ok t
      → V.buffered (get_pool_ticket P K fd s).1 t ≡ []
  unfolding get_pool_ticket
  get_pool_ticket-clears fd s t h =
      let call = ioctl_guard P (K.pf_begin_addrs fd) zero_pfioc_pooladdr in
      let (a, ran, rest, q) = >>=-eq-ok call (λ a. pure a.ticket) s h in
      let (ret, granted, same) =
        ioctl_guard-eq-ok P (K.pf_begin_addrs fd) zero_pfioc_pooladdr s ran in
      let ticket : t ≡ (K.pf_begin_addrs fd zero_pfioc_pooladdr s).0.arg.ticket =
        (let same_ticket : t ≡ a.ticket = ground arith in same_ticket)
        ∙ ap (λ z. z.ticket) granted in
      ap (λ z. V.buffered z.1 t) q
      ∙ ap (λ z. V.buffered z t) same
      ∙ ap (λ z. V.buffered (K.pf_begin_addrs fd zero_pfioc_pooladdr s).1 z) ticket
      ∙ L.begin_addrs_clears fd zero_pfioc_pooladdr s ret

  -- The shape that the four functions share: the name, the encoding, a ticket for the pool, the
  -- pool, and the call.
  abbrev pub add_shape :
      {X : Type 0}
      → ℕ
      → Result Error (List ℕ)
      → Result Error PfRule
      → (PfRule → ℕ → Action K.State X)
      → (List ℕ → PfRule → ℕ → X → PfiocRule)
      → Action K.State (Unit {0})
  add_shape fd copied encoded setup arg = do
    name ← lift copied
    pf_rule ← lift encoded
    pool_ticket ← get_pool_ticket P K fd
    x ← setup pf_rule pool_ticket
    ioctl_guard P (K.pf_add_rule fd) (arg name pf_rule pool_ticket x)
    pure tt

  -- The entry that a call adds to the ruleset of a key.
  abbrev pub entry_for : PfiocRule → List PfPooladdr → ℤ → List ℕ → List V.Entry
  entry_for a l k b =
      if same_key k b (V.ruleset_of a.rule.action) a.anchor then V.image (a.rule, l) ∷ [] else []

  -- A run that changes no ruleset comes first: it has succeeded, and what the rest appends is
  -- appended by the whole.
  record Then {A : Type 0} (m : Action K.State A) (f : A → Action K.State (Unit {0})) (s : K.State)
      : Type 0 where
    a : A
    ran : (m s).0 ≡ ok a
    rest : (f a (m s).1).0 ≡ ok tt
    appended :
        (k : ℤ) (b : List ℕ) (l : List V.Entry)
        → V.staged (f a (m s).1).1 k b ≡ V.staged (m s).1 k b ++ l
        → V.staged ((m >>= f) s).1 k b ≡ V.staged s k b ++ l

  quiet_first :
      {A : Type 0} (m : Action K.State A) (f : A → Action K.State (Unit {0}))
      → IsQuiet m
      → (s : K.State) → ((m >>= f) s).0 ≡ ok tt
      → Then m f s
  quiet_first {A} m f quiet s h = from (>>=-eq-ok m f s h)
    where
      from :
          (a : A) × ((m s).0 ≡ ok a) × ((f a (m s).1).0 ≡ ok tt) × ((m >>= f) s ≡ f a (m s).1)
          → Then m f s
      from (a, e, rest, q) = record {
        a = a;
        ran = e;
        rest = rest;
        appended = λ k b l g. ap (λ r. V.staged r.1 k b) q ∙ g ∙ ap (λ z. z ++ l) ((quiet k b).1 s);
      }

  abbrev finish : ℕ → PfiocRule → Action K.State (Unit {0})
  finish fd rule = ioctl_guard P (K.pf_add_rule fd) rule >> pure tt

  finish-appends :
      (fd : ℕ) (rule : PfiocRule) (s : K.State)
      → (finish fd rule s).0 ≡ ok tt
      → (k : ℤ) (b : List ℕ)
      → V.staged (finish fd rule s).1 k b
        ≡ V.staged s k b ++ entry_for rule (V.buffered s rule.pool_ticket) k b
  finish-appends fd rule s h k b = from (>>=-eq-ok call (λ r. pure tt) s h)
    where
      call : Action K.State PfiocRule
      call = ioctl_guard P (K.pf_add_rule fd) rule

      from :
          (a : PfiocRule) × ((call s).0 ≡ ok a)
            × ((pure tt (call s).1).0 ≡ ok tt)
            × (finish fd rule s ≡ pure tt (call s).1)
          → V.staged (finish fd rule s).1 k b
            ≡ V.staged s k b ++ entry_for rule (V.buffered s rule.pool_ticket) k b
      from (a, e, rest, q) =
          let done = ioctl_guard-eq-ok P (K.pf_add_rule fd) rule s e in
          ap (λ r. V.staged r.1 k b) q
          ∙ ap (λ z. V.staged z k b) done.2
          ∙ L.add_appends fd rule s k b done.0

  finish-Keeps :
      (fd : ℕ) (rule : PfiocRule) (k : ℤ) (b : List ℕ)
      → Keeps (λ s. V.active s k b) (finish fd rule)
  finish-Keeps fd rule k b =
      let F = λ (s : K.State). V.active s k b in
      bind-Keeps F (ioctl_guard P (K.pf_add_rule fd) rule) (λ r. pure tt)
        (ioctl_guard-Keeps F P (K.pf_add_rule fd) rule (λ s. L.add_active fd rule s k b))
        (λ r. lift-Keeps F (ok tt))

  -- What has been called when it succeeds, and the entry that it has added.
  pub record Added {X : Type 0} (copied : Result Error (List ℕ)) (encoded : Result Error PfRule)
      (pool : PfRule → Result Error X) (addresses : Result Error (List PfPooladdr))
      (arg : List ℕ → PfRule → ℕ → X → PfiocRule) (s s' : K.State) : Type 0 where
    pub name : List ℕ
    pub pf_rule : PfRule
    pub ticket : ℕ
    pub x : X
    pub buffer : List PfPooladdr
    pub copied_ok : copied ≡ ok name
    pub encoded_ok : encoded ≡ ok pf_rule
    pub pool_ok : pool pf_rule ≡ ok x
    pub addresses_ok : addresses ≡ ok buffer
    pub appended :
        (k : ℤ) (b : List ℕ)
        → V.staged s' k b ≡ V.staged s k b ++ entry_for (arg name pf_rule ticket x) buffer k b

  module _ {X : Type 0} (fd : ℕ) (copied : Result Error (List ℕ)) (encoded : Result Error PfRule)
      (setup : PfRule → ℕ → Action K.State X) (arg : List ℕ → PfRule → ℕ → X → PfiocRule)
      (pool : PfRule → Result Error X) (addresses : Result Error (List PfPooladdr))
      (keyed : (name : List ℕ) (p : PfRule) (t : ℕ) (x : X) → (arg name p t x).pool_ticket ≡ t)
      (pours : (p : PfRule) (t : ℕ) → Pools (setup p t) t addresses)
      (quiet : (p : PfRule) (t : ℕ) → IsQuiet (setup p t))
      (pure_pool : (p : PfRule) (t : ℕ) (s : K.State) (x : X)
        → (setup p t s).0 ≡ ok x
        → pool p ≡ ok x) where
    moved :
        (s s' t t' : K.State)
        → Added copied encoded pool addresses arg s s'
        → ((k : ℤ) (b : List ℕ) (l : List V.Entry)
            → V.staged s' k b ≡ V.staged s k b ++ l
            → V.staged t' k b ≡ V.staged t k b ++ l)
        → Added copied encoded pool addresses arg t t'
    moved s s' t t' d up = record {
      name = d.name;
      pf_rule = d.pf_rule;
      ticket = d.ticket;
      x = d.x;
      buffer = d.buffer;
      copied_ok = d.copied_ok;
      encoded_ok = d.encoded_ok;
      pool_ok = d.pool_ok;
      addresses_ok = d.addresses_ok;
      appended = λ k b. up k b _ (d.appended k b);
    }

    -- The rest of the run, from each of its parts on.
    abbrev with_ticket : List ℕ → PfRule → ℕ → Action K.State (Unit {0})
    with_ticket name p t = setup p t >>= λ x. finish fd (arg name p t x)

    abbrev with_rule : List ℕ → PfRule → Action K.State (Unit {0})
    with_rule name p = get_pool_ticket P K fd >>= λ t. with_ticket name p t

    abbrev with_name : List ℕ → Action K.State (Unit {0})
    with_name name = lift encoded >>= λ p. with_rule name p

    with_ticket-Added :
        (name : List ℕ) (p : PfRule) (t : ℕ) (s : K.State)
        → (copied ≡ ok name)
        → (encoded ≡ ok p)
        → V.buffered s t ≡ []
        → (with_ticket name p t s).0 ≡ ok tt
        → Added copied encoded pool addresses arg s (with_ticket name p t s).1
    with_ticket-Added name p t s e1 e2 clear h =
        let d = quiet_first (setup p t) (λ x. finish fd (arg name p t x)) (quiet p t) s h in
        let (l, made, there) = pours p t s d.a d.ran clear in
        record {
          name = name;
          pf_rule = p;
          ticket = t;
          x = d.a;
          buffer = l;
          copied_ok = e1;
          encoded_ok = e2;
          pool_ok = pure_pool p t s d.a d.ran;
          addresses_ok = made;
          appended = λ k b. d.appended k b _ (
              finish-appends fd (arg name p t d.a) (setup p t s).1 d.rest k b
              ∙ ap (λ z. V.staged (setup p t s).1 k b ++ entry_for (arg name p t d.a) z k b)
                  (ap (V.buffered (setup p t s).1) (keyed name p t d.a) ∙ there));
        }

    with_rule-Added :
        (name : List ℕ) (p : PfRule) (s : K.State)
        → (copied ≡ ok name)
        → (encoded ≡ ok p)
        → (with_rule name p s).0 ≡ ok tt
        → Added copied encoded pool addresses arg s (with_rule name p s).1
    with_rule-Added name p s e1 e2 h =
        let d =
          quiet_first (get_pool_ticket P K fd) (λ t. with_ticket name p t)
            (get_pool_ticket-IsQuiet fd) s h in
        let added =
          with_ticket-Added name p d.a (get_pool_ticket P K fd s).1 e1 e2
            (get_pool_ticket-clears fd s d.a d.ran) d.rest in
        moved _ _ _ _ added d.appended

    pub add_shape-Added :
        (s : K.State)
        → (add_shape fd copied encoded setup arg s).0 ≡ ok tt
        → Added copied encoded pool addresses arg s (add_shape fd copied encoded setup arg s).1
    add_shape-Added s h =
        let d = quiet_first (lift copied) (λ name. with_name name) (lift-IsQuiet copied) s h in
        let e = quiet_first (lift encoded) (λ p. with_rule d.a p) (lift-IsQuiet encoded) s d.rest in
        let added = with_rule-Added d.a e.a s d.ran e.ran e.rest in
        moved _ _ _ _ added (λ k b l g. d.appended k b l (e.appended k b l g))

  -- However the run ends, the active rulesets are as before.
  pub add_shape-Keeps :
      {X : Type 0} (fd : ℕ) (copied : Result Error (List ℕ)) (encoded : Result Error PfRule)
      (setup : PfRule → ℕ → Action K.State X) (arg : List ℕ → PfRule → ℕ → X → PfiocRule)
      → ((p : PfRule) (t : ℕ) → IsQuiet (setup p t))
      → (k : ℤ) (b : List ℕ) → Keeps (λ s. V.active s k b) (add_shape fd copied encoded setup arg)
  add_shape-Keeps fd copied encoded setup arg quiet k b =
      let F = λ (s : K.State). V.active s k b in
      bind-Keeps F (lift copied)
        (λ name. lift encoded >>= λ p.
          get_pool_ticket P K fd >>= λ t. setup p t >>= λ x. finish fd (arg name p t x))
        (lift-Keeps F copied)
        (λ name.
          bind-Keeps F (lift encoded)
            (λ p. get_pool_ticket P K fd >>= λ t. setup p t >>= λ x. finish fd (arg name p t x))
            (lift-Keeps F encoded)
            (λ p.
              bind-Keeps F (get_pool_ticket P K fd)
                (λ t. setup p t >>= λ x. finish fd (arg name p t x))
                (get_pool_ticket-IsQuiet fd k b).0
                (λ t.
                  bind-Keeps F (setup p t) (λ x. finish fd (arg name p t x)) (quiet p t k b).0
                    (λ x. finish-Keeps fd (arg name p t x) k b))))
