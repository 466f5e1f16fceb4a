-- ===== src/Tests/Kernels.antt =====
-- A kernel with rulesets, anchors, one state and one interface.
use mathlib.Core.Option.{get_or}
use pfctl_rs.Common.{
  ℕ, zero, suc, map, Option, none, some, ◌==◌, ◌≡◌, ◌≢◌, refl, sym, ap, ◌∙◌, inl, inr, Bool, true,
  false, ◌||◌, List, [], ◌∷◌, ◌++◌, length, take, bytes_eq_iff, leb, ◌↔◌, if◌then◌else◌, arith,
}
use pfctl_rs.Common.Int.{ℤ, pos, to_usize_or_zero, negsuc, eq_ℤ_iff}
use pfctl_rs.Cstr.{Str, until_nul}
use pfctl_rs.Ffi.{
  pf_pass, pf_change_add_tail, PfPooladdr, PfiocRule, PfiocTransElem, PfsyncState, PfiKif,
  zero_pfsync_state, zero_kif,
}
use pfctl_rs.Kernel.{Kernel, opened, Reply}
use pfctl_rs.Pfctl.Finding.{position}
use pfctl_rs.Transaction.Names.{Among}
use pfctl_rs.Transaction.Rulesets.{
  Submitted, Rulesets, IsTransactional, IsKey, SameElements, same_key,
}

pub record Pf : Type 0 where
  pub active : ℤ → List ℕ → List Submitted
  pub staged : ℤ → List ℕ → List Submitted
  -- The addresses that have been added under a pool ticket.
  pub pools : ℕ → List PfPooladdr
  -- The names of the anchors in their buffers, by the action of the kind.
  pub anchors : ℕ → List (List ℕ)

-- The name of the one anchor, "vpn".
abbrev pub vpn : Str
vpn = 118 ∷ 112 ∷ 110 ∷ []

abbrev pub empty : Pf
empty = record {
  active = λ k b. [];
  staged = λ k b. [];
  pools = λ t. [];
  anchors = λ action. if action == pf_pass then (vpn ++ (0 ∷ [])) ∷ [] else [];
}

abbrev pub done : {A : Type 0} → A → Reply A
done a = record { ret = pos 0; errno = 0; arg = a }

-- The inactive rulesets all have the same ticket.
abbrev pub tickets : ℕ → List PfiocTransElem → List PfiocTransElem
tickets n [] = []
tickets n (e ∷ es) = record e { ticket = n } ∷ tickets n es

abbrev has_key : ℤ → List ℕ → List PfiocTransElem → Bool
has_key k b [] = false
has_key k b (e ∷ es) = same_key k b e.rs_num e.anchor || has_key k b es

-- The ruleset of an action.
abbrev ruleset_of : ℕ → ℤ
ruleset_of action =
    if leb action 1
    then pos 1
    else if leb action 3
    then pos 0
    else if leb action 5
    then pos 2
    else pos 4

abbrev refused : {A : Type 0} → ℕ → A → Reply A
refused e a = record { ret = negsuc 0; errno = e; arg = a }

-- A rule that is added at the tail is active at once.
abbrev pub change : PfiocRule → Pf → Pf
change a s =
    if a.action == pf_change_add_tail
    then record s {
      active = λ k b.
          s.active k b
          ++ (if same_key k b (ruleset_of a.rule.action) a.anchor
              then (a.rule, s.pools a.pool_ticket) ∷ []
              else []);
    }
    else s

-- What a buffer names, and a buffer that has a null byte.
abbrev pub name_in : List ℕ → Str
name_in buffer = get_or (until_nul buffer) []

abbrev pub sealed : List ℕ → List ℕ
sealed buffer = elim (until_nul buffer) [ none ↦ 0 ∷ [] | some name ↦ buffer ]

abbrev pub nth_buffer : ℕ → List (List ℕ) → Option (List ℕ)
nth_buffer i [] = none
nth_buffer zero (b ∷ bs) = some b
nth_buffer (suc i) (b ∷ bs) = nth_buffer i bs

abbrev pub remove_buffer : ℕ → List (List ℕ) → List (List ℕ)
remove_buffer i [] = []
remove_buffer zero (b ∷ bs) = bs
remove_buffer (suc i) (b ∷ bs) = b ∷ remove_buffer i bs

-- The anchors of one action replaced.
abbrev pub with_anchors : ℕ → List (List ℕ) → Pf → Pf
with_anchors action bs s = record s { anchors = λ a. if a == action then bs else s.anchors a }

abbrev pub get_anchor : PfiocRule → Option (List ℕ) → Reply PfiocRule
get_anchor a none = refused 16 a
get_anchor a (some buffer) = done (record a { anchor_call = sealed buffer })

-- An insertion, from where the name is found.
abbrev pub insert_found : PfiocRule → Pf → Option ℕ → Reply PfiocRule × Pf
insert_found a s none =
    (done a, with_anchors a.rule.action (s.anchors a.rule.action ++ a.anchor_call ∷ []) s)
insert_found a s (some i) = (refused 17 a, s)

abbrev pub insert_at : PfiocRule → Option Str → Pf → Reply PfiocRule × Pf
insert_at a none s = (refused 22 a, s)
insert_at a (some name) s =
    insert_found a s (position name 0 (map name_in (s.anchors a.rule.action)))

abbrev add_to : PfiocRule → Pf → Pf
add_to a s = record s {
  staged = λ k b.
      s.staged k b
      ++ (if same_key k b (ruleset_of a.rule.action) a.anchor
          then (a.rule, s.pools a.pool_ticket) ∷ []
          else []);
}

-- The addresses under one pool ticket replaced.
abbrev with_pool : ℕ → List PfPooladdr → Pf → Pf
with_pool t l s = record s { pools = λ u. if u == t then l else s.pools u }

-- A buffer that has been replaced has the new addresses.
pool_replaced : (t : ℕ) (l l' : List PfPooladdr) → (if t == t then l else l') ≡ l
pool_replaced t l l' = ground arith

abbrev pub one_state : PfsyncState
one_state = record zero_pfsync_state { af_lan = 2; proto = 6; direction = 1 }

abbrev pub one_kif : PfiKif
one_kif = record zero_kif { pfik_name = 101 ∷ 110 ∷ 48 ∷ 0 ∷ [] }

abbrev pub demo : Kernel
demo = record {
  State = Pf;
  allocates = λ n s. true;
  open_pf = λ s. (opened 3, s);
  close_pf = λ fd s. s;
  pf_start = λ fd s. (done tt, s);
  pf_stop = λ fd s. (record { ret = negsuc 0; errno = 2; arg = tt }, s);
  pf_add_rule = λ fd a s. (done a, add_to a s);
  pf_get_rules = λ fd a s. (done (record a { nr = length (s.anchors a.rule.action) }), s);
  pf_get_rule = λ fd a s. (get_anchor a (nth_buffer a.nr (s.anchors a.rule.action)), s);
  pf_clear_states = λ fd a s. (done a, s);
  pf_get_status = λ fd a s. (done (record a { running = 1 }), s);
  pf_get_states = λ fd a s. (done (record a { ps_len = pos 297; psu_states = one_state ∷ [] }), s);
  pf_change_rule = λ fd a s. (done a, change a s);
  pf_insert_rule = λ fd a s. insert_at a (until_nul a.anchor_call) s;
  pf_delete_rule = λ fd a s.
      (done a, with_anchors a.rule.action (remove_buffer a.nr (s.anchors a.rule.action)) s);
  pf_kill_states = λ fd a s. (done (record a { psk_af = 1 }), s);
  pf_begin_addrs = λ fd a s. (done (record a { ticket = 7 }), with_pool 7 [] s);
  pf_add_addr = λ fd a s. (done a, with_pool a.ticket (s.pools a.ticket ++ a.addr ∷ []) s);
  pf_begin_trans = λ fd a s. (
    done (record a { array = tickets 1 a.array }),
    record s { staged = λ k b. if has_key k b a.array then [] else s.staged k b },
  );
  pf_commit_trans = λ fd a s. (
    done a,
    record s { active = λ k b. if has_key k b a.array then s.staged k b else s.active k b },
  );
  pf_get_ifaces = λ fd a s. (
    done (record a {
      pfiio_size = pos 1;
      pfiio_buffer = take (to_usize_or_zero a.pfiio_size) (one_kif ∷ []);
    }),
    s,
  );
  pf_set_iface_flag = λ fd a s. (done a, s);
  pf_clear_iface_flag = λ fd a s. (done a, s);
}

abbrev pub rulesets : Rulesets demo
rulesets = record {
  Entry = Submitted;
  image = λ r. r;
  ruleset_of = ruleset_of;
  active = λ s. s.active;
  staged = λ s. s.staged;
  buffered = λ s. s.pools;
}

same_key_iff : (k k' : ℤ) (b b' : List ℕ) → (same_key k b k' b' ≡ true) ↔ ((k' ≡ k) × (b' ≡ b))
same_key_iff k k' b b' = ground (arith, eq_ℤ_iff k k', bytes_eq_iff b b')

has_key-IsKey :
    (k : ℤ) (b : List ℕ) (es : List PfiocTransElem) (e : PfiocTransElem)
    → Among e es
    → IsKey e k b
    → has_key k b es ≡ true
has_key-IsKey k b [] e m h = elim m [ ]
has_key-IsKey k b (x ∷ es) e (inl q) h =
    let here : same_key k b x.rs_num x.anchor ≡ true =
      (same_key_iff k x.rs_num b x.anchor).1
        (ap (λ z. z.rs_num) (sym q) ∙ h.0, ap (λ z. z.anchor) (sym q) ∙ h.1) in
    rw here refl
has_key-IsKey k b (x ∷ es) e (inr m) h = let later = has_key-IsKey k b es e m h in ground arith

has_key-none :
    (k : ℤ) (b : List ℕ) (es : List PfiocTransElem)
    → ((e : PfiocTransElem) → Among e es → ¬ IsKey e k b)
    → has_key k b es ≡ false
has_key-none k b [] h = refl
has_key-none k b (x ∷ es) h =
    let later = has_key-none k b es (λ e m. h e (inr m)) in
    let not_here : same_key k b x.rs_num x.anchor ≢ true =
      λ q. h x (inl refl) ((same_key_iff k x.rs_num b x.anchor).0 q) in
    ground arith

same-tickets : (n : ℕ) (es : List PfiocTransElem) → SameElements es (tickets n es)
same-tickets n [] = tt
same-tickets n (e ∷ es) = (refl, refl, same-tickets n es)

pub demo-IsTransactional : IsTransactional demo rulesets
demo-IsTransactional = record {
  pass_ruleset = refl;
  drop_ruleset = refl;
  nat_ruleset = refl;
  nonat_ruleset = refl;
  rdr_ruleset = refl;
  nordr_ruleset = refl;
  scrub_ruleset = refl;
  noscrub_ruleset = refl;
  open_active = λ s k b. refl;
  close_active = λ fd s k b. refl;
  begin_addrs_active = λ fd a s k b. refl;
  begin_addrs_staged = λ fd a s k b. refl;
  begin_addrs_clears = λ fd a s r. refl;
  add_addr_appends = λ fd a s r. pool_replaced a.ticket (s.pools a.ticket ++ a.addr ∷ []) _;
  add_addr_active = λ fd a s k b. refl;
  add_addr_staged = λ fd a s k b. refl;
  begin_active = λ fd t s k b. refl;
  begin_grants = λ fd t s r. same-tickets 1 t.array;
  begin_clears = λ fd t s k b r e m h.
      ap (λ z. if z then [] else s.staged k b) (has_key-IsKey k b t.array e m h);
  add_active = λ fd a s k b. refl;
  add_appends = λ fd a s k b r. refl;
  commit_refused = λ fd t s k b h. absurd (ground arith);
  commit_swaps = λ fd t s k b r e m h.
      ap (λ z. if z then s.staged k b else s.active k b) (has_key-IsKey k b t.array e m h);
  commit_others = λ fd t s k b h.
      ap (λ z. if z then s.staged k b else s.active k b) (has_key-none k b t.array h);
}
