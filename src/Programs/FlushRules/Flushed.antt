-- ===== src/Programs/FlushRules/Flushed.antt =====
-- What examples/flush_rules.rs leaves.
use mathlib.Core.Path.{subst}
use pfctl_rs.Common.{ℕ, ◌≡◌, ◌≢◌, refl, sym, ap, ◌∙◌, ◌⊎◌, inl, inr, List, [], ◌∷◌, Among}
use pfctl_rs.Common.Int.{ℤ}
use pfctl_rs.Error.{ok}
use pfctl_rs.Cstr.{Str, zeros}
use pfctl_rs.Platform.{Platform}
use pfctl_rs.Kernel.{Kernel, Action, ◌>>◌}
use pfctl_rs.Kernel.Laws.{>>=-eq-ok}
use pfctl_rs.Anchor.{RulesetKind, ruleset_to_i32}
use pfctl_rs.Utils.{copy_anchor_name}
use pfctl_rs.Transaction.{new_transaction, add_change, insert}
use pfctl_rs.Transaction.Rulesets.{Rulesets, IsTransactional}
use pfctl_rs.Transaction.Order.{is_written_as}
use pfctl_rs.Transaction.Atomic.{commit-others}
use pfctl_rs.Pfctl.{PfCtl, new, flush_rules, flush_change}
use pfctl_rs.Pfctl.Flushing.{flush_rules-empty}
use pfctl_rs.Programs.Main.{new-Keeps, expect, expect-eq-ok, with_pf-eq-ok}
use pfctl_rs.Programs.FlushRules.{flush_all, main}

module _ (P : Platform) {K : Kernel} (V : Rulesets K) (L : IsTransactional K V) where
  new_active : (s : K.State) (k : ℤ) (b : List ℕ) → V.active (new P K s).1 k b ≡ V.active s k b
  new_active s k b = new-Keeps P K (λ s. V.active s k b) (λ s. L.open_active s k b) s

  -- The active ruleset of a kind.
  abbrev rules : K.State → RulesetKind → List ℕ → List V.Entry
  rules s kind b = V.active s (ruleset_to_i32 kind) b

  -- Each ruleset is empty or as before.
  abbrev OnlyEmpties : K.State → K.State → Type 0
  OnlyEmpties s s' =
      (kind : RulesetKind) (b : List ℕ)
      → (rules s' kind b ≡ []) ⊎ (rules s' kind b ≡ rules s kind b)

  OnlyEmpties-trans : (s t u : K.State) → OnlyEmpties s t → OnlyEmpties t u → OnlyEmpties s u
  OnlyEmpties-trans s t u h g kind b = elim (g kind b) [
    | inl nothing ↦ inl nothing
    | inr same ↦ elim (h kind b) [
      | inl nothing ↦ inl (same ∙ nothing)
      | inr before ↦ inr (same ∙ before)
    ]
  ]

  still_empty :
      (s t : K.State) (kind : RulesetKind) (b : List ℕ)
      → OnlyEmpties s t
      → rules s kind b ≡ []
      → rules t kind b ≡ []
  still_empty s t kind b h e = elim (h kind b) [ inl nothing ↦ nothing | inr same ↦ same ∙ e ]

  other_kind : (kind : RulesetKind) → (other : RulesetKind) × (other ≢ kind)
  other_kind RulesetKind.filter = (RulesetKind.nat, λ h. cc)
  other_kind RulesetKind.nat = (RulesetKind.filter, λ h. cc)
  other_kind RulesetKind.redirect = (RulesetKind.filter, λ h. cc)
  other_kind RulesetKind.scrub = (RulesetKind.filter, λ h. cc)

  kind_cases : (k kind : RulesetKind) → (k ≡ kind) ⊎ (k ≢ kind)
  kind_cases k kind = elim (kind_discrete k kind) [ yes e ↦ inl e | no d ↦ inr d ]
    where
      kind_discrete : Discrete RulesetKind
      kind_discrete = hlevel

  module _ (self : PfCtl) (anchor : Str) (flushed : RulesetKind) (s : K.State)
      (h : (flush_rules P K self anchor flushed s).0 ≡ ok tt) where
    abbrev after : K.State
    after = (flush_rules P K self anchor flushed s).1

    emptied :
        (b : List ℕ) → copy_anchor_name anchor (zeros 1024) ≡ ok b → rules after flushed b ≡ []
    emptied b named =
        let (other, d) = other_kind flushed in
        (flush_rules-empty P V L self s anchor b named flushed other d h).0

    untouched_at :
        (b : List ℕ)
        → copy_anchor_name anchor (zeros 1024) ≢ ok b
        → (kind : RulesetKind) → rules after kind b ≡ rules s kind b
    unfolding flush_rules add_change insert
    untouched_at b elsewhere kind =
        commit-others P V L (add_change anchor (flush_change P K flushed) (new_transaction P)) s
          (ruleset_to_i32 kind) b
          (λ name change m q. elim m [
            | inl e ↦ elsewhere (ap (λ z. copy_anchor_name z.0 (zeros 1024)) (sym e) ∙ q)
            | inr nowhere ↦ absurd nowhere
          ])
          h

    flush-OnlyEmpties : OnlyEmpties s after
    flush-OnlyEmpties kind b = elim (is_written_as anchor b) [
      | inl named ↦ elim (kind_cases kind flushed) [
        | inl same ↦ inl (rw same (emptied b named))
        | inr other ↦ inr (flush_rules-empty P V L self s anchor b named flushed kind other h).1
      ]
      | inr elsewhere ↦ inr (untouched_at b elsewhere kind)
    ]

  -- A flush that must succeed, and the rest of a program.
  record Flush (self : PfCtl) (anchor : Str) (flushed : RulesetKind)
      (rest : Action K.State (Unit {0})) (s : K.State) : Type 0 where
    middle : K.State
    empties : OnlyEmpties s middle
    named : (b : List ℕ) → copy_anchor_name anchor (zeros 1024) ≡ ok b → rules middle flushed b ≡ []
    others :
        (b : List ℕ)
        → copy_anchor_name anchor (zeros 1024) ≢ ok b
        → (kind : RulesetKind) → rules middle kind b ≡ rules s kind b
    succeeds : (rest middle).0 ≡ ok tt
    ends : ((expect (flush_rules P K self anchor flushed) >> rest) s).1 ≡ (rest middle).1

  flush_rules-Flush :
      (self : PfCtl) (anchor : Str) (flushed : RulesetKind) (rest : Action K.State (Unit {0}))
      (s : K.State)
      → ((expect (flush_rules P K self anchor flushed) >> rest) s).0 ≡ ok tt
      → Flush self anchor flushed rest s
  flush_rules-Flush self anchor flushed rest s h =
      let flush = flush_rules P K self anchor flushed in
      let (x, first, later, same) = >>=-eq-ok (expect flush) (λ _. rest) s h in
      let done : (flush s).0 ≡ ok tt = expect-eq-ok flush s first in
      record {
        middle = (flush s).1;
        empties = flush-OnlyEmpties self anchor flushed s done;
        named = emptied self anchor flushed s done;
        others = untouched_at self anchor flushed s done;
        succeeds = later;
        ends = ap (λ r. r.1) same;
      }

  -- What the loop leaves for the names that it has been given.
  record FlushedAll (names : List Str) (s s' : K.State) : Type 0 where
    empties : OnlyEmpties s s'
    named :
        (name : Str) (b : List ℕ)
        → Among name names
        → copy_anchor_name name (zeros 1024) ≡ ok b
        → (kind : RulesetKind) → rules s' kind b ≡ []
    others :
        (b : List ℕ)
        → ((name : Str) → Among name names → copy_anchor_name name (zeros 1024) ≢ ok b)
        → (kind : RulesetKind) → rules s' kind b ≡ rules s kind b

  -- Four flushes of an anchor, and what the loop leaves for the other names.
  FlushedAll-cons :
      (anchor : Str) (names : List Str) (s t u v w z : K.State)
      → OnlyEmpties s t
      → OnlyEmpties t u
      → OnlyEmpties u v
      → OnlyEmpties v w
      → ((b : List ℕ)
          → copy_anchor_name anchor (zeros 1024) ≡ ok b
          → (rules t RulesetKind.filter b ≡ [])
            × (rules u RulesetKind.nat b ≡ [])
            × (rules v RulesetKind.redirect b ≡ [])
            × (rules w RulesetKind.scrub b ≡ []))
      → ((b : List ℕ)
          → copy_anchor_name anchor (zeros 1024) ≢ ok b
          → (kind : RulesetKind) → rules w kind b ≡ rules s kind b)
      → FlushedAll names w z
      → FlushedAll (anchor ∷ names) s z
  FlushedAll-cons anchor names s t u v w z st tu uv vw here elsewhere l =
      let vz = OnlyEmpties-trans v w z vw l.empties in
      let uz = OnlyEmpties-trans u v z uv vz in
      let tz = OnlyEmpties-trans t u z tu uz in
      record {
        empties = OnlyEmpties-trans s t z st tz;
        named = λ name b m copied kind. elim m [
          | inl e ↦
              all_kinds t u v w z b tz uz vz l.empties
                (here b (ap (λ a. copy_anchor_name a (zeros 1024)) (sym e) ∙ copied)) kind
          | inr later ↦ l.named name b later copied kind
        ];
        others = λ b e kind.
            l.others b (λ name m. e name (inr m)) kind ∙ elsewhere b (e anchor (inl refl)) kind;
      }
    where
      all_kinds :
          (t u v w z : K.State) (b : List ℕ)
          → OnlyEmpties t z
          → OnlyEmpties u z
          → OnlyEmpties v z
          → OnlyEmpties w z
          → (rules t RulesetKind.filter b ≡ [])
            × (rules u RulesetKind.nat b ≡ [])
            × (rules v RulesetKind.redirect b ≡ [])
            × (rules w RulesetKind.scrub b ≡ [])
          → (kind : RulesetKind) → rules z kind b ≡ []
      all_kinds t u v w z b tz uz vz wz e RulesetKind.filter =
          still_empty t z RulesetKind.filter b tz e.0
      all_kinds t u v w z b tz uz vz wz e RulesetKind.nat = still_empty u z RulesetKind.nat b uz e.1
      all_kinds t u v w z b tz uz vz wz e RulesetKind.redirect =
          still_empty v z RulesetKind.redirect b vz e.2
      all_kinds t u v w z b tz uz vz wz e RulesetKind.scrub =
          still_empty w z RulesetKind.scrub b wz e.3

  flush_all-FlushedAll :
      (pf : PfCtl) (names : List Str) (s : K.State)
      → (flush_all P K pf names s).0 ≡ ok tt
      → FlushedAll names s (flush_all P K pf names s).1
  unfolding flush_all
  flush_all-FlushedAll pf [] s h = record {
    empties = λ kind b. inr refl;
    named = λ name b m. absurd m;
    others = λ b e kind. refl;
  }
  flush_all-FlushedAll pf (anchor ∷ names) s h =
      let flush = λ (kind : RulesetKind). expect (flush_rules P K pf anchor kind) in
      let loop = flush_all P K pf names in
      let f =
        flush_rules-Flush pf anchor RulesetKind.filter
          (flush RulesetKind.nat
            >> (flush RulesetKind.redirect >> (flush RulesetKind.scrub >> loop)))
          s h in
      let n =
        flush_rules-Flush pf anchor RulesetKind.nat
          (flush RulesetKind.redirect >> (flush RulesetKind.scrub >> loop)) f.middle f.succeeds in
      let r =
        flush_rules-Flush pf anchor RulesetKind.redirect (flush RulesetKind.scrub >> loop) n.middle
          n.succeeds in
      let c = flush_rules-Flush pf anchor RulesetKind.scrub loop r.middle r.succeeds in
      subst (FlushedAll (anchor ∷ names) s) (sym (f.ends ∙ n.ends ∙ r.ends ∙ c.ends)) (
        FlushedAll-cons anchor names s f.middle n.middle r.middle c.middle (loop c.middle).1
          f.empties n.empties r.empties c.empties
          (λ b copied. (f.named b copied, n.named b copied, r.named b copied, c.named b copied))
          (λ b e kind.
            c.others b e kind ∙ r.others b e kind ∙ n.others b e kind ∙ f.others b e kind)
          (flush_all-FlushedAll pf names c.middle c.succeeds))

  -- The program that flushes rules, if it ends without a panic, on a kernel with the documented
  -- transactions: every active ruleset, of every kind, of every anchor that it was given is empty,
  -- and the rulesets at a name that is not that of any of them are as before.
  pub flush_rules_main-Flushed :
      (names : List Str) (s : K.State)
      → (main P K names s).0 ≡ ok tt
      → ((name : Str) (b : List ℕ)
          → Among name names
          → copy_anchor_name name (zeros 1024) ≡ ok b
          → (kind : RulesetKind) → V.active (main P K names s).1 (ruleset_to_i32 kind) b ≡ [])
        × ((b : List ℕ)
            → ((name : Str) → Among name names → copy_anchor_name name (zeros 1024) ≢ ok b)
            → (kind : RulesetKind)
            → V.active (main P K names s).1 (ruleset_to_i32 kind) b
              ≡ V.active s (ruleset_to_i32 kind) b)
  unfolding main
  flush_rules_main-Flushed names s h =
      let body = λ (pf : PfCtl). flush_all P K pf names in
      let (pf, opened, ran, ends) = with_pf-eq-ok P K body s h in
      let t = (new P K s).1 in
      let l = flush_all-FlushedAll pf names t ran in
      let closing : (k : RulesetKind) (b : List ℕ)
          → rules (main P K names s).1 k b ≡ rules (body pf t).1 k b =
        λ k b.
          ap (λ z. V.active z (ruleset_to_i32 k) b) ends
          ∙ L.close_active pf.file (body pf t).1 (ruleset_to_i32 k) b in
      (
        λ name b m copied kind. closing kind b ∙ l.named name b m copied kind,
        λ b e kind. closing kind b ∙ l.others b e kind ∙ new_active s (ruleset_to_i32 kind) b,
      )
