-- ===== src/Pfctl/Finding.antt =====
-- The search of `with_anchor_rule` over the anchors of a kernel that lists them.
use mathlib.Core.Path.{subst}
use pfctl_rs.Common.{
  ℕ, zero, suc, ◌+◌, ◌≡◌, refl, sym, ap, ◌∙◌, ◌≢◌, inl, inr, Bool, true, false, Option, none, some,
  List, [], ◌∷◌, length, bytes_eq, bytes_eq_iff, Bool-cases, if◌then◌else◌, arith,
}
use pfctl_rs.Error.{Error, Result, ok, err}
use pfctl_rs.Cstr.{Str, until_nul, compare_cstr_safe}
use pfctl_rs.Platform.{Platform}
use pfctl_rs.Ffi.{PfiocRule, zero_pfioc_rule, pf_get_none}
use pfctl_rs.Kernel.{Kernel, Action, lift, ◌>>=◌, ioctl_error, ioctl_guard}
use pfctl_rs.Kernel.Laws.{>>=-ok, ioctl_guard-ok}
use pfctl_rs.Anchor.{AnchorKind, anchor_to_u8}
use pfctl_rs.Pfctl.{PfCtl, compare, find_anchor, with_anchor_rule}

-- The number of the first anchor with the name, counted from `i`.
unfoldable pub position : Str → ℕ → List Str → Option ℕ
position name i [] = none
position name i (a ∷ anchors) =
    let rest = position name (suc i) anchors in if bytes_eq name a then some i else rest

abbrev pub nth : ℕ → List Str → Option Str
nth i [] = none
nth zero (a ∷ anchors) = some a
nth (suc i) (a ∷ anchors) = nth i anchors

-- A kernel state in which the anchors of this kind are the given ones, after pf(4): DIOCGETRULES
-- gives their number, DIOCGETRULE the anchor with the number that is asked for, its name ended by a
-- null byte, both keep the action that names the kind, and neither changes anything.
pub record ListsAnchors (K : Kernel) (fd : ℕ) (kind : AnchorKind) (anchors : List Str) (s : K.State)
    : Type 0 where
  pub counts :
      (a : PfiocRule)
      → a.rule.action ≡ anchor_to_u8 kind
      → ((K.pf_get_rules fd a s).0.ret ≢ ioctl_error)
        × ((K.pf_get_rules fd a s).0.arg.nr ≡ length anchors)
        × ((K.pf_get_rules fd a s).0.arg.rule.action ≡ anchor_to_u8 kind)
        × ((K.pf_get_rules fd a s).1 ≡ s)
  pub gives :
      (a : PfiocRule) (name : Str)
      → a.rule.action ≡ anchor_to_u8 kind
      → nth a.nr anchors ≡ some name
      → ((K.pf_get_rule fd a s).0.ret ≢ ioctl_error)
        × ((K.pf_get_rule fd a s).0.arg.nr ≡ a.nr)
        × ((K.pf_get_rule fd a s).0.arg.rule.action ≡ anchor_to_u8 kind)
        × (until_nul (K.pf_get_rule fd a s).0.arg.anchor_call ≡ some name)
        × ((K.pf_get_rule fd a s).1 ≡ s)

module _ (P : Platform) (K : Kernel) {R : Type 0} (self : PfCtl) (kind : AnchorKind)
    (anchors : List Str) (s : K.State) (L : ListsAnchors K self.file kind anchors s) (name : Str)
    (f : PfiocRule → Action K.State R) where
  -- What the search for the name must do: run `f` on the anchor with the number, or report that
  -- there is none, without a change.
  abbrev pub Outcome : Option ℕ → Result Error R × K.State → Type 0
  Outcome none r = r ≡ (err Error.anchor_does_not_exist, s)
  Outcome (some i) r =
      (rule : PfiocRule) × (rule.nr ≡ i)
      × (rule.rule.action ≡ anchor_to_u8 kind)
      × (until_nul rule.anchor_call ≡ some name)
      × (r ≡ f rule s)

  abbrev get : PfiocRule → Action K.State PfiocRule
  get a = ioctl_guard P (K.pf_get_rule self.file) a

  -- What a round does once it has compared the names.
  abbrev next : ℕ → ℕ → PfiocRule → Bool → Action K.State R
  next i rounds found true = f found
  next i rounds found false = find_anchor P K self name f (suc i) rounds found

  compared :
      (found : PfiocRule) (anchor : Str)
      → until_nul found.anchor_call ≡ some anchor
      → compare name found ≡ ok (bytes_eq name anchor)
  unfolding compare_cstr_safe
  compared found anchor h = rw (h, compare_cstr_safe, compare) refl

  round :
      (i rounds : ℕ) (a : PfiocRule) (anchor : Str)
      → a.rule.action ≡ anchor_to_u8 kind
      → nth i anchors ≡ some anchor
      → (found : PfiocRule) × (found.nr ≡ i)
        × (found.rule.action ≡ anchor_to_u8 kind)
        × (until_nul found.anchor_call ≡ some anchor)
        × (find_anchor P K self name f i (suc rounds) a s
            ≡ next i rounds found (bytes_eq name anchor) s)
  unfolding find_anchor
  round i rounds a anchor act h =
      let arg = record a { nr = i } in
      let (ret, nr, kept, there, same) = L.gives arg anchor act h in
      let found = (K.pf_get_rule self.file arg s).0.arg in
      let rest = λ (x : PfiocRule). lift (compare name x) >>= λ same. next i rounds x same in
      (
        found,
        nr,
        kept,
        there,
        >>=-ok (get arg) rest s s found
              (ioctl_guard-ok P (K.pf_get_rule self.file) arg s s ret same)
            ∙ >>=-ok (lift (compare name found)) (next i rounds found) s s (bytes_eq name anchor)
                (ap (λ r. (r, s)) (compared found anchor there)),
      )

  -- The rounds over the anchors from number `i` on, which are `rest`.
  find_anchor-Outcome :
      (rest : List Str) (i : ℕ) (a : PfiocRule)
      → a.rule.action ≡ anchor_to_u8 kind
      → ((j : ℕ) → nth (i + j) anchors ≡ nth j rest)
      → Outcome (position name i rest) (find_anchor P K self name f i (length rest) a s)
  unfolding position find_anchor
  find_anchor-Outcome [] i a act h = refl
  find_anchor-Outcome (anchor ∷ rest) i a act h =
      let (found, nr, kept, there, q) =
        round i (length rest) a anchor act (ap (λ k. nth k anchors) (omega arith) ∙ h 0) in
      elim (Bool-cases (bytes_eq name anchor)) [
        | inl same ↦
            (let named : anchor ≡ name = sym ((bytes_eq_iff name anchor).0 same) in
              rw (same, position)
                (
                  found,
                  nr,
                  kept,
                  there ∙ ap some named,
                  q ∙ ap (λ b. next i (length rest) found b s) same,
                ))
        | inr other ↦
            (let later =
                find_anchor-Outcome rest (suc i) found kept
                  (λ j. ap (λ k. nth k anchors) (omega arith) ∙ h (suc j)) in
              let step = q ∙ ap (λ b. next i (length rest) found b s) other in
              rw (other, position)
                (subst (λ r. Outcome (position name (suc i) rest) r) (sym step) later))
      ]

  -- On a kernel that lists the anchors, `with_anchor_rule` runs `f` on the rule of the first anchor
  -- that has the name, and its result is that of `f`; if no anchor has the name, then the result is
  -- `AnchorDoesNotExist` and the kernel's state is as before.
  pub with_anchor_rule-Outcome :
      Outcome (position name 0 anchors) (with_anchor_rule P K self name kind f s)
  unfolding with_anchor_rule
  with_anchor_rule-Outcome =
      let arg = record zero_pfioc_rule {
        rule = record zero_pfioc_rule.rule { action = anchor_to_u8 kind };
      } in
      let (ret, nr, kept, same) = L.counts arg refl in
      let got = (K.pf_get_rules self.file arg s).0.arg in
      let start =
        λ (r : PfiocRule). find_anchor P K self name f 0 r.nr (record r { action = pf_get_none }) in
      let begun =
        >>=-ok (ioctl_guard P (K.pf_get_rules self.file) arg) start s s got
          (ioctl_guard-ok P (K.pf_get_rules self.file) arg s s ret same) in
      let all =
        ap (λ n. find_anchor P K self name f 0 n (record got { action = pf_get_none }) s) nr in
      subst (λ r. Outcome (position name 0 anchors) r) (sym (begun ∙ all))
        (find_anchor-Outcome anchors 0 (record got { action = pf_get_none }) kept
          (λ j. ap (λ k. nth k anchors) (omega arith)))
