-- ===== src/Pfctl/AnchorSets.antt =====
-- The anchors of a kernel under the calls that add and remove them.
use mathlib.Core.Path.{subst}
use pfctl_rs.Common.{◌≡◌, ◌≢◌, refl, sym, ap, ◌∙◌, ◌⊎◌, inl, inr, none, List}
use pfctl_rs.Error.{Error, Result, ok, err, panic}
use pfctl_rs.Cstr.{Str}
use pfctl_rs.Platform.{Platform}
use pfctl_rs.Kernel.{Kernel}
use pfctl_rs.Anchor.{AnchorKind}
use pfctl_rs.Pfctl.{PfCtl, try_add_anchor, remove_anchor, try_remove_anchor}
use pfctl_rs.Pfctl.Finding.{position}
use pfctl_rs.Pfctl.Removing.{remove_anchor-try_remove_anchor}
use pfctl_rs.Pfctl.AnchorLists.{
  with_name, without_name, with_name-none, position-none-IsAbsent, without_name-append,
}
use pfctl_rs.Pfctl.Anchoring.{
  KeepsAnchors, Changes, try_add_anchor-Changes, try_remove_anchor-Changes,
}

pub AnchorKind-discrete : Discrete AnchorKind
AnchorKind-discrete = hlevel

pub AnchorKind-cases : (k kind : AnchorKind) → (k ≡ kind) ⊎ (k ≢ kind)
AnchorKind-cases k kind = elim (AnchorKind-discrete k kind) [ yes e ↦ inl e | no d ↦ inr d ]

-- A call of `try_add_anchor` or of `try_remove_anchor`.
pub data Call : Type 0 where
  try_add try_remove : Str → AnchorKind → Call

abbrev pub kind_of : Call → AnchorKind
kind_of (try_add name kind) = kind
kind_of (try_remove name kind) = kind

-- What the call is meant to do to the list of the anchors of its kind.
abbrev pub meant : Call → List Str → List Str
meant (try_add name kind) = with_name name
meant (try_remove name kind) = without_name name

abbrev chosen : {X : Type 0} → Dec X → List Str → List Str → List Str
chosen (yes e) here there = here
chosen (no d) here there = there

chosen-eq :
    {X : Type 0} (d : Dec X) {l here there : List Str}
    → (X → l ≡ here)
    → (¬ X → l ≡ there)
    → l ≡ chosen d here there
chosen-eq (yes e) f g = f e
chosen-eq (no d) f g = g d

-- The anchors of every kind after a call, by whether it has succeeded.
abbrev pub step : Call → Result Error (Unit {0}) → (AnchorKind → List Str) → AnchorKind → List Str
step c (ok x) lists k = chosen (AnchorKind-discrete k (kind_of c)) (meant c (lists k)) (lists k)
step c (err e) lists k = lists k
step c panic lists k = lists k

module _ (P : Platform) (K : Kernel) (self : PfCtl) where
  abbrev pub run_call : Call → K.State → Result Error (Unit {0}) × K.State
  run_call (try_add name kind) s = try_add_anchor P K self name kind s
  run_call (try_remove name kind) s = try_remove_anchor P K self name kind s

  -- What can be reached by calls, in any order and with any results.
  pub data Reach (s : K.State) : K.State → Type 0 where
    here : Reach s s
    next : {t : K.State} → Reach s t → (c : Call) → Reach s (run_call c t).1

  -- The lists that the calls are meant to lead to, given which of them have succeeded.
  unfoldable pub followed :
      {s t : K.State} → (AnchorKind → List Str) → Reach s t → AnchorKind → List Str
  followed lists here = lists
  followed lists (next {t} r c) = step c (run_call c t).0 (followed lists r)

  module _ (anchors : K.State → AnchorKind → List Str)
      (A : KeepsAnchors P K self.file anchors) where
    -- On a kernel that keeps anchors, `try_add_anchor` and `try_remove_anchor` do to the list of
    -- the anchors of the kind what adding a missing name at the end, and removing the first entry
    -- of a name, does to a list, if they succeed; if not then they leave it as it was; and the
    -- anchors of the other kinds stay as they were in any case. If no anchor has the name then
    -- `remove_anchor` reports that the anchor does not exist and `try_remove_anchor` is a success,
    -- both without a change.
    pub try_add_anchor-try_remove_anchor :
        (name : Str) (kind : AnchorKind) (s : K.State)
        → Changes P K self anchors A name kind
            (with_name name)
            s
            (try_add_anchor P K self name kind s)
          × Changes P K self anchors A name kind
              (without_name name)
              s
              (try_remove_anchor P K self name kind s)
          × (position name 0 (anchors s kind) ≡ none
              → (remove_anchor P K self name kind s ≡ (err Error.anchor_does_not_exist, s))
                × (try_remove_anchor P K self name kind s ≡ (ok tt, s)))
    try_add_anchor-try_remove_anchor name kind s = (
      try_add_anchor-Changes P K self anchors A name kind s,
      try_remove_anchor-Changes P K self anchors A name kind s,
      remove_anchor-try_remove_anchor P K self kind (anchors s kind) s (A.lists s kind) name,
    )

    Changes-step :
        (c : Call) (s s' : K.State) (r : Result Error (Unit {0})) (k : AnchorKind)
        → (r ≡ ok tt → anchors s' (kind_of c) ≡ meant c (anchors s (kind_of c)))
        → (r ≢ ok tt → anchors s' (kind_of c) ≡ anchors s (kind_of c))
        → ((k : AnchorKind) → k ≢ kind_of c → anchors s' k ≡ anchors s k)
        → anchors s' k ≡ step c r (anchors s) k
    Changes-step c s s' (ok x) k works fails others =
        chosen-eq (AnchorKind-discrete k (kind_of c))
          (λ e. subst (λ z. anchors s' z ≡ meant c (anchors s z)) (sym e) (works refl)) (others k)
    Changes-step c s s' (err e) k works fails others = elim (AnchorKind-cases k (kind_of c)) [
      | inl e ↦ subst (λ z. anchors s' z ≡ anchors s z) (sym e) (fails (λ h. cc))
      | inr d ↦ others k d
    ]
    Changes-step c s s' panic k works fails others = elim (AnchorKind-cases k (kind_of c)) [
      | inl e ↦ subst (λ z. anchors s' z ≡ anchors s z) (sym e) (fails (λ h. cc))
      | inr d ↦ others k d
    ]

    run_call-step :
        (c : Call) (s : K.State) (k : AnchorKind)
        → anchors (run_call c s).1 k ≡ step c (run_call c s).0 (anchors s) k
    run_call-step (try_add name kind) s k =
        let (works, fails, others) = try_add_anchor-Changes P K self anchors A name kind s in
        Changes-step (try_add name kind) s _ (try_add_anchor P K self name kind s).0 k works fails
          others
    run_call-step (try_remove name kind) s k =
        let (works, fails, others) = try_remove_anchor-Changes P K self anchors A name kind s in
        Changes-step (try_remove name kind) s _ (try_remove_anchor P K self name kind s).0 k works
          fails others

    step-same :
        (c : Call) (r : Result Error (Unit {0})) (l l' : AnchorKind → List Str) (k : AnchorKind)
        → l k ≡ l' k
        → step c r l k ≡ step c r l' k
    step-same c (ok x) l l' k h =
        ap (λ z. chosen (AnchorKind-discrete k (kind_of c)) (meant c z) z) h
    step-same c (err e) l l' k h = h
    step-same c panic l l' k h = h

    -- However `try_add_anchor` and `try_remove_anchor` are called, for whatever anchors, in whatever
    -- order and with whatever results: on a kernel that keeps anchors, the anchors of every kind are
    -- always the lists that one gets from those at the start if each call that has succeeded does
    -- to the list of its own kind what it is meant to do, and each other call does nothing.
    pub Reach-followed :
        {s s' : K.State} (r : Reach s s') (k : AnchorKind) → anchors s' k ≡ followed (anchors s) r k
    unfolding followed
    Reach-followed here k = refl
    Reach-followed {s} (next {t} r c) k =
        run_call-step c t k
        ∙ step-same c (run_call c t).0 (anchors t) (followed (anchors s) r) k (Reach-followed r k)

    -- An anchor that was missing is added and removed again by two calls that succeed: the anchors
    -- of every kind are then those from before.
    pub add_anchor-remove_anchor :
        (name : Str) (kind : AnchorKind) (s : K.State)
        → position name 0 (anchors s kind) ≡ none
        → (try_add_anchor P K self name kind s).0 ≡ ok tt
        → (try_remove_anchor P K self name kind (try_add_anchor P K self name kind s).1).0 ≡ ok tt
        → (k : AnchorKind)
        → anchors (try_remove_anchor P K self name kind (try_add_anchor P K self name kind s).1).1 k
          ≡ anchors s k
    add_anchor-remove_anchor name kind s absent added removed k =
        let t = (try_add_anchor P K self name kind s).1 in
        let (add_works, _, add_others) = try_add_anchor-Changes P K self anchors A name kind s in
        let (works, _, others) = try_remove_anchor-Changes P K self anchors A name kind t in
        elim (AnchorKind-cases k kind) [
          | inl same ↦ rw same (
              works removed
              ∙ ap (without_name name) (add_works added ∙ with_name-none name _ absent)
              ∙ without_name-append name (anchors s kind)
                  (position-none-IsAbsent name 0 (anchors s kind) absent))
          | inr other ↦ others k other ∙ add_others k other
        ]
