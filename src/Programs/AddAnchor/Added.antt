-- ===== src/Programs/AddAnchor/Added.antt =====
-- What examples/add_anchor.rs leaves.
use mathlib.Core.Path.{subst}
use pfctl_rs.Common.{ℕ, ◌≡◌, ◌≢◌, refl, sym, ap, ◌∙◌, inl, inr, List, [], ◌∷◌, Among}
use pfctl_rs.Error.{ok}
use pfctl_rs.Cstr.{Str}
use pfctl_rs.Platform.{Platform}
use pfctl_rs.Kernel.{Kernel, Action, ◌>>◌}
use pfctl_rs.Kernel.Laws.{>>=-eq-ok}
use pfctl_rs.Anchor.{AnchorKind}
use pfctl_rs.Pfctl.{PfCtl, new, try_add_anchor}
use pfctl_rs.Pfctl.AnchorLists.{with_name-Among}
use pfctl_rs.Pfctl.Anchoring.{KeepsAnchors, try_add_anchor-Changes}
use pfctl_rs.Pfctl.AnchorSets.{AnchorKind-cases}
use pfctl_rs.Programs.Main.{new-Keeps, expect, expect-eq-ok, with_pf-eq-ok}
use pfctl_rs.Programs.AddAnchor.{add_all, main}

-- A kernel that keeps anchors for every descriptor, and whose anchors opening and closing the device
-- leave alone.
pub record HasAnchors (P : Platform) (K : Kernel) (anchors : K.State → AnchorKind → List Str)
    : Type 0 where
  pub keeps : (fd : ℕ) → KeepsAnchors P K fd anchors
  pub open_keeps : (s : K.State) (k : AnchorKind) → anchors (K.open_pf s).1 k ≡ anchors s k
  pub close_keeps :
      (fd : ℕ) (s : K.State) (k : AnchorKind) → anchors (K.close_pf fd s) k ≡ anchors s k

module _ (P : Platform) (K : Kernel) (anchors : K.State → AnchorKind → List Str)
    (A : HasAnchors P K anchors) where
  -- Every anchor is still there, and those for NAT are the same.
  abbrev Grows : K.State → K.State → Type 0
  Grows s t =
      ((kind : AnchorKind) (name : Str) → Among name (anchors s kind) → Among name (anchors t kind))
      × (anchors t AnchorKind.nat ≡ anchors s AnchorKind.nat)

  Grows-trans : (s t u : K.State) → Grows s t → Grows t u → Grows s u
  Grows-trans s t u (a, n) (b, m) = ((λ kind name i. b kind name (a kind name i)), m ∙ n)

  -- An anchor that must be added, and the rest of a program.
  record Adding (name : Str) (kind : AnchorKind) (pf : PfCtl) (rest : Action K.State (Unit {0}))
      (s : K.State) : Type 0 where
    middle : K.State
    grows : Grows s middle
    there : Among name (anchors middle kind)
    succeeds : (rest middle).0 ≡ ok tt
    ends : ((expect (try_add_anchor P K pf name kind) >> rest) s).1 ≡ (rest middle).1

  add_first :
      (name : Str) (kind : AnchorKind) (pf : PfCtl) (rest : Action K.State (Unit {0})) (s : K.State)
      → kind ≢ AnchorKind.nat
      → ((expect (try_add_anchor P K pf name kind) >> rest) s).0 ≡ ok tt
      → Adding name kind pf rest s
  add_first name kind pf rest s d h =
      let add = try_add_anchor P K pf name kind in
      let (x, first, later, same) = >>=-eq-ok (expect add) (λ _. rest) s h in
      let (works, _, others) =
        try_add_anchor-Changes P K pf anchors (A.keeps pf.file) name kind s in
      let now = works (expect-eq-ok add s first) in
      let (there, before) = with_name-Among name (anchors s kind) in
      record {
        middle = (add s).1;
        grows = (
          λ k a m. elim (AnchorKind-cases k kind) [
            | inl e ↦ rw e (rw now (before a (rw e at m)))
            | inr other ↦ rw (others k other) m
          ],
          others AnchorKind.nat (λ e. d (sym e)),
        );
        there = rw now there;
        succeeds = later;
        ends = ap (λ r. r.1) same;
      }

  -- What the loop leaves for the names that it has been given.
  abbrev AddedAll : List Str → K.State → K.State → Type 0
  AddedAll names s t =
      Grows s t
      × ((name : Str) (kind : AnchorKind)
          → Among name names
          → kind ≢ AnchorKind.nat
          → Among name (anchors t kind))

  add_all-AddedAll :
      (pf : PfCtl) (names : List Str) (s : K.State)
      → (add_all P K pf names s).0 ≡ ok tt
      → AddedAll names s (add_all P K pf names s).1
  unfolding add_all
  add_all-AddedAll pf [] s h = (((λ kind name m. m), refl), (λ name kind m. absurd m))
  add_all-AddedAll pf (anchor ∷ names) s h =
      let add = λ (kind : AnchorKind). expect (try_add_anchor P K pf anchor kind) in
      let loop = add_all P K pf names in
      let f =
        add_first anchor AnchorKind.filter pf
          (add AnchorKind.redirect >> (add AnchorKind.scrub >> loop)) s (λ e. cc) h in
      let r =
        add_first anchor AnchorKind.redirect pf (add AnchorKind.scrub >> loop) f.middle (λ e. cc)
          f.succeeds in
      let c = add_first anchor AnchorKind.scrub pf loop r.middle (λ e. cc) r.succeeds in
      let (grows, added) = add_all-AddedAll pf names c.middle c.succeeds in
      let end = (loop c.middle).1 in
      let from_r = Grows-trans r.middle c.middle end c.grows grows in
      let from_f = Grows-trans f.middle r.middle end r.grows from_r in
      subst (AddedAll (anchor ∷ names) s) (sym (f.ends ∙ r.ends ∙ c.ends)) (
        Grows-trans s f.middle end f.grows from_f,
        λ name kind m d. elim m [
          | inl e ↦ rw e (
              each end (from_f.0 AnchorKind.filter anchor f.there)
                (from_r.0 AnchorKind.redirect anchor r.there)
                (grows.0 AnchorKind.scrub anchor c.there) kind d)
          | inr later ↦ added name kind later d
        ],
      )
    where
      each :
          (end : K.State)
          → Among anchor (anchors end AnchorKind.filter)
          → Among anchor (anchors end AnchorKind.redirect)
          → Among anchor (anchors end AnchorKind.scrub)
          → (kind : AnchorKind) → kind ≢ AnchorKind.nat
          → Among anchor (anchors end kind)
      each end f r c AnchorKind.filter d = f
      each end f r c AnchorKind.nat d = absurd (d refl)
      each end f r c AnchorKind.redirect d = r
      each end f r c AnchorKind.scrub d = c

  new_keeps : (s : K.State) (k : AnchorKind) → anchors (new P K s).1 k ≡ anchors s k
  new_keeps s k = new-Keeps P K (λ s. anchors s k) (λ s. A.open_keeps s k) s

  -- The program that adds anchors, if it ends without a panic, on a kernel that keeps anchors: every
  -- name that it was given is a filter, a redirect and a scrub anchor, every anchor that was there is
  -- there still, and the NAT anchors are as before.
  pub add_anchor_main-Added :
      (names : List Str) (s : K.State)
      → (main P K names s).0 ≡ ok tt
      → ((name : Str) (kind : AnchorKind)
          → Among name names
          → kind ≢ AnchorKind.nat
          → Among name (anchors (main P K names s).1 kind))
        × ((kind : AnchorKind) (name : Str)
            → Among name (anchors s kind)
            → Among name (anchors (main P K names s).1 kind))
        × (anchors (main P K names s).1 AnchorKind.nat ≡ anchors s AnchorKind.nat)
  unfolding main
  add_anchor_main-Added names s h =
      let body = λ (pf : PfCtl). add_all P K pf names in
      let (pf, opened, ran, ends) = with_pf-eq-ok P K body s h in
      let t = (new P K s).1 in
      let ((grows, nat), added) = add_all-AddedAll pf names t ran in
      let closing : (k : AnchorKind) → anchors (main P K names s).1 k ≡ anchors (body pf t).1 k =
        λ k. ap (λ z. anchors z k) ends ∙ A.close_keeps pf.file (body pf t).1 k in
      (
        λ name kind m d. rw (closing kind) (added name kind m d),
        λ kind name m. rw (closing kind) (grows kind name (rw (new_keeps s kind) m)),
        closing AnchorKind.nat ∙ nat ∙ new_keeps s AnchorKind.nat,
      )
