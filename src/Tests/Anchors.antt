-- ===== src/Tests/Anchors.antt =====
-- The small kernel keeps anchors, and the theorems on anchors there.
use mathlib.Core.Path.{subst}
use mathlib.Core.Option.{get_or}
use pfctl_rs.Common.{
  ℕ, zero, suc, ◌≡◌, ◌≢◌, refl, sym, ap, ◌∙◌, Option, none, some, List, [], ◌∷◌, ◌++◌, map, length,
  true, false, ==_iff, ◌==◌, Bool-cases, inl, inr, if◌then◌else◌, arith,
}
use pfctl_rs.Common.Int.{pos}
use pfctl_rs.Error.{Error, ok, err}
use pfctl_rs.Cstr.{Str, zeros, until_nul}
use pfctl_rs.Ffi.{PfiocRule}
use pfctl_rs.Kernel.{Kernel, ioctl_error, Reply}
use pfctl_rs.Anchor.{AnchorKind, anchor_to_u8}
use pfctl_rs.Pfctl.{PfCtl, try_add_anchor, remove_anchor, try_remove_anchor}
use pfctl_rs.Pfctl.Finding.{ListsAnchors, nth, position}
use pfctl_rs.Pfctl.AnchorLists.{remove_nth, with_name, without_name}
use pfctl_rs.Pfctl.Anchoring.{KeepsAnchors, Changes}
use pfctl_rs.Pfctl.Removing.{remove_anchor-try_remove_anchor}
use pfctl_rs.Pfctl.AnchorSets.{
  Reach, Call, here, next, followed, Reach-followed, try_add_anchor-try_remove_anchor,
  add_anchor-remove_anchor,
}
use pfctl_rs.Tests.Platforms.{macos}
use pfctl_rs.Tests.Kernels.{
  Pf, empty, vpn, demo, name_in, sealed, nth_buffer, remove_buffer, with_anchors, get_anchor,
  insert_at, insert_found,
}

abbrev pub names : Pf → AnchorKind → List Str
names s kind = map name_in (s.anchors (anchor_to_u8 kind))

not_error : pos 0 ≢ ioctl_error
not_error h = ground arith

length-names : (bs : List (List ℕ)) → length bs ≡ length (map name_in bs)
length-names [] = refl
length-names (b ∷ bs) = ap suc (length-names bs)

sealed-until_nul : (buffer : List ℕ) → until_nul (sealed buffer) ≡ some (name_in buffer)
unfolding until_nul
sealed-until_nul buffer = go (until_nul buffer) refl
  where
    go :
        (o : Option Str)
        → until_nul buffer ≡ o
        → until_nul (elim o [ none ↦ 0 ∷ [] | some name ↦ buffer ]) ≡ some (get_or o [])
    go none e = refl
    go (some name) e = e

nth-nth_buffer :
    (i : ℕ) (bs : List (List ℕ)) (name : Str)
    → nth i (map name_in bs) ≡ some name
    → (buffer : List ℕ) × (nth_buffer i bs ≡ some buffer) × (name_in buffer ≡ name)
nth-nth_buffer i [] name h = absurd (ground arith)
nth-nth_buffer zero (b ∷ bs) name h = (b, refl, ground arith)
nth-nth_buffer (suc i) (b ∷ bs) name h = nth-nth_buffer i bs name h

names-remove :
    (i : ℕ) (bs : List (List ℕ)) → map name_in (remove_buffer i bs) ≡ remove_nth i (map name_in bs)
names-remove i [] = refl
names-remove zero (b ∷ bs) = refl
names-remove (suc i) (b ∷ bs) = ap (λ l. name_in b ∷ l) (names-remove i bs)

names-append :
    (bs : List (List ℕ)) (b : List ℕ)
    → map name_in (bs ++ b ∷ []) ≡ map name_in bs ++ name_in b ∷ []
names-append [] b = refl
names-append (x ∷ bs) b = ap (λ l. name_in x ∷ l) (names-append bs b)

got :
    (a : PfiocRule) (name : Str) (o : Option (List ℕ)) {buffer : List ℕ}
    → o ≡ some buffer
    → name_in buffer ≡ name
    → ((get_anchor a o).ret ≢ ioctl_error)
      × ((get_anchor a o).arg.nr ≡ a.nr)
      × ((get_anchor a o).arg.rule.action ≡ a.rule.action)
      × (until_nul (get_anchor a o).arg.anchor_call ≡ some name)
got a name none e q = absurd (ground arith)
got a name (some b) e q =
    (not_error, refl, refl, sealed-until_nul b ∙ ap some (ap name_in (ground arith) ∙ q))

demo-lists : (fd : ℕ) (s : Pf) (kind : AnchorKind) → ListsAnchors demo fd kind (names s kind) s
demo-lists fd s kind = record {
  counts = λ a e. (
    not_error,
    ap (λ k. length (s.anchors k)) e ∙ length-names (s.anchors (anchor_to_u8 kind)),
    e,
    refl,
  );
  gives = λ a name e h.
      let bs = s.anchors (anchor_to_u8 kind) in
      let (buffer, there, named) = nth-nth_buffer a.nr bs name h in
      let (ret, nr, action, read) =
        got a name (nth_buffer a.nr (s.anchors a.rule.action))
          (ap (λ k. nth_buffer a.nr (s.anchors k)) e ∙ there) named in
      (ret, nr, action ∙ e, read, refl);
}

same_action : (k k' : ℕ) → k ≡ k' → (k == k') ≡ true
same_action k k' h = (==_iff k k').1 h

other_action : (k k' : ℕ) → k ≢ k' → (k' == k) ≡ false
other_action k k' h = elim (Bool-cases (k' == k)) [
  | inl same ↦ absurd (h (sym ((==_iff k' k).0 same)))
  | inr other ↦ other
]

-- The anchors of the kind that was changed, and of another.
with_anchors-same :
    (action : ℕ) (bs : List (List ℕ)) (s : Pf) (kind : AnchorKind)
    → action ≡ anchor_to_u8 kind
    → names (with_anchors action bs s) kind ≡ map name_in bs
with_anchors-same action bs s kind h =
    ap (λ z. map name_in (if z then bs else s.anchors (anchor_to_u8 kind)))
      (same_action (anchor_to_u8 kind) action (sym h))

with_anchors-other :
    (action : ℕ) (bs : List (List ℕ)) (s : Pf) (kind : AnchorKind)
    → action ≢ anchor_to_u8 kind
    → names (with_anchors action bs s) kind ≡ names s kind
with_anchors-other action bs s kind h =
    ap (λ z. map name_in (if z then bs else s.anchors (anchor_to_u8 kind)))
      (other_action action (anchor_to_u8 kind) h)

module _ (a : PfiocRule) (s : Pf) where
  abbrev buffers : List (List ℕ)
  buffers = s.anchors a.rule.action

  abbrev inserted : Reply PfiocRule × Pf
  inserted = demo.pf_insert_rule 3 a s

  insert_cases :
      (kind : AnchorKind) (name : Str) {o : Option ℕ}
      → a.rule.action ≡ anchor_to_u8 kind
      → until_nul a.anchor_call ≡ some name
      → position name 0 (names s kind) ≡ o
      → inserted ≡ insert_found a s o
  insert_cases kind name act read e =
      ap (λ n. insert_at a n s) read
      ∙ ap (insert_found a s) (ap (λ k. position name 0 (map name_in (s.anchors k))) act ∙ e)

  appended :
      (kind : AnchorKind) (name : Str)
      → a.rule.action ≡ anchor_to_u8 kind
      → until_nul a.anchor_call ≡ some name
      → names (insert_found a s none).1 kind ≡ names s kind ++ name ∷ []
  appended kind name act read =
      with_anchors-same a.rule.action (buffers ++ a.anchor_call ∷ []) s kind act
      ∙ names-append buffers a.anchor_call
      ∙ ap (λ k. map name_in (s.anchors k) ++ name_in a.anchor_call ∷ []) act
      ∙ ap (λ n. names s kind ++ get_or n [] ∷ []) read

  exists_refused :
      (kind : AnchorKind) (name : Str)
      → a.rule.action ≡ anchor_to_u8 kind
      → until_nul a.anchor_call ≡ some name
      → position name 0 (names s kind) ≢ none
      → (inserted.0.ret ≡ ioctl_error) × (inserted.0.errno ≡ macos.eexist)
  exists_refused kind name act read there = go (position name 0 (names s kind)) refl
    where
      go :
          (o : Option ℕ)
          → position name 0 (names s kind) ≡ o
          → (inserted.0.ret ≡ ioctl_error) × (inserted.0.errno ≡ macos.eexist)
      go none e = absurd (there e)
      go (some i) e =
          let q = insert_cases kind name act read e in (ap (λ r. r.0.ret) q, ap (λ r. r.0.errno) q)

  -- Whatever an insertion finds, it leaves the other kinds, and all kinds if it fails.
  insert_keeps :
      (k : AnchorKind) (n : Option Str)
      → ((insert_at a n s).0.ret ≡ ioctl_error → names (insert_at a n s).1 k ≡ names s k)
        × (a.rule.action ≢ anchor_to_u8 k → names (insert_at a n s).1 k ≡ names s k)
  insert_keeps k none = ((λ h. refl), (λ h. refl))
  insert_keeps k (some name) = go (position name 0 (map name_in buffers))
    where
      go :
          (o : Option ℕ)
          → ((insert_found a s o).0.ret ≡ ioctl_error → names (insert_found a s o).1 k ≡ names s k)
            × (a.rule.action ≢ anchor_to_u8 k → names (insert_found a s o).1 k ≡ names s k)
      go none = (
        (λ h. absurd (not_error h)),
        with_anchors-other a.rule.action (buffers ++ a.anchor_call ∷ []) s k,
      )
      go (some i) = ((λ h. refl), (λ h. refl))

pub demo-KeepsAnchors : (fd : ℕ) → KeepsAnchors macos demo fd names
demo-KeepsAnchors fd = record {
  lists = demo-lists fd;
  inserts = λ a s kind name act read absent done.
      ap (λ r. names r.1 kind) (insert_cases a s kind name act read absent)
      ∙ appended a s kind name act read;
  exists = exists_refused;
  missing = λ a s kind name act read absent failed.
      absurd
        (not_error (sym (ap (λ r. r.0.ret) (insert_cases a s kind name act read absent)) ∙ failed));
  insert_refused = λ a s k failed. (insert_keeps a s k (until_nul a.anchor_call)).0 failed;
  insert_others = λ a s k other. (insert_keeps a s k (until_nul a.anchor_call)).1 other;
  deletes = λ a s kind act done.
      with_anchors-same a.rule.action (remove_buffer a.nr (s.anchors a.rule.action)) s kind act
      ∙ names-remove a.nr (s.anchors a.rule.action)
      ∙ ap (λ k. remove_nth a.nr (map name_in (s.anchors k))) act;
  delete_refused = λ a s k failed. absurd (not_error failed);
  delete_others = λ a s k other.
      with_anchors-other a.rule.action (remove_buffer a.nr (s.anchors a.rule.action)) s k other;
}

abbrev pf : PfCtl
pf = record { file = 3 }

vpn_only : names empty AnchorKind.filter ≡ vpn ∷ []
unfolding until_nul
vpn_only = refl

pub demo-ListsAnchors : ListsAnchors demo 3 AnchorKind.filter (vpn ∷ []) empty
demo-ListsAnchors =
    subst (λ l. ListsAnchors demo 3 AnchorKind.filter l empty) vpn_only
      (demo-lists 3 empty AnchorKind.filter)

-- A second anchor, "m".
abbrev pub mail : Str
mail = 109 ∷ []

abbrev mail_reached :
    Reach macos demo pf empty (try_add_anchor macos demo pf mail AnchorKind.filter empty).1
mail_reached = next here (Call.try_add mail AnchorKind.filter)

Reach-followed_example :
    names (try_add_anchor macos demo pf mail AnchorKind.filter empty).1 AnchorKind.filter
    ≡ followed macos demo pf (names empty) mail_reached AnchorKind.filter
Reach-followed_example =
    Reach-followed macos demo pf names (demo-KeepsAnchors 3) mail_reached AnchorKind.filter

mail_absent : position mail 0 (names empty AnchorKind.filter) ≡ none
unfolding position pfctl_rs.Common.bytes_eq until_nul
mail_absent = refl

try_add_anchor-try_remove_anchor_example :
    Changes macos demo pf names
      (demo-KeepsAnchors 3)
      mail
      AnchorKind.filter
      (with_name mail)
      empty
      (try_add_anchor macos demo pf mail AnchorKind.filter empty)
    × Changes macos demo pf names
        (demo-KeepsAnchors 3)
        mail
        AnchorKind.filter
        (without_name mail)
        empty
        (try_remove_anchor macos demo pf mail AnchorKind.filter empty)
    × (position mail 0 (names empty AnchorKind.filter) ≡ none
        → (remove_anchor macos demo pf mail AnchorKind.filter empty
            ≡ (err Error.anchor_does_not_exist, empty))
          × (try_remove_anchor macos demo pf mail AnchorKind.filter empty ≡ (ok tt, empty)))
try_add_anchor-try_remove_anchor_example =
    try_add_anchor-try_remove_anchor macos demo pf names (demo-KeepsAnchors 3) mail
      AnchorKind.filter empty

-- No anchor is called "m", so that it is not there to remove.
mail_missing :
    remove_anchor macos demo pf mail AnchorKind.filter empty
    ≡ (err Error.anchor_does_not_exist, empty)
mail_missing =
    (remove_anchor-try_remove_anchor macos demo pf AnchorKind.filter (names empty AnchorKind.filter)
      empty (demo-lists 3 empty AnchorKind.filter) mail mail_absent).0

mail_added : (try_add_anchor macos demo pf mail AnchorKind.filter empty).0 ≡ ok tt
unfolding try_add_anchor pfctl_rs.Utils.copy_anchor_name pfctl_rs.Cstr.try_copy_chars zeros
    pfctl_rs.Kernel.ioctl_guard pfctl_rs.Error.ignore_error_kind position pfctl_rs.Common.bytes_eq
    until_nul
mail_added = refl

mail_removed :
    (try_remove_anchor macos demo pf mail AnchorKind.filter
      (try_add_anchor macos demo pf mail AnchorKind.filter empty).1).0
    ≡ ok tt
unfolding try_add_anchor pfctl_rs.Utils.copy_anchor_name pfctl_rs.Cstr.try_copy_chars zeros
    pfctl_rs.Kernel.ioctl_guard pfctl_rs.Error.ignore_error_kind position pfctl_rs.Common.bytes_eq
    until_nul try_remove_anchor pfctl_rs.Cstr.compare_cstr_safe
mail_removed = refl

mail_restored :
    names
      (try_remove_anchor macos demo pf mail AnchorKind.filter
        (try_add_anchor macos demo pf mail AnchorKind.filter empty).1).1
      AnchorKind.filter
    ≡ names empty AnchorKind.filter
mail_restored =
    add_anchor-remove_anchor macos demo pf names (demo-KeepsAnchors 3) mail AnchorKind.filter empty
      mail_absent mail_added mail_removed AnchorKind.filter
