-- ===== src/Pfctl/Anchoring.antt =====
-- `add_anchor`, `try_add_anchor`, `remove_anchor` and `try_remove_anchor` as operations on the list
-- of the anchors of a kind.
use mathlib.Core.Path.{subst}
use pfctl_rs.Common.{
  ℕ, ◌≡◌, ◌≢◌, refl, sym, ap, ◌∙◌, ◌⊎◌, ◌↔◌, inl, inr, Bool-cases, String, Option, none, some, List,
  [], ◌∷◌, ◌++◌, arith,
}
use pfctl_rs.Common.Int.{ℤ, eq_ℤ, eq_ℤ_iff}
use pfctl_rs.Error.{Error, ErrorKind, Result, ok, err, panic, ignore_error_kind}
use pfctl_rs.Cstr.{Str, try_copy_chars, until_nul}
use pfctl_rs.Cstr.Laws.{try_copy_chars-until_nul}
use pfctl_rs.Platform.{Platform}
use pfctl_rs.Ffi.{PfiocRule, zero_pfioc_rule}
use pfctl_rs.Kernel.{Kernel, Action, Reply, pure, ◌>>◌, ioctl_error, ioctl_guard}
use pfctl_rs.Kernel.Laws.{ioctl_guard-dropped}
use pfctl_rs.Anchor.{AnchorKind, anchor_to_u8}
use pfctl_rs.Utils.{copy_anchor_name}
use pfctl_rs.Pfctl.{PfCtl, ignoring, try_add_anchor, add_anchor, remove_anchor, try_remove_anchor}
use pfctl_rs.Pfctl.AnchorLists.{
  remove_nth, with_name, without_name, position-remove, position-none-without, position-cases,
  with_name-none, with_name-some,
}
use pfctl_rs.Pfctl.Finding.{ListsAnchors, position, Outcome, with_anchor_rule-Outcome}

-- What the crate relies on of the anchors of a kernel, after pf(4): it lists them, DIOCINSERTRULE
-- appends an anchor or fails without a change, with EEXIST exactly if there is one of the name, and
-- DIOCDELETERULE removes the anchor with the number, or fails without a change. Each leaves the
-- anchors of the other kinds alone.
pub record KeepsAnchors (P : Platform) (K : Kernel) (fd : ℕ)
    (anchors : K.State → AnchorKind → List Str) : Type 0 where
  pub lists : (s : K.State) (kind : AnchorKind) → ListsAnchors K fd kind (anchors s kind) s
  pub inserts :
      (a : PfiocRule) (s : K.State) (kind : AnchorKind) (name : Str)
      → a.rule.action ≡ anchor_to_u8 kind
      → until_nul a.anchor_call ≡ some name
      → position name 0 (anchors s kind) ≡ none
      → (K.pf_insert_rule fd a s).0.ret ≢ ioctl_error
      → anchors (K.pf_insert_rule fd a s).1 kind ≡ anchors s kind ++ name ∷ []
  pub exists :
      (a : PfiocRule) (s : K.State) (kind : AnchorKind) (name : Str)
      → a.rule.action ≡ anchor_to_u8 kind
      → until_nul a.anchor_call ≡ some name
      → position name 0 (anchors s kind) ≢ none
      → ((K.pf_insert_rule fd a s).0.ret ≡ ioctl_error)
        × ((K.pf_insert_rule fd a s).0.errno ≡ P.eexist)
  pub missing :
      (a : PfiocRule) (s : K.State) (kind : AnchorKind) (name : Str)
      → a.rule.action ≡ anchor_to_u8 kind
      → until_nul a.anchor_call ≡ some name
      → position name 0 (anchors s kind) ≡ none
      → (K.pf_insert_rule fd a s).0.ret ≡ ioctl_error
      → (K.pf_insert_rule fd a s).0.errno ≢ P.eexist
  pub insert_refused :
      (a : PfiocRule) (s : K.State) (k : AnchorKind)
      → (K.pf_insert_rule fd a s).0.ret ≡ ioctl_error
      → anchors (K.pf_insert_rule fd a s).1 k ≡ anchors s k
  pub insert_others :
      (a : PfiocRule) (s : K.State) (k : AnchorKind)
      → a.rule.action ≢ anchor_to_u8 k
      → anchors (K.pf_insert_rule fd a s).1 k ≡ anchors s k
  pub deletes :
      (a : PfiocRule) (s : K.State) (kind : AnchorKind)
      → a.rule.action ≡ anchor_to_u8 kind
      → (K.pf_delete_rule fd a s).0.ret ≢ ioctl_error
      → anchors (K.pf_delete_rule fd a s).1 kind ≡ remove_nth a.nr (anchors s kind)
  pub delete_refused :
      (a : PfiocRule) (s : K.State) (k : AnchorKind)
      → (K.pf_delete_rule fd a s).0.ret ≡ ioctl_error
      → anchors (K.pf_delete_rule fd a s).1 k ≡ anchors s k
  pub delete_others :
      (a : PfiocRule) (s : K.State) (k : AnchorKind)
      → a.rule.action ≢ anchor_to_u8 k
      → anchors (K.pf_delete_rule fd a s).1 k ≡ anchors s k

anchor_to_u8-injective : (k k' : AnchorKind) → anchor_to_u8 k ≡ anchor_to_u8 k' → k ≡ k'
anchor_to_u8-injective k k' h = ground arith

-- A call whose EEXIST is ignored is a success if it did not return -1, or with EEXIST.
ignored_call :
    {S A : Type 0} (P : Platform) (call : A → S → Reply A × S) (arg : A) (s : S)
    → let r = ignoring (ioctl_guard P call arg >> pure tt) ErrorKind.state_already_active s in
      (r.1 ≡ (call arg s).1)
      × ((r.0 ≡ ok tt) ↔ (((call arg s).0.ret ≢ ioctl_error) ⊎ ((call arg s).0.errno ≡ P.eexist)))
unfolding ioctl_guard ignore_error_kind
ignored_call P call arg s = (ground arith, ground (arith, eq_ℤ_iff (call arg s).0.ret ioctl_error))

ret_cases : (z : ℤ) → (z ≡ ioctl_error) ⊎ (z ≢ ioctl_error)
ret_cases z = elim (Bool-cases (eq_ℤ z ioctl_error)) [
  | inl failed ↦ inl ((eq_ℤ_iff z ioctl_error).0 failed)
  | inr done ↦ inr (λ h. ground (arith, eq_ℤ_iff z ioctl_error))
]

module _ (P : Platform) (K : Kernel) (self : PfCtl) (anchors : K.State → AnchorKind → List Str)
    (A : KeepsAnchors P K self.file anchors) (name : Str) (kind : AnchorKind) where
  -- What a run does to the anchors: if it succeeds then those of the kind are `after` of what they
  -- were, if not then they are as before, and those of the other kinds are as before in any case.
  abbrev pub Changes : (List Str → List Str) → K.State → Result Error (Unit {0}) × K.State → Type 0
  Changes after s r =
      (r.0 ≡ ok tt → anchors r.1 kind ≡ after (anchors s kind))
      × (r.0 ≢ ok tt → anchors r.1 kind ≡ anchors s kind)
      × ((k : AnchorKind) → k ≢ kind → anchors r.1 k ≡ anchors s k)

  abbrev insert_arg : List ℕ → PfiocRule
  insert_arg buffer = record zero_pfioc_rule {
    rule = record zero_pfioc_rule.rule { action = anchor_to_u8 kind };
    anchor_call = buffer;
  }

  other_action : (k : AnchorKind) → k ≢ kind → anchor_to_u8 kind ≢ anchor_to_u8 k
  other_action k h e = h (sym (anchor_to_u8-injective kind k e))

  module _ (buffer : List ℕ) (s : K.State) (read : until_nul buffer ≡ some name) where
    abbrev call : Reply PfiocRule × K.State
    call = K.pf_insert_rule self.file (insert_arg buffer) s

    insert_done :
        (call.0.ret ≢ ioctl_error) ⊎ (call.0.errno ≡ P.eexist)
        → anchors call.1 kind ≡ with_name name (anchors s kind)
    insert_done h = elim (position-cases name (anchors s kind)) [
      | inl absent ↦ elim (ret_cases call.0.ret) [
        | inl failed ↦ elim h [
          | inl not_failed ↦ absurd (not_failed failed)
          | inr already ↦
              absurd (A.missing (insert_arg buffer) s kind name refl read absent failed already)
        ]
        | inr done ↦
            A.inserts (insert_arg buffer) s kind name refl read absent done
            ∙ sym (with_name-none name (anchors s kind) absent)
      ]
      | inr there ↦
          A.insert_refused (insert_arg buffer) s kind
            (A.exists (insert_arg buffer) s kind name refl read there).0
          ∙ sym (with_name-some name (anchors s kind) there)
    ]

    inserted : Changes (with_name name) s (
        ignoring
          (ioctl_guard P (K.pf_insert_rule self.file) (insert_arg buffer) >> pure tt)
          ErrorKind.state_already_active
          s)
    inserted =
        let (there, works) = ignored_call P (K.pf_insert_rule self.file) (insert_arg buffer) s in
        let back = λ (k : AnchorKind). ap (λ z. anchors z k) there in
        (
          λ h. back kind ∙ insert_done (works.0 h),
          λ h. elim (ret_cases call.0.ret) [
            | inl failed ↦ back kind ∙ A.insert_refused (insert_arg buffer) s kind failed
            | inr done ↦ absurd (h (works.1 (inl done)))
          ],
          λ k other. back k ∙ A.insert_others (insert_arg buffer) s k (other_action k other),
        )

  pub try_add_anchor-Changes :
      (s : K.State) → Changes (with_name name) s (try_add_anchor P K self name kind s)
  unfolding try_add_anchor add_anchor ignore_error_kind copy_anchor_name
  try_add_anchor-Changes s = go (try_copy_chars name zero_pfioc_rule.anchor_call) refl
    where
      go :
          (c : Result String (List ℕ))
          → try_copy_chars name zero_pfioc_rule.anchor_call ≡ c
          → Changes (with_name name) s (try_add_anchor P K self name kind s)
      go (ok buffer) e =
          rw e (inserted buffer s (try_copy_chars-until_nul name zero_pfioc_rule.anchor_call e).0)
      go (err x) e = rw e ((λ h. absurd (ground arith)), (λ h. refl), (λ k other. refl))
      go panic e = rw e ((λ h. absurd (ground arith)), (λ h. refl), (λ k other. refl))

  -- What deletes the rule of the anchor, once it is found.
  abbrev delete : PfiocRule → Action K.State (Unit {0})
  delete rule = ioctl_guard P (K.pf_delete_rule self.file) rule >> pure tt

  -- No call reports that an anchor does not exist.
  delete-not_ignored :
      (rule : PfiocRule) (s : K.State)
      → ignore_error_kind (delete rule s).0 ErrorKind.anchor_does_not_exist ≡ (delete rule s).0
  unfolding ignore_error_kind ioctl_guard
  delete-not_ignored rule s = ground arith

  deleted :
      (rule : PfiocRule) (s : K.State) {i : ℕ}
      → rule.rule.action ≡ anchor_to_u8 kind
      → rule.nr ≡ i
      → position name 0 (anchors s kind) ≡ some i
      → Changes (without_name name) s (delete rule s)
  deleted rule s {i} act nr there =
      let (same, fails, works) = ioctl_guard-dropped P (K.pf_delete_rule self.file) rule s in
      let back = λ (k : AnchorKind). ap (λ z. anchors z k) same in
      let (k, e, removed) = position-remove name 0 (anchors s kind) there in
      let first : rule.nr ≡ k = omega arith in
      (
        λ h.
            back kind
            ∙ A.deletes rule s kind act (works h)
            ∙ ap (λ j. remove_nth j (anchors s kind)) first
            ∙ removed,
        λ h. back kind ∙ A.delete_refused rule s kind (fails h),
        λ k other. back k ∙ A.delete_others rule s k (λ q. other_action k other (sym act ∙ q)),
      )

  abbrev ignored : Result Error (Unit {0}) × K.State → Result Error (Unit {0}) × K.State
  ignored (r, z) = (ignore_error_kind r ErrorKind.anchor_does_not_exist, z)

  removed-Changes :
      (s : K.State) (o : Option ℕ) (r : Result Error (Unit {0}) × K.State)
      → position name 0 (anchors s kind) ≡ o
      → Outcome P K self kind (anchors s kind) s (A.lists s kind) name delete o r
      → Changes (without_name name) s (ignored r)
  unfolding ignore_error_kind
  removed-Changes s none r e q =
      subst (λ z. Changes (without_name name) s (ignored z)) (sym q)
        (
          (λ h. sym (position-none-without name 0 (anchors s kind) e)),
          (λ h. absurd (h refl)),
          (λ k other. refl),
        )
  removed-Changes s (some i) r e (rule, nr, act, read, q) =
      let kept : ignored (delete rule s) ≡ delete rule s =
        ap (λ x. (x, (delete rule s).1)) (delete-not_ignored rule s) in
      subst (λ z. Changes (without_name name) s z) (sym (ap ignored q ∙ kept))
        (deleted rule s act nr e)

  pub try_remove_anchor-Changes :
      (s : K.State) → Changes (without_name name) s (try_remove_anchor P K self name kind s)
  unfolding try_remove_anchor remove_anchor
  try_remove_anchor-Changes s =
      removed-Changes s (position name 0 (anchors s kind)) (remove_anchor P K self name kind s) refl
        (with_anchor_rule-Outcome P K self kind (anchors s kind) s (A.lists s kind) name delete)
