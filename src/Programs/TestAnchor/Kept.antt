-- ===== src/Programs/TestAnchor/Kept.antt =====
-- What adding the anchor of examples/transaction.rs and examples/add_rules.rs keeps.
use pfctl_rs.Common.{ℕ, ◌≡◌, ◌≢◌, refl, ap, some, List, [], arith}
use pfctl_rs.Common.Int.{ℤ}
use pfctl_rs.Error.{ok}
use pfctl_rs.Cstr.{Str, zeros, until_nul, try_copy_chars}
use pfctl_rs.Cstr.Laws.{try_copy_chars-until_nul}
use pfctl_rs.Platform.{Platform}
use pfctl_rs.Ffi.{PfiocRule, zero_pfioc_rule}
use pfctl_rs.Kernel.{Kernel, Action, pure, lift, ◌>>◌, ioctl_guard}
use pfctl_rs.Kernel.Laws.{>>=-eq-ok}
use pfctl_rs.Kernel.Keeps.{Keeps, bind-Keeps, lift-Keeps, ioctl_guard-Keeps}
use pfctl_rs.Anchor.{AnchorKind, anchor_to_u8}
use pfctl_rs.Utils.{copy_anchor_name}
use pfctl_rs.Transaction.Rulesets.{Rulesets}
use pfctl_rs.Pfctl.{PfCtl, add_anchor, try_add_anchor}
use pfctl_rs.Programs.Main.{expect}
use pfctl_rs.Programs.TestAnchor.{anchor_name}

-- Inserting a rule changes the active rulesets at no name but the one that the call names.
abbrev pub InsertsElsewhere : {K : Kernel} → Rulesets K → Type 0
InsertsElsewhere {K} V =
    (fd : ℕ) (a : PfiocRule) (s : K.State) (k : ℤ) (b : List ℕ)
    → b ≢ a.anchor
    → V.active (K.pf_insert_rule fd a s).1 k b ≡ V.active s k b

module _ (P : Platform) {K : Kernel} (V : Rulesets K) (I : InsertsElsewhere V) (b : List ℕ)
    (named : copy_anchor_name anchor_name (zeros 1024) ≡ ok b) where
  -- The anchor's name is not that of the main ruleset.
  elsewhere : b ≢ zeros 1024
  unfolding copy_anchor_name until_nul zeros
  elsewhere e =
      let copied : try_copy_chars anchor_name (zeros 1024) ≡ ok b = ground arith in
      let (reads, _) = try_copy_chars-until_nul anchor_name (zeros 1024) copied in
      let main_name : until_nul (zeros 1024) ≡ some [] = refl in
      cc (reads, main_name, ap until_nul e)

  abbrev IsStill : {A : Type 0} → Action K.State A → Type 0
  IsStill m = (k : ℤ) → Keeps (λ s. V.active s k b) m

  add_anchor-IsStill :
      (pf : PfCtl) (name : Str) (kind : AnchorKind) → IsStill (add_anchor P K pf name kind)
  unfolding add_anchor
  add_anchor-IsStill pf name kind k =
      let keep = λ (s : K.State). V.active s k b in
      bind-Keeps keep (lift (copy_anchor_name name zero_pfioc_rule.anchor_call)) _
        (lift-Keeps keep (copy_anchor_name name zero_pfioc_rule.anchor_call))
        λ call.
          bind-Keeps keep
            (ioctl_guard P (K.pf_insert_rule pf.file) (record zero_pfioc_rule {
              rule = record zero_pfioc_rule.rule { action = anchor_to_u8 kind };
              anchor_call = call;
            }))
            (λ _. pure tt)
            (ioctl_guard-Keeps keep P (K.pf_insert_rule pf.file) _
              (λ s. I pf.file _ s k b elsewhere))
            (λ _ s. refl)

  -- An anchor that must be added, and the rest of the program.
  pub record Adding (rest : Action K.State (Unit {0})) (s t : K.State) : Type 0 where
    pub middle : K.State
    pub still : (k : ℤ) → V.active middle k b ≡ V.active s k b
    pub succeeds : (rest middle).0 ≡ ok tt
    pub ends : t ≡ (rest middle).1

  pub add-Adding :
      (pf : PfCtl) (kind : AnchorKind) (rest : Action K.State (Unit {0})) (s : K.State)
      → ((expect (try_add_anchor P K pf anchor_name kind) >> rest) s).0 ≡ ok tt
      → Adding rest s ((expect (try_add_anchor P K pf anchor_name kind) >> rest) s).1
  unfolding try_add_anchor
  add-Adding pf kind rest s h =
      let (x, first, later, same) =
        >>=-eq-ok (expect (try_add_anchor P K pf anchor_name kind)) (λ _. rest) s h in
      record {
        middle = (try_add_anchor P K pf anchor_name kind s).1;
        still = λ k. add_anchor-IsStill pf anchor_name kind k s;
        succeeds = later;
        ends = ap (λ r. r.1) same;
      }
