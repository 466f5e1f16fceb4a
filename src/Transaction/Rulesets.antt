-- ===== src/Transaction/Rulesets.antt =====
-- What the crate relies on of pf's transactions, after pf(4): DIOCXBEGIN clears the inactive
-- rulesets of its elements and fills in their tickets, DIOCBEGINADDRS clears the buffer of pool
-- addresses and returns its ticket, DIOCADDADDR appends to the buffer of its ticket, DIOCADDRULE
-- appends the rule, with the addresses in the buffer of its pool ticket, to the inactive ruleset of
-- the rule's anchor and action, DIOCXCOMMIT makes the inactive rulesets of its elements active,
-- and nothing else changes an active ruleset.
use pfctl_rs.Common.{ℕ, ◌≡◌, ◌≢◌, List, [], ◌∷◌, ◌++◌, ◌&&◌, Bool, bytes_eq, if◌then◌else◌}
use pfctl_rs.Common.Int.{ℤ, pos, eq_ℤ}
use pfctl_rs.Ffi.{
  PfRule, PfPooladdr, PfiocRule, PfiocPooladdr, PfiocTrans, PfiocTransElem, pf_pass, pf_drop,
  pf_nat, pf_nonat, pf_rdr, pf_nordr, pf_scrub, pf_noscrub, pf_ruleset_filter, pf_ruleset_nat,
  pf_ruleset_rdr, pf_ruleset_scrub,
}
use pfctl_rs.Kernel.{Kernel, ioctl_error}
use pfctl_rs.Transaction.Names.{Among}

-- A rule as it reaches the kernel: its `pf_rule`, and the addresses of its pool.
abbrev pub Submitted : Type 0
Submitted = PfRule × List PfPooladdr

-- The rulesets of a kernel state, by number and by the buffer of the anchor's name. `image` is what
-- the kernel keeps of a rule, `ruleset_of` the ruleset that an action belongs to, and `buffered` the
-- pool addresses that have been added under a pool ticket.
pub record Rulesets (K : Kernel) : Type 1 where
  pub Entry : Type 0
  pub image : Submitted → Entry
  pub ruleset_of : ℕ → ℤ
  pub active : K.State → ℤ → List ℕ → List Entry
  pub staged : K.State → ℤ → List ℕ → List Entry
  pub buffered : K.State → ℕ → List PfPooladdr

abbrev pub same_key : ℤ → List ℕ → ℤ → List ℕ → Bool
same_key k b k' b' = eq_ℤ k k' && bytes_eq b b'

-- The elements are the same but for their tickets.
abbrev pub SameElements : List PfiocTransElem → List PfiocTransElem → Type 0
SameElements [] [] = Unit {0}
SameElements [] (y ∷ ys) = ⊥
SameElements (x ∷ xs) [] = ⊥
SameElements (x ∷ xs) (y ∷ ys) = (x.rs_num ≡ y.rs_num) × (x.anchor ≡ y.anchor) × SameElements xs ys

-- The key of an element.
abbrev pub IsKey : PfiocTransElem → ℤ → List ℕ → Type 0
IsKey e k b = (e.rs_num ≡ k) × (e.anchor ≡ b)

pub record IsTransactional (K : Kernel) (V : Rulesets K) : Type 0 where
  pub pass_ruleset : V.ruleset_of pf_pass ≡ pos pf_ruleset_filter
  pub drop_ruleset : V.ruleset_of pf_drop ≡ pos pf_ruleset_filter
  pub nat_ruleset : V.ruleset_of pf_nat ≡ pos pf_ruleset_nat
  pub nonat_ruleset : V.ruleset_of pf_nonat ≡ pos pf_ruleset_nat
  pub rdr_ruleset : V.ruleset_of pf_rdr ≡ pos pf_ruleset_rdr
  pub nordr_ruleset : V.ruleset_of pf_nordr ≡ pos pf_ruleset_rdr
  pub scrub_ruleset : V.ruleset_of pf_scrub ≡ pos pf_ruleset_scrub
  pub noscrub_ruleset : V.ruleset_of pf_noscrub ≡ pos pf_ruleset_scrub
  pub open_active :
      (s : K.State) (k : ℤ) (b : List ℕ) → V.active (K.open_pf s).1 k b ≡ V.active s k b
  pub close_active :
      (fd : ℕ) (s : K.State) (k : ℤ) (b : List ℕ) → V.active (K.close_pf fd s) k b ≡ V.active s k b
  pub begin_addrs_active :
      (fd : ℕ) (a : PfiocPooladdr) (s : K.State) (k : ℤ) (b : List ℕ)
      → V.active (K.pf_begin_addrs fd a s).1 k b ≡ V.active s k b
  pub begin_addrs_staged :
      (fd : ℕ) (a : PfiocPooladdr) (s : K.State) (k : ℤ) (b : List ℕ)
      → V.staged (K.pf_begin_addrs fd a s).1 k b ≡ V.staged s k b
  pub begin_addrs_clears :
      (fd : ℕ) (a : PfiocPooladdr) (s : K.State)
      → (K.pf_begin_addrs fd a s).0.ret ≢ ioctl_error
      → V.buffered (K.pf_begin_addrs fd a s).1 (K.pf_begin_addrs fd a s).0.arg.ticket ≡ []
  pub add_addr_appends :
      (fd : ℕ) (a : PfiocPooladdr) (s : K.State)
      → (K.pf_add_addr fd a s).0.ret ≢ ioctl_error
      → V.buffered (K.pf_add_addr fd a s).1 a.ticket ≡ V.buffered s a.ticket ++ (a.addr ∷ [])
  pub add_addr_active :
      (fd : ℕ) (a : PfiocPooladdr) (s : K.State) (k : ℤ) (b : List ℕ)
      → V.active (K.pf_add_addr fd a s).1 k b ≡ V.active s k b
  pub add_addr_staged :
      (fd : ℕ) (a : PfiocPooladdr) (s : K.State) (k : ℤ) (b : List ℕ)
      → V.staged (K.pf_add_addr fd a s).1 k b ≡ V.staged s k b
  pub begin_active :
      (fd : ℕ) (t : PfiocTrans) (s : K.State) (k : ℤ) (b : List ℕ)
      → V.active (K.pf_begin_trans fd t s).1 k b ≡ V.active s k b
  pub begin_grants :
      (fd : ℕ) (t : PfiocTrans) (s : K.State)
      → (K.pf_begin_trans fd t s).0.ret ≢ ioctl_error
      → SameElements t.array (K.pf_begin_trans fd t s).0.arg.array
  pub begin_clears :
      (fd : ℕ) (t : PfiocTrans) (s : K.State) (k : ℤ) (b : List ℕ)
      → (K.pf_begin_trans fd t s).0.ret ≢ ioctl_error
      → (e : PfiocTransElem) → Among e t.array
      → IsKey e k b
      → V.staged (K.pf_begin_trans fd t s).1 k b ≡ []
  pub add_active :
      (fd : ℕ) (a : PfiocRule) (s : K.State) (k : ℤ) (b : List ℕ)
      → V.active (K.pf_add_rule fd a s).1 k b ≡ V.active s k b
  pub add_appends :
      (fd : ℕ) (a : PfiocRule) (s : K.State) (k : ℤ) (b : List ℕ)
      → (K.pf_add_rule fd a s).0.ret ≢ ioctl_error
      → V.staged (K.pf_add_rule fd a s).1 k b
        ≡ V.staged s k b
          ++ (if same_key k b (V.ruleset_of a.rule.action) a.anchor
              then V.image (a.rule, V.buffered s a.pool_ticket) ∷ []
              else [])
  pub commit_refused :
      (fd : ℕ) (t : PfiocTrans) (s : K.State) (k : ℤ) (b : List ℕ)
      → (K.pf_commit_trans fd t s).0.ret ≡ ioctl_error
      → V.active (K.pf_commit_trans fd t s).1 k b ≡ V.active s k b
  pub commit_swaps :
      (fd : ℕ) (t : PfiocTrans) (s : K.State) (k : ℤ) (b : List ℕ)
      → (K.pf_commit_trans fd t s).0.ret ≢ ioctl_error
      → (e : PfiocTransElem) → Among e t.array
      → IsKey e k b
      → V.active (K.pf_commit_trans fd t s).1 k b ≡ V.staged s k b
  pub commit_others :
      (fd : ℕ) (t : PfiocTrans) (s : K.State) (k : ℤ) (b : List ℕ)
      → ((e : PfiocTransElem) → Among e t.array → ¬ IsKey e k b)
      → V.active (K.pf_commit_trans fd t s).1 k b ≡ V.active s k b
