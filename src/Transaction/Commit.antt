-- ===== src/Transaction/Commit.antt =====
-- `Transaction::commit`.
use pfctl_rs.Common.{ℕ, List, [], ◌∷◌, ◌++◌, map, length}
use pfctl_rs.Common.Int.{pos, as_i32}
use pfctl_rs.Error.{Error, Result, ok, and_then}
use pfctl_rs.Cstr.{Str}
use pfctl_rs.Platform.{Platform}
use pfctl_rs.Ffi.{PfiocTrans, PfiocTransElem, zero_trans_elem, zero_pfioc_trans}
use pfctl_rs.Kernel.{Kernel, Action, pure, lift, ◌>>=◌, ◌>>◌, ioctl_guard}
use pfctl_rs.Anchor.{RulesetKind, ruleset_to_i32}
use pfctl_rs.Rule.Filter.{FilterRule}
use pfctl_rs.Rule.Nat.{NatRule}
use pfctl_rs.Rule.Redirect.{RedirectRule}
use pfctl_rs.Rule.Scrub.{ScrubRule}
use pfctl_rs.Utils.{open_pf, copy_anchor_name}
use pfctl_rs.Transaction.Changes.{Transaction, Entries, changes_of}
use pfctl_rs.Transaction.Rules.{add_filter_rule, add_nat_rule, add_redirect_rule, add_scrub_rule}

unfoldable pub new_trans_element : Str → RulesetKind → Result Error PfiocTransElem
new_trans_element anchor ruleset_kind =
    and_then (copy_anchor_name anchor zero_trans_elem.anchor)
      (λ name. ok (record zero_trans_elem { rs_num = ruleset_to_i32 ruleset_kind; anchor = name }))

-- `collect::<Result<_>>()`
unfoldable pub trans_elements : List (Str × RulesetKind) → Result Error (List PfiocTransElem)
unfolding new_trans_element
trans_elements [] = ok []
trans_elements ((anchor, kind) ∷ specs) =
    and_then (new_trans_element anchor kind)
      (λ e. and_then (trans_elements specs) (λ es. ok (e ∷ es)))

-- `size_of::<pfioc_trans_e>()` is 1032 by the assertions of src/ffi/pfvar.rs.
unfoldable pub setup_trans : PfiocTrans → List PfiocTransElem → PfiocTrans
setup_trans pfioc_trans elements = record pfioc_trans {
  size = as_i32 (length elements);
  esize = pos 1032;
  array = elements;
}

-- The changes by kind of rules.
pub record Partition (P : Platform) : Type 0 where
  pub filter_changes : List (Str × List (FilterRule P))
  pub nat_changes : List (Str × List (NatRule P))
  pub redirect_changes : List (Str × List (RedirectRule P))
  pub scrub_changes : List (Str × List ScrubRule)

abbrev pub partition : {P : Platform} → Entries P → Partition P
partition entries = record {
  filter_changes = changes_of (λ c. c.filter_rules) entries;
  nat_changes = changes_of (λ c. c.nat_rules) entries;
  redirect_changes = changes_of (λ c. c.redirect_rules) entries;
  scrub_changes = changes_of (λ c. c.scrub_rules) entries;
}

abbrev pub specs_of : {R : Type 0} → RulesetKind → List (Str × List R) → List (Str × RulesetKind)
specs_of kind = map (λ (anchor, rules). (anchor, kind))

-- One element for each anchor and kind: filter rules, then NAT, redirect and scrub rules.
abbrev pub specs : {P : Platform} → Partition P → List (Str × RulesetKind)
specs p =
    specs_of RulesetKind.filter p.filter_changes
    ++ (specs_of RulesetKind.nat p.nat_changes
        ++ (specs_of RulesetKind.redirect p.redirect_changes
            ++ specs_of RulesetKind.scrub p.scrub_changes))

-- `changes.into_iter().zip(ticket_iterator.by_ref())`: the pairs, and the tickets that the iterator
-- still holds. `zip` asks the changes first, so it takes no ticket once they have run out.
unfoldable pub zip_by_ref : {A : Type 0} → List A → List ℕ → List (A × ℕ) × List ℕ
zip_by_ref [] tickets = ([], tickets)
zip_by_ref (a ∷ as') [] = ([], [])
zip_by_ref (a ∷ as') (t ∷ tickets) =
    let (pairs, rest) = zip_by_ref as' tickets in ((a, t) ∷ pairs, rest)

-- The changes with the tickets that the four loops draw from one iterator.
pub record Work (P : Platform) : Type 0 where
  pub filter_work : List ((Str × List (FilterRule P)) × ℕ)
  pub nat_work : List ((Str × List (NatRule P)) × ℕ)
  pub redirect_work : List ((Str × List (RedirectRule P)) × ℕ)
  pub scrub_work : List ((Str × List ScrubRule) × ℕ)

unfoldable pub assign_tickets : {P : Platform} → Partition P → List ℕ → Work P
unfolding zip_by_ref
assign_tickets p tickets =
    let filters = zip_by_ref p.filter_changes tickets in
    let nats = zip_by_ref p.nat_changes filters.1 in
    let redirects = zip_by_ref p.redirect_changes nats.1 in
    let scrubs = zip_by_ref p.scrub_changes redirects.1 in
    record {
      filter_work = filters.0;
      nat_work = nats.0;
      redirect_work = redirects.0;
      scrub_work = scrubs.0;
    }

-- The two nested loops that add the rules of one kind.
module _ {S R : Type 0} (add : Str → R → ℕ → Action S (Unit {0})) where
  unfoldable pub add_rules : Str → List R → ℕ → Action S (Unit {0})
  add_rules anchor [] ticket = pure tt
  add_rules anchor (rule ∷ rules) ticket = add anchor rule ticket >> add_rules anchor rules ticket

  unfoldable pub add_changes : List ((Str × List R) × ℕ) → Action S (Unit {0})
  unfolding add_rules
  add_changes [] = pure tt
  add_changes (((anchor, rules), ticket) ∷ work) = add_rules anchor rules ticket >> add_changes work

module _ (P : Platform) (K : Kernel) where
  unfoldable pub add_work : ℕ → Work P → Action K.State (Unit {0})
  add_work fd w = do
    add_changes (add_filter_rule P K fd) w.filter_work
    add_changes (add_nat_rule P K fd) w.nat_work
    add_changes (add_redirect_rule P K fd) w.redirect_work
    add_changes (add_scrub_rule P K fd) w.scrub_work

  -- The calls between the opening and the closing of the device.
  unfoldable pub commit_with : ℕ → Transaction P → Action K.State (Unit {0})
  unfolding add_work
  commit_with fd t = do
    let p = partition t.change_by_anchor
    elements ← lift (trans_elements (specs p))
    trans ← ioctl_guard P (K.pf_begin_trans fd) (setup_trans zero_pfioc_trans elements)
    add_work fd (assign_tickets p (map (λ e. e.ticket) trans.array))
    ioctl_guard P (K.pf_commit_trans fd) trans
    pure tt

  -- The file is closed when it is dropped, on every path.
  abbrev closing : {A : Type 0} → ℕ → Action K.State A → Action K.State A
  closing fd m s = let (r, s') = m s in (r, K.close_pf fd s')

  unfoldable pub commit : Transaction P → Action K.State (Unit {0})
  unfolding commit_with
  commit t = do fd ← open_pf P K; closing fd (commit_with fd t)
