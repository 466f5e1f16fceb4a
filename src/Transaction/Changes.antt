-- ===== src/Transaction/Changes.antt =====
-- `AnchorChange`, and the part of `Transaction` that collects changes.
use pfctl_rs.Common.{Option, none, some, List, [], ◌∷◌, bytes_eq, if◌then◌else◌}
use pfctl_rs.Cstr.{Str}
use pfctl_rs.Platform.{Platform}
use pfctl_rs.Rule.Filter.{FilterRule}
use pfctl_rs.Rule.Nat.{NatRule}
use pfctl_rs.Rule.Redirect.{RedirectRule}
use pfctl_rs.Rule.Scrub.{ScrubRule}

pub record AnchorChange (P : Platform) : Type 0 where
  pub filter_rules : Option (List (FilterRule P))
  pub nat_rules : Option (List (NatRule P))
  pub redirect_rules : Option (List (RedirectRule P))
  pub scrub_rules : Option (List ScrubRule)

-- `AnchorChange::new`
abbrev pub new_change : (P : Platform) → AnchorChange P
new_change P = record {
  filter_rules = none;
  nat_rules = none;
  redirect_rules = none;
  scrub_rules = none;
}

abbrev pub set_filter_rules : {P : Platform} → List (FilterRule P) → AnchorChange P → AnchorChange P
set_filter_rules rules c = record c { filter_rules = some rules }

abbrev pub set_nat_rules : {P : Platform} → List (NatRule P) → AnchorChange P → AnchorChange P
set_nat_rules rules c = record c { nat_rules = some rules }

abbrev pub set_redirect_rules :
    {P : Platform} → List (RedirectRule P) → AnchorChange P → AnchorChange P
set_redirect_rules rules c = record c { redirect_rules = some rules }

abbrev pub set_scrub_rules : {P : Platform} → List ScrubRule → AnchorChange P → AnchorChange P
set_scrub_rules rules c = record c { scrub_rules = some rules }

-- The entries of the map from anchor names to changes.
abbrev pub Entries : Platform → Type 0
Entries P = List (Str × AnchorChange P)

pub record Transaction (P : Platform) : Type 0 where
  pub change_by_anchor : Entries P

abbrev pub new_transaction : (P : Platform) → Transaction P
new_transaction P = record { change_by_anchor = [] }

-- `HashMap::insert`: the entry of the key is replaced, or a new one is added.
unfoldable pub insert : {P : Platform} → Str → AnchorChange P → Entries P → Entries P
insert name change [] = (name, change) ∷ []
insert name change ((n, c) ∷ entries) =
    if bytes_eq n name then (n, change) ∷ entries else (n, c) ∷ insert name change entries

unfoldable pub add_change : {P : Platform} → Str → AnchorChange P → Transaction P → Transaction P
unfolding insert
add_change anchor_name change t = record t {
  change_by_anchor = insert anchor_name change t.change_by_anchor;
}

-- `iter_mut().filter_map(…)` over one kind of rules: the anchors that set them, in order. What
-- `take` leaves behind in the map is not read again.
unfoldable pub changes_of :
    {P : Platform} {R : Type 0}
    → (AnchorChange P → Option (List R))
    → Entries P
    → List (Str × List R)
changes_of field [] = []
changes_of field ((anchor, change) ∷ entries) =
    let rest = changes_of field entries in
    elim (field change) [ none ↦ rest | some rules ↦ (anchor, rules) ∷ rest ]
