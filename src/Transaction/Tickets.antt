-- ===== src/Transaction/Tickets.antt =====
-- Each change is added under the ticket that the kernel gave for its anchor and kind.
use pfctl_rs.Common.{ℕ, ◌≡◌, refl, ap, inl, inr, List, [], ◌∷◌, ◌++◌, map, All}
use mathlib.Core.List.{append-nil}
use pfctl_rs.Error.{ok}
use pfctl_rs.Cstr.{Str, zeros}
use pfctl_rs.Platform.{Platform}
use pfctl_rs.Ffi.{PfiocTransElem}
use pfctl_rs.Anchor.{RulesetKind, ruleset_to_i32}
use pfctl_rs.Utils.{copy_anchor_name}
use pfctl_rs.Transaction.Names.{Among}
use pfctl_rs.Transaction.{Partition, specs, specs_of, zip_by_ref, assign_tickets}

-- The element is for this anchor and kind.
abbrev pub IsFor : Str → RulesetKind → PfiocTransElem → Type 0
IsFor anchor kind e =
    (e.rs_num ≡ ruleset_to_i32 kind) × (copy_anchor_name anchor (zeros 1024) ≡ ok e.anchor)

-- The elements are for these anchors and kinds, one by one.
abbrev pub AreFor : List (Str × RulesetKind) → List PfiocTransElem → Type 0
AreFor [] [] = Unit {0}
AreFor [] (e ∷ es) = ⊥
AreFor (s ∷ ss) [] = ⊥
AreFor (s ∷ ss) (e ∷ es) = IsFor s.0 s.1 e × AreFor ss es

abbrev pub tickets_of : List PfiocTransElem → List ℕ
tickets_of es = map (λ e. e.ticket) es

-- A change that is added under the ticket of an element for its anchor and kind.
abbrev pub HasTicket :
    {R : Type 0} → RulesetKind → List PfiocTransElem → (Str × List R) × ℕ → Type 0
HasTicket kind es ((anchor, rules), ticket) =
    (e : PfiocTransElem) × Among e es × IsFor anchor kind e × (e.ticket ≡ ticket)

abbrev pub fst : {A : Type 0} → A × ℕ → A
fst (a, t) = a

-- What one loop takes of the iterator, and what it leaves to the next.
record Drawn {R : Type 0} (kind : RulesetKind) (cs : List (Str × List R))
    (rest : List (Str × RulesetKind)) (es : List PfiocTransElem) : Type 0 where
  later : List PfiocTransElem
  left : (zip_by_ref cs (tickets_of es)).1 ≡ tickets_of later
  later_for : AreFor rest later
  later_among : (e : PfiocTransElem) → Among e later → Among e es
  all_drawn : map fst (zip_by_ref cs (tickets_of es)).0 ≡ cs
  all_for : All (HasTicket kind es) (zip_by_ref cs (tickets_of es)).0

widen :
    {R : Type 0} (kind : RulesetKind) (es es' : List PfiocTransElem)
    → ((e : PfiocTransElem) → Among e es → Among e es')
    → (w : List ((Str × List R) × ℕ)) → All (HasTicket kind es) w
    → All (HasTicket kind es') w
widen kind es es' up [] h = tt
widen kind es es' up (((a, rules), t) ∷ w) ((e, m, f, q), h) =
    ((e, up e m, f, q), widen kind es es' up w h)

drawn :
    {R : Type 0} (kind : RulesetKind) (cs : List (Str × List R)) (rest : List (Str × RulesetKind))
    (es : List PfiocTransElem)
    → AreFor (specs_of kind cs ++ rest) es
    → Drawn kind cs rest es
unfolding zip_by_ref
drawn kind [] rest es h = record {
  later = es;
  left = refl;
  later_for = h;
  later_among = λ e m. m;
  all_drawn = refl;
  all_for = tt;
}
drawn kind (c ∷ cs) rest [] h = elim h [ ]
drawn kind ((a, rules) ∷ cs) rest (x ∷ es) (f, h) =
    let d = drawn kind cs rest es h in
    record {
      later = d.later;
      left = d.left;
      later_for = d.later_for;
      later_among = λ e m. inr (d.later_among e m);
      all_drawn = ap (λ l. (a, rules) ∷ l) d.all_drawn;
      all_for = ((x, inl refl, f, refl), widen kind es (x ∷ es) (λ e m. inr m) _ d.all_for);
    }

-- All changes of one kind are drawn, each with the ticket of an element for its anchor and kind.
abbrev pub Assigned :
    {R : Type 0}
    → RulesetKind
    → List PfiocTransElem
    → List (Str × List R)
    → List ((Str × List R) × ℕ)
    → Type 0
Assigned kind es cs work = (map fst work ≡ cs) × All (HasTicket kind es) work

assigned :
    {R : Type 0} (kind : RulesetKind) (cs : List (Str × List R)) (rest : List (Str × RulesetKind))
    (es es' : List PfiocTransElem)
    → ((e : PfiocTransElem) → Among e es → Among e es')
    → Drawn kind cs rest es
    → Assigned kind es' cs (zip_by_ref cs (tickets_of es)).0
assigned kind cs rest es es' up d = (d.all_drawn, widen kind es es' up _ d.all_for)

-- If the kernel gives back the elements that were asked for, with tickets filled in, then the loops
-- add every change of every kind, in order, each under the ticket of an element for its own anchor
-- and kind.
pub assign_tickets-Assigned :
    {P : Platform} (p : Partition P) (es : List PfiocTransElem)
    → AreFor (specs p) es
    → let w = assign_tickets p (tickets_of es) in
      Assigned RulesetKind.filter es p.filter_changes w.filter_work
      × Assigned RulesetKind.nat es p.nat_changes w.nat_work
      × Assigned RulesetKind.redirect es p.redirect_changes w.redirect_work
      × Assigned RulesetKind.scrub es p.scrub_changes w.scrub_work
unfolding assign_tickets
assign_tickets-Assigned p es h =
    let d1 = drawn RulesetKind.filter p.filter_changes _ es h in
    let d2 = drawn RulesetKind.nat p.nat_changes _ d1.later d1.later_for in
    let d3 = drawn RulesetKind.redirect p.redirect_changes _ d2.later d2.later_for in
    let d4 = drawn RulesetKind.scrub p.scrub_changes [] d3.later (rw append-nil d3.later_for) in
    (
      assigned RulesetKind.filter _ _ es es (λ e m. m) d1,
      rw d1.left (assigned RulesetKind.nat _ _ d1.later es d1.later_among d2),
      rw (d1.left, d2.left)
          (assigned RulesetKind.redirect _ _ d2.later es
            (λ e m. d1.later_among e (d2.later_among e m)) d3),
      rw (d1.left, d2.left, d3.left)
          (assigned RulesetKind.scrub _ _ d3.later es
            (λ e m. d1.later_among e (d2.later_among e (d3.later_among e m))) d4),
    )
