-- ===== src/Transaction/Elements.antt =====
-- The elements of a transaction: one for each anchor and kind of rules that it changes.
use pfctl_rs.Common.{◌≡◌, refl, sym, ap, ◌∙◌, inl, inr, List, [], ◌∷◌, arith}
use pfctl_rs.Error.{ok, ◌>>=◌, >>=-eq-ok}
use pfctl_rs.Cstr.{Str, zeros}
use pfctl_rs.Platform.{Platform}
use pfctl_rs.Ffi.{PfiocTransElem, zero_trans_elem}
use pfctl_rs.Anchor.{RulesetKind, ruleset_to_i32}
use pfctl_rs.Utils.{copy_anchor_name}
use pfctl_rs.Transaction.{Partition, specs, specs_of, new_trans_element, trans_elements}
use pfctl_rs.Transaction.Names.{Among, Among-append, Among-append_left, Among-append_right}
use pfctl_rs.Transaction.Tickets.{IsFor, AreFor}
use pfctl_rs.Transaction.Rulesets.{SameElements}

new_trans_element-IsFor :
    (anchor : Str) (kind : RulesetKind) {e : PfiocTransElem}
    → new_trans_element anchor kind ≡ ok e
    → IsFor anchor kind e
unfolding new_trans_element
new_trans_element-IsFor anchor kind h =
    let (name, c, q) =
      >>=-eq-ok (copy_anchor_name anchor (zeros 1024))
        (λ name. ok (record zero_trans_elem { rs_num = ruleset_to_i32 kind; anchor = name })) h in
    ground arith

pub trans_elements-AreFor :
    (ss : List (Str × RulesetKind)) (es : List PfiocTransElem)
    → trans_elements ss ≡ ok es
    → AreFor ss es
unfolding trans_elements
trans_elements-AreFor [] [] h = tt
trans_elements-AreFor [] (e ∷ es) h = absurd (ground arith)
trans_elements-AreFor ((anchor, kind) ∷ ss) es h =
    let (x, f, g) =
      >>=-eq-ok (new_trans_element anchor kind) (λ e. trans_elements ss >>= λ es. ok (e ∷ es)) h in
    let (xs, k, q) = >>=-eq-ok (trans_elements ss) (λ es. ok (x ∷ es)) g in
    let same : x ∷ xs ≡ es = ground arith in
    rw (sym same) (new_trans_element-IsFor anchor kind f, trans_elements-AreFor ss xs k)

-- Tickets do not matter to what an element is for.
pub SameElements-AreFor :
    (ss : List (Str × RulesetKind)) (es es' : List PfiocTransElem)
    → SameElements es es'
    → AreFor ss es
    → AreFor ss es'
SameElements-AreFor [] [] [] same h = tt
SameElements-AreFor [] [] (x ∷ es') same h = elim same [ ]
SameElements-AreFor [] (e ∷ es) es' same h = elim h [ ]
SameElements-AreFor (s ∷ ss) [] es' same h = elim h [ ]
SameElements-AreFor (s ∷ ss) (e ∷ es) [] same h = elim same [ ]
SameElements-AreFor (s ∷ ss) (e ∷ es) (e' ∷ es') (n, a, same) ((f, g), h) =
    ((sym n ∙ f, g ∙ ap ok a), SameElements-AreFor ss es es' same h)

SameElements-sym : (es es' : List PfiocTransElem) → SameElements es es' → SameElements es' es
SameElements-sym [] [] h = tt
SameElements-sym [] (x ∷ es') h = h
SameElements-sym (x ∷ es) [] h = h
SameElements-sym (x ∷ es) (y ∷ es') (n, a, h) = (sym n, sym a, SameElements-sym es es' h)

pub AreFor-SameElements :
    (ss : List (Str × RulesetKind)) (es es' : List PfiocTransElem)
    → SameElements es es'
    → AreFor ss es'
    → AreFor ss es
AreFor-SameElements ss es es' same = SameElements-AreFor ss es' es (SameElements-sym es es' same)

-- Every spec has an element, and every element a spec.
pub element_of :
    (anchor : Str) (kind : RulesetKind) (ss : List (Str × RulesetKind)) (es : List PfiocTransElem)
    → AreFor ss es
    → Among (anchor, kind) ss
    → (e : PfiocTransElem) × Among e es × IsFor anchor kind e
element_of anchor kind [] es h m = elim m [ ]
element_of anchor kind (s ∷ ss) [] h m = elim h [ ]
element_of anchor kind ((a, k) ∷ ss) (e ∷ es) (f, h) (inl q) =
    (e, inl refl, (rw (ap (λ z. z.0) q, ap (λ z. z.1) q) f))
element_of anchor kind (s ∷ ss) (e ∷ es) (f, h) (inr m) =
    let (x, k, g) = element_of anchor kind ss es h m in (x, inr k, g)

pub spec_of :
    (e : PfiocTransElem) (ss : List (Str × RulesetKind)) (es : List PfiocTransElem)
    → AreFor ss es
    → Among e es
    → (anchor : Str) × (kind : RulesetKind) × Among (anchor, kind) ss × IsFor anchor kind e
spec_of e [] [] h m = elim m [ ]
spec_of e [] (x ∷ es) h m = elim h [ ]
spec_of e (s ∷ ss) [] h m = elim h [ ]
spec_of e ((anchor, kind) ∷ ss) (x ∷ es) (f, h) (inl q) = (anchor, kind, inl refl, (rw q f))
spec_of e (s ∷ ss) (x ∷ es) (f, h) (inr m) =
    let (anchor, kind, k, g) = spec_of e ss es h m in (anchor, kind, inr k, g)

pub specs_of-Among :
    {R : Type 0} (kind other : RulesetKind) (anchor : Str) (cs : List (Str × List R))
    → Among (anchor, other) (specs_of kind cs)
    → (other ≡ kind) × ((rules : List R) × Among (anchor, rules) cs)
specs_of-Among kind other anchor [] m = elim m [ ]
specs_of-Among kind other anchor ((a, rules) ∷ cs) (inl q) =
    (ap (λ z. z.1) q, (rules, inl (ap (λ z. (z.0, rules)) q)))
specs_of-Among kind other anchor ((a, rules) ∷ cs) (inr m) =
    let (q, (rs, k)) = specs_of-Among kind other anchor cs m in (q, (rs, inr k))

Among-specs_of :
    {R : Type 0} (kind : RulesetKind) (anchor : Str) (rules : List R) (cs : List (Str × List R))
    → Among (anchor, rules) cs
    → Among (anchor, kind) (specs_of kind cs)
Among-specs_of kind anchor rules [] m = elim m [ ]
Among-specs_of kind anchor rules (c ∷ cs) (inl q) = inl (ap (λ z. (z.0, kind)) q)
Among-specs_of kind anchor rules (c ∷ cs) (inr m) = inr (Among-specs_of kind anchor rules cs m)

-- The changes of a partition set rules of this kind for the anchor.
abbrev pub Sets : {P : Platform} → Partition P → RulesetKind → Str → Type 0
Sets {P} p RulesetKind.filter a = (rules : _) × Among (a, rules) p.filter_changes
Sets p RulesetKind.nat a = (rules : _) × Among (a, rules) p.nat_changes
Sets p RulesetKind.redirect a = (rules : _) × Among (a, rules) p.redirect_changes
Sets p RulesetKind.scrub a = (rules : _) × Among (a, rules) p.scrub_changes

module _ {P : Platform} (p : Partition P) where
  abbrev filters : List (Str × RulesetKind)
  filters = specs_of RulesetKind.filter p.filter_changes

  abbrev nats : List (Str × RulesetKind)
  nats = specs_of RulesetKind.nat p.nat_changes

  abbrev redirects : List (Str × RulesetKind)
  redirects = specs_of RulesetKind.redirect p.redirect_changes

  abbrev scrubs : List (Str × RulesetKind)
  scrubs = specs_of RulesetKind.scrub p.scrub_changes

  pub specs-Sets :
      (kind : RulesetKind) (anchor : Str) → Among (anchor, kind) (specs p) → Sets p kind anchor
  specs-Sets kind anchor m = elim (Among-append (anchor, kind) filters _ m) [
    | inl h ↦ from RulesetKind.filter p.filter_changes (λ d. d) h
    | inr m ↦ elim (Among-append (anchor, kind) nats _ m) [
      | inl h ↦ from RulesetKind.nat p.nat_changes (λ d. d) h
      | inr m ↦ elim (Among-append (anchor, kind) redirects scrubs m) [
        | inl h ↦ from RulesetKind.redirect p.redirect_changes (λ d. d) h
        | inr h ↦ from RulesetKind.scrub p.scrub_changes (λ d. d) h
      ]
    ]
  ]
    where
      from :
          {R : Type 0} (k : RulesetKind) (cs : List (Str × List R))
          → ((rules : List R) × Among (anchor, rules) cs → Sets p k anchor)
          → Among (anchor, kind) (specs_of k cs)
          → Sets p kind anchor
      from k cs up h = let (q, rs) = specs_of-Among k kind anchor cs h in rw q (up rs)

  pub Sets-specs :
      (kind : RulesetKind) (anchor : Str) → Sets p kind anchor → Among (anchor, kind) (specs p)
  Sets-specs RulesetKind.filter anchor (rules, m) =
      Among-append_left _ filters _ (Among-specs_of RulesetKind.filter anchor rules _ m)
  Sets-specs RulesetKind.nat anchor (rules, m) =
      Among-append_right _ filters _
        (Among-append_left _ nats _ (Among-specs_of RulesetKind.nat anchor rules _ m))
  Sets-specs RulesetKind.redirect anchor (rules, m) = Among-append_right _ filters _ (
      Among-append_right _ nats _ (
        Among-append_left _ redirects scrubs
          (Among-specs_of RulesetKind.redirect anchor rules _ m)))
  Sets-specs RulesetKind.scrub anchor (rules, m) = Among-append_right _ filters _ (
      Among-append_right _ nats _
        (Among-append_right _ redirects scrubs (Among-specs_of RulesetKind.scrub anchor rules _ m)))
