-- ===== src/Error/Succeeds.antt =====
-- Exactly when a chain of fallible steps gives a value.
use pfctl_rs.Common.{◌≡◌, refl, ◌⊎◌, inl, inr}
use pfctl_rs.Error.{Error, Result, ok, err, ◌>>=◌}

-- The result is a value exactly if the condition holds, and an error, never a panic, if not.
abbrev pub SucceedsIff : {A : Type 0} → Type 0 → Result Error A → Type 0
SucceedsIff {A} C r = (C × ((a : A) × (r ≡ ok a))) ⊎ ((¬ C) × ((e : Error) × (r ≡ err e)))

pub bind-SucceedsIff :
    {A B : Type 0} (C D : Type 0) (m : Result Error A) (f : A → Result Error B)
    → SucceedsIff C m
    → ((a : A) → SucceedsIff D (f a))
    → SucceedsIff (C × D) (m >>= f)
bind-SucceedsIff C D m f (inl (c, (a, e))) hf = elim (hf a) [
  | inl (d, (b, q)) ↦ inl ((c, d), (b, rw e q))
  | inr (d, (x, q)) ↦ inr ((λ h. d h.1), (x, rw e q))
]
bind-SucceedsIff C D m f (inr (c, (x, e))) hf = inr ((λ h. c h.0), (x, rw e refl))

-- The condition may be put in other words.
pub iff-SucceedsIff :
    {A : Type 0} (C D : Type 0) (r : Result Error A)
    → (C → D)
    → (D → C)
    → SucceedsIff C r
    → SucceedsIff D r
iff-SucceedsIff C D r to from (inl (c, (a, e))) = inl (to c, (a, e))
iff-SucceedsIff C D r to from (inr (c, (x, e))) = inr ((λ d. c (from d)), (x, e))

-- A last part, and then a value.
pub value-SucceedsIff :
    {A X : Type 0} (C : Type 0) (m : Result Error A) (g : A → X)
    → SucceedsIff C m
    → SucceedsIff C (m >>= λ a. ok (g a))
value-SucceedsIff C m g (inl (c, (a, e))) = inl (c, (g a, rw e refl))
value-SucceedsIff C m g (inr (c, (x, e))) = inr (c, (x, rw e refl))

-- Four parts that do not depend on one another, and then one more step.
pub four-SucceedsIff :
    {A B C D X : Type 0} (a : Type 0) (b : Type 0) (c : Type 0) (d : Type 0) (e : Type 0)
    (m : Result Error A) (n : Result Error B) (o : Result Error C) (p : Result Error D)
    (g : A → B → C → D → Result Error X)
    → SucceedsIff a m
    → SucceedsIff b n
    → SucceedsIff c o
    → SucceedsIff d p
    → ((x : A) (y : B) (z : C) (w : D) → SucceedsIff e (g x y z w))
    → SucceedsIff (a × b × c × d × e) (m >>= λ x. n >>= λ y. o >>= λ z. p >>= λ w. g x y z w)
four-SucceedsIff a b c d e m n o p g hm hn ho hp hg =
    iff-SucceedsIff (a × (b × (c × (d × e)))) (a × b × c × d × e) _
      (λ (k, (l, (q, (r, t)))). (k, l, q, r, t)) (λ (k, l, q, r, t). (k, (l, (q, (r, t)))))
      (bind-SucceedsIff a (b × (c × (d × e))) m (λ x. n >>= λ y. o >>= λ z. p >>= λ w. g x y z w) hm
        λ x.
          bind-SucceedsIff b (c × (d × e)) n (λ y. o >>= λ z. p >>= λ w. g x y z w) hn
            λ y.
              bind-SucceedsIff c (d × e) o (λ z. p >>= λ w. g x y z w) ho
                λ z. bind-SucceedsIff d e p (g x y z) hp (hg x y z))
