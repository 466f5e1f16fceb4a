-- ===== src/Rule/AddrFamily/Laws.antt =====
-- The byte encoding of a family, and when families agree.
use pfctl_rs.Common.{ℕ, ◌≡◌, refl, ◌≢◌, ◌↔◌, ◌⊎◌, List, [], ◌∷◌, All, arith}
use pfctl_rs.Error.{Error, ErrorKind, kind, Result, ok, err, panic, ◌>>=◌}
use pfctl_rs.Rule.AddrFamily.{AddrFamily, any, ipv4, ipv6, to_u8, try_from, compatible_af}

-- A byte is read as a family exactly if that family is written as the byte. Every other byte is
-- refused, with the byte in the error.
pub addr_family_try_from_iff :
    (b : ℕ)
    → ((af : AddrFamily) → (try_from b ≡ ok af) ↔ (to_u8 af ≡ b))
      × (((af : AddrFamily) → to_u8 af ≢ b) → try_from b ≡ err (Error.invalid_address_family b))
unfolding try_from
addr_family_try_from_iff b = (byte, λ h. ground (arith, h any, h ipv4, h ipv6))
  where
    byte : (af : AddrFamily) → (try_from b ≡ ok af) ↔ (to_u8 af ≡ b)
    byte any = ground arith
    byte ipv4 = ground arith
    byte ipv6 = ground arith

-- A family allows another: `any` is allowed by all.
abbrev pub Allows : AddrFamily → AddrFamily → Type 0
Allows d a = (a ≡ any) ⊎ (a ≡ d)

-- `c` is the join of the families: what allows all of them is what allows `c`.
abbrev pub IsJoin : AddrFamily → List AddrFamily → Type 0
IsJoin c as' = (d : AddrFamily) → All (Allows d) as' ↔ Allows d c

-- The result for a list of families: their join, or an error if no family allows them all.
abbrev pub Joins : List AddrFamily → Result Error AddrFamily → Type 0
Joins as' (ok c) = IsJoin c as'
Joins as' (err e) =
    (kind e ≡ ErrorKind.invalid_rule_combination) × ((d : AddrFamily) → ¬ All (Allows d) as')
Joins as' panic = ⊥

pub compatible_af-Joins : (a b : AddrFamily) → Joins (a ∷ b ∷ []) (compatible_af a b)
unfolding compatible_af
compatible_af-Joins any any = λ d. ground arith
compatible_af-Joins any ipv4 = λ d. ground arith
compatible_af-Joins any ipv6 = λ d. ground arith
compatible_af-Joins ipv4 any = λ d. ground arith
compatible_af-Joins ipv4 ipv4 = λ d. ground arith
compatible_af-Joins ipv4 ipv6 = (refl, λ d h. ground arith)
compatible_af-Joins ipv6 any = λ d. ground arith
compatible_af-Joins ipv6 ipv4 = (refl, λ d h. ground arith)
compatible_af-Joins ipv6 ipv6 = λ d. ground arith

-- One more family, joined from the left.
cons-Joins :
    (a c : AddrFamily) (as' : List AddrFamily) (r : Result Error AddrFamily)
    → IsJoin c as'
    → Joins (a ∷ c ∷ []) r
    → Joins (a ∷ as') r
cons-Joins a c as' (ok e) h j = λ d. ground (arith, h d, j d)
cons-Joins a c as' (err e) h j = (j.0, λ d all. j.1 d (all.0, ((h d).0 all.1, tt)))
cons-Joins a c as' panic h j = j

swap-Joins :
    (a b : AddrFamily) (r : Result Error AddrFamily) → Joins (a ∷ b ∷ []) r → Joins (b ∷ a ∷ []) r
swap-Joins a b (ok e) j = λ d. ground (arith, j d)
swap-Joins a b (err e) j = (j.0, λ d (hb, (ha, u)). j.1 d (ha, (hb, u)))
swap-Joins a b panic j = j

pub bind-Joins :
    (a : AddrFamily) (as' : List AddrFamily) (m : Result Error AddrFamily)
    → Joins as' m
    → Joins (a ∷ as') (m >>= λ c. compatible_af a c)
bind-Joins a as' (ok c) h = cons-Joins a c as' _ h (compatible_af-Joins a c)
bind-Joins a as' (err e) h = (h.0, λ d all. h.1 d all.1)
bind-Joins a as' panic h = h

pub bind-Joins_right :
    (a : AddrFamily) (as' : List AddrFamily) (m : Result Error AddrFamily)
    → Joins as' m
    → Joins (a ∷ as') (m >>= λ c. compatible_af c a)
bind-Joins_right a as' (ok c) h =
    cons-Joins a c as' _ h (swap-Joins c a _ (compatible_af-Joins c a))
bind-Joins_right a as' (err e) h = (h.0, λ d all. h.1 d all.1)
bind-Joins_right a as' panic h = h
