-- ===== src/Rule/Flags.antt =====
-- `RuleLogSet` and `TcpFlagSet` as sets: which bits `u8::from` sets (src/rule/rule_log.rs,
-- src/rule/tcp_flags.rs).
use pfctl_rs.Common.{
  ℕ, zero, suc, ◌/◌, ◌%◌, ◌<◌, ◌≡◌, ◌≢◌, ◌↔◌, ◌⊎◌, inl, inr, refl, sym, ap, ◌∙◌, Bool, true, false,
  not, ◌&&◌, ◌||◌, ◌==◌, ==_iff, leb, bit_or, foldl, List, [], ◌∷◌, Among, arith,
}
use pfctl_rs.Rule.Log
use pfctl_rs.Rule.Log.{RuleLog, RuleLogSet, log_to_u8}
use pfctl_rs.Rule.TcpFlags
use pfctl_rs.Rule.TcpFlags.{TcpFlag, TcpFlagSet, flag_to_u8}

-- The bit with the value `v`, a power of two, is set.
abbrev pub has_bit : ℕ → ℕ → Bool
has_bit n v = n / v % 2 == 1

same_bool : Bool → Bool → Bool
same_bool true b = b
same_bool false true = false
same_bool false false = true

every : (ℕ → Bool) → List ℕ → Bool
every p [] = true
every p (x ∷ xs) = p x && every p xs

every_sound : (p : ℕ → Bool) (xs : List ℕ) (x : ℕ) → every p xs ≡ true → Among x xs → p x ≡ true
unfolding every
every_sound p [] x h m = absurd m
every_sound p (y ∷ xs) x h (inl e) = let first : p y ≡ true = ground arith in ap p e ∙ first
every_sound p (y ∷ xs) x h (inr m) = every_sound p xs x (ground arith) m

suc_cases : (v bound : ℕ) → v < suc bound → (v ≡ bound) ⊎ (v < bound)
suc_cases v bound lt = omega arith

-- The numbers under a bound, the largest first.
below : ℕ → List ℕ
below zero = []
below (suc bound) = bound ∷ below bound

Among-below : (bound v : ℕ) → v < bound → Among v (below bound)
unfolding below
Among-below zero v lt = absurd (omega arith)
Among-below (suc bound) v lt = elim (suc_cases v bound lt) [
  | inl top ↦ inl top
  | inr under ↦ inr (Among-below bound v under)
]

-- The values of the single bits of a byte, and these with none.
abbrev pub bits : List ℕ
bits = 1 ∷ 2 ∷ 4 ∷ 8 ∷ 16 ∷ 32 ∷ 64 ∷ 128 ∷ []

abbrev codes : List ℕ
codes = 0 ∷ bits

adds_bit : ℕ → ℕ → ℕ → Bool
unfolding same_bool
adds_bit n c v = same_bool (has_bit (bit_or n c) v) (has_bit n v || c == v)

or_table :
    every (λ n. every (λ c. leb (bit_or n c) 255 && every (adds_bit n c) bits) codes) (below 256)
    ≡ true
unfolding every adds_bit below
or_table = refl

both : (a b : Bool) → (a && b) ≡ true → (a ≡ true) × (b ≡ true)
both a b h = ground arith

or_true : (a b : Bool) → (a || b) ≡ true → (a ≡ true) ⊎ (b ≡ true)
or_true true b h = inl refl
or_true false b h = inr h

true_or : (a b : Bool) → (a ≡ true) ⊎ (b ≡ true) → (a || b) ≡ true
true_or a b h = ground arith

same_bool-eq : (a b : Bool) → same_bool a b ≡ true → a ≡ b
unfolding same_bool
same_bool-eq true b h = sym h
same_bool-eq false true h = h
same_bool-eq false false h = refl

-- Or with a code sets its bit and leaves the others, in a byte.
or_code :
    (n c v : ℕ)
    → n < 256
    → Among c codes
    → Among v bits
    → (bit_or n c < 256) × (has_bit (bit_or n c) v ≡ (has_bit n v || c == v))
unfolding adds_bit same_bool
or_code n c v lt mc mv =
    let row =
      every_sound (λ c. leb (bit_or n c) 255 && every (adds_bit n c) bits) codes c
        (every_sound (λ n. every (λ c. leb (bit_or n c) 255 && every (adds_bit n c) bits) codes)
          (below 256) n or_table (Among-below 256 n lt))
        mc in
    let (byte, cells) = both (leb (bit_or n c) 255) (every (adds_bit n c) bits) row in
    (
      ground arith,
      same_bool-eq (has_bit (bit_or n c) v) (has_bit n v || c == v)
          (every_sound (adds_bit n c) bits v cells mv),
    )

module _ {F : Type 0} (code : F → ℕ) (coded : (x : F) → Among (code x) codes) (v : ℕ)
    (single : Among v bits) where
  -- A code of one of the flags is the bit.
  abbrev Sets : List F → Type 0
  Sets xs = (x : F) × Among x xs × (code x ≡ v)

  fold_codes :
      (xs : List F) (acc : ℕ)
      → acc < 256
      → let n = foldl (λ acc x. bit_or acc (code x)) acc xs in
        (n < 256) × ((has_bit n v ≡ true) ↔ ((has_bit acc v ≡ true) ⊎ Sets xs))
  fold_codes [] acc lt =
      (lt, ((λ h. inl h), (λ h. elim h [ inl b ↦ b | inr (x, m, e) ↦ absurd m ])))
  fold_codes (y ∷ xs) acc lt =
      let (lt', step) = or_code acc (code y) v lt (coded y) single in
      let (bound, iff) = fold_codes xs (bit_or acc (code y)) lt' in
      (
        bound,
        (
          λ h. elim (iff.0 h) [
            | inl b ↦ elim (or_true (has_bit acc v) (code y == v) (sym step ∙ b)) [
              | inl old ↦ inl old
              | inr new ↦ inr (y, inl refl, (==_iff (code y) v).0 new)
            ]
            | inr (x, m, e) ↦ inr (x, inr m, e)
          ],
          λ h. iff.1 (elim h [
            | inl old ↦ inl (step ∙ true_or (has_bit acc v) (code y == v) (inl old))
            | inr (x, m, e) ↦ elim m [
              | inl q ↦ inl (
                  step
                  ∙ true_or (has_bit acc v) (code y == v)
                      (inr ((==_iff (code y) v).1 (sym (ap code q) ∙ e))))
              | inr later ↦ inr (x, later, e)
            ]
          ]),
        ),
      )

flag_coded : (x : TcpFlag) → Among (flag_to_u8 x) codes
flag_coded TcpFlag.any = inl refl
flag_coded TcpFlag.fin = inr (inl refl)
flag_coded TcpFlag.syn = inr (inr (inl refl))
flag_coded TcpFlag.rst = inr (inr (inr (inl refl)))
flag_coded TcpFlag.psh = inr (inr (inr (inr (inl refl))))
flag_coded TcpFlag.ack = inr (inr (inr (inr (inr (inl refl)))))
flag_coded TcpFlag.urg = inr (inr (inr (inr (inr (inr (inl refl))))))
flag_coded TcpFlag.ece = inr (inr (inr (inr (inr (inr (inr (inl refl)))))))
flag_coded TcpFlag.cwr = inr (inr (inr (inr (inr (inr (inr (inr (inl refl))))))))

log_coded : (x : RuleLog) → Among (log_to_u8 x) codes
log_coded RuleLog.exclude_matching_state = inr (inl refl)
log_coded RuleLog.include_matching_state = inr (inr (inl refl))
log_coded RuleLog.socket_owner = inr (inr (inr (inl refl)))

no_bits_table : every (λ v. not (has_bit 0 v)) bits ≡ true
unfolding every
no_bits_table = refl

no_bits : (v : ℕ) → Among v bits → has_bit 0 v ≢ true
no_bits v m h = ground (arith, every_sound (λ v. not (has_bit 0 v)) bits v no_bits_table m)

-- A fold from 0 has exactly the bits of the list.
from_zero :
    {F : Type 0} (code : F → ℕ) (xs : List F) (v n : ℕ)
    → ((has_bit n v ≡ true) ↔ ((has_bit 0 v ≡ true) ⊎ (x : F) × Among x xs × (code x ≡ v)))
    → Among v bits
    → (has_bit n v ≡ true) ↔ ((x : F) × Among x xs × (code x ≡ v))
from_zero code xs v n h m = (
  λ b. elim (h.0 b) [ inl zero_bit ↦ absurd (no_bits v m zero_bit) | inr s ↦ s ],
  λ s. h.1 (inr s),
)

-- A set of TCP flags and a set of log options are written as bytes in which exactly the bits of
-- their members are set: in whatever order the members are listed, and however often.
pub to_u8-has_bit :
    (flags : TcpFlagSet) (logs : RuleLogSet)
    → (TcpFlags.to_u8 flags < 256)
      × (Log.to_u8 logs < 256)
      × ((v : ℕ)
          → Among v bits
          → (has_bit (TcpFlags.to_u8 flags) v ≡ true)
            ↔ ((x : TcpFlag) × Among x flags.flags × (flag_to_u8 x ≡ v)))
      × ((v : ℕ)
          → Among v bits
          → (has_bit (Log.to_u8 logs) v ≡ true)
            ↔ ((x : RuleLog) × Among x logs.logs × (log_to_u8 x ≡ v)))
unfolding TcpFlags.to_u8 Log.to_u8
to_u8-has_bit flags logs = (
  (fold_codes flag_to_u8 flag_coded 1 (inl refl) flags.flags 0 (omega arith)).0,
  (fold_codes log_to_u8 log_coded 1 (inl refl) logs.logs 0 (omega arith)).0,
  λ v m.
      from_zero flag_to_u8 flags.flags v _
        (fold_codes flag_to_u8 flag_coded v m flags.flags 0 (omega arith)).1 m,
  λ v m.
      from_zero log_to_u8 logs.logs v _
        (fold_codes log_to_u8 log_coded v m logs.logs 0 (omega arith)).1 m,
)
