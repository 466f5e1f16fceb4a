-- ===== src/ByteOrder.antt =====
-- The byte order of a little-endian target, which every macOS machine is: `to_be` and `from_be`
-- swap the bytes, and an integer is stored with its low byte first.
use pfctl_rs.Common.{
  ℕ, zero, suc, ◌+◌, ◌*◌, ◌/◌, ◌%◌, ◌^◌, ◌<◌, ◌≡◌, refl, List, [], ◌∷◌, length, overlay, arith,
}

-- The byte at an index of a buffer, 0 past its end.
abbrev pub byte_at : List ℕ → ℕ → ℕ
byte_at [] i = 0
byte_at (x ∷ xs) zero = x
byte_at (x ∷ xs) (suc i) = byte_at xs i

-- `u16::to_be` and `u16::from_be`
unfoldable pub to_be16 : ℕ → ℕ
to_be16 x = x % 256 * 256 + x / 256 % 256

-- `u32::to_be` and `u32::from_be`
unfoldable pub to_be32 : ℕ → ℕ
to_be32 x = x % 256 * 2 ^ 24 + x / 256 % 256 * 2 ^ 16 + x / 2 ^ 16 % 256 * 256 + x / 2 ^ 24 % 256

-- The bytes of a stored `u16` and `u32`.
unfoldable pub store16 : ℕ → List ℕ
store16 x = x % 256 ∷ x / 256 % 256 ∷ []

unfoldable pub store32 : ℕ → List ℕ
store32 x = x % 256 ∷ x / 256 % 256 ∷ x / 2 ^ 16 % 256 ∷ x / 2 ^ 24 % 256 ∷ []

-- The `u32` that stands in the first four bytes of a buffer.
unfoldable pub load32 : List ℕ → ℕ
load32 xs = byte_at xs 0 + byte_at xs 1 * 256 + byte_at xs 2 * 2 ^ 16 + byte_at xs 3 * 2 ^ 24

pub to_be16-to_be16 : (x : ℕ) → x < 2 ^ 16 → to_be16 (to_be16 x) ≡ x
unfolding to_be16
to_be16-to_be16 x h = omega arith

pub to_be16-lt : (x : ℕ) → to_be16 x < 2 ^ 16
unfolding to_be16
to_be16-lt x = omega arith

pub to_be32-to_be32 : (x : ℕ) → x < 2 ^ 32 → to_be32 (to_be32 x) ≡ x
unfolding to_be32
to_be32-to_be32 x h = omega arith

-- Network order stored on this target is the most significant byte first.
pub store32-to_be32 :
    (a b c d : ℕ)
    → a < 256
    → b < 256
    → c < 256
    → d < 256
    → store32 (to_be32 (a * 2 ^ 24 + b * 2 ^ 16 + c * 256 + d)) ≡ a ∷ b ∷ c ∷ d ∷ []
unfolding store32 to_be32
store32-to_be32 a b c d ha hb hc hd = ground arith

pub store16-to_be16 : (a b : ℕ) → a < 256 → b < 256 → store16 (to_be16 (a * 256 + b)) ≡ a ∷ b ∷ []
unfolding store16 to_be16
store16-to_be16 a b ha hb = ground arith

pub byte_at-overlay :
    (i : ℕ) (xs dst : List ℕ)
    → i < length xs
    → i < length dst
    → byte_at (overlay xs dst) i ≡ byte_at xs i
byte_at-overlay i [] dst h k = absurd (omega arith)
byte_at-overlay i (x ∷ xs) [] h k = absurd (omega arith)
byte_at-overlay zero (x ∷ xs) (y ∷ dst) h k = refl
byte_at-overlay (suc i) (x ∷ xs) (y ∷ dst) h k =
    byte_at-overlay i xs dst (omega arith) (omega arith)
