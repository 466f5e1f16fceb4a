-- ===== src/Rule/Direction.antt =====
-- `Direction` (src/rule/direction.rs).
use pfctl_rs.Common.{ℕ, ◌≡◌, ◌≢◌, ◌↔◌, ◌==◌, if◌then◌else◌, arith}
use pfctl_rs.Error.{Error, Result, ok, err}
use pfctl_rs.Ffi.{pf_inout, pf_in, pf_out}

-- `Direction::In` and `Direction::Out` are `inward` and `outward`.
pub data Direction : Type 0 where
  any inward outward : Direction

-- `u8::from`
abbrev pub to_u8 : Direction → ℕ
to_u8 any = pf_inout
to_u8 inward = pf_in
to_u8 outward = pf_out

unfoldable pub try_from : ℕ → Result Error Direction
try_from direction =
    if direction == to_u8 any
    then ok any
    else if direction == to_u8 inward
    then ok inward
    else if direction == to_u8 outward
    then ok outward
    else err (Error.invalid_direction direction)

-- A byte is read as a direction exactly if that direction is written as the byte. Every other byte
-- is refused, with the byte in the error.
pub direction_try_from_iff :
    (b : ℕ)
    → ((d : Direction) → (try_from b ≡ ok d) ↔ (to_u8 d ≡ b))
      × (((d : Direction) → to_u8 d ≢ b) → try_from b ≡ err (Error.invalid_direction b))
unfolding try_from
direction_try_from_iff b = (byte, λ h. ground (arith, h any, h inward, h outward))
  where
    byte : (d : Direction) → (try_from b ≡ ok d) ↔ (to_u8 d ≡ b)
    byte any = ground arith
    byte inward = ground arith
    byte outward = ground arith
