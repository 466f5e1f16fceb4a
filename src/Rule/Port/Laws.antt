-- ===== src/Rule/Port/Laws.antt =====
-- When a port is refused, and that the written range names the port again.
use pfctl_rs.Common.{
  inl, inr, Bool-cases, ℕ, ◌^◌, ◌≤◌, ◌<◌, ◌≡◌, refl, Option, none, some, ltb, arith, ◌==◌,
  if◌then◌else◌,
}
use pfctl_rs.Error.{Error, Result, ok, err, panic}
use pfctl_rs.ByteOrder.{to_be16, to_be16-to_be16}
use pfctl_rs.Ffi.{PfPortRange, PfPool}
use pfctl_rs.Rule.Port.{
  unary_to_u8, range_to_u8, Port, any, one, range, PortUnaryModifier, PortRangeModifier,
  try_copy_to_range, try_copy_to_pool,
}

-- The bounds of a range are in order.
abbrev pub IsOrdered : Port → Type 0
IsOrdered (range a b modifier) = a ≤ b
IsOrdered _ = Unit {0}

-- The numbers fit `u16`.
abbrev pub IsPort : Port → Type 0
IsPort any = Unit {0}
IsPort (one a modifier) = a < 2 ^ 16
IsPort (range a b modifier) = (a < 2 ^ 16) × (b < 2 ^ 16)

-- A pf operator read back as what it says of the two numbers beside it.
abbrev pub decode : ℕ → ℕ → ℕ → Option Port
decode op a b =
    if op == 0
    then some any
    else if op == 1
    then some (range a b PortRangeModifier.exclusive)
    else if op == 2
    then some (one a PortUnaryModifier.equal)
    else if op == 3
    then some (one a PortUnaryModifier.not_equal)
    else if op == 4
    then some (one a PortUnaryModifier.less)
    else if op == 5
    then some (one a PortUnaryModifier.less_or_equal)
    else if op == 6
    then some (one a PortUnaryModifier.greater)
    else if op == 7
    then some (one a PortUnaryModifier.greater_or_equal)
    else if op == 8
    then some (range a b PortRangeModifier.except)
    else if op == 9
    then some (range a b PortRangeModifier.inclusive)
    else none

-- What a written range says: its numbers in network byte order.
abbrev pub decode_range : PfPortRange → Option Port
decode_range r = decode r.op (to_be16 r.port0) (to_be16 r.port1)

-- What a written pool says: its numbers in host byte order.
abbrev pub decode_pool : PfPool → Option Port
decode_pool r = decode r.port_op r.proxy_port0 r.proxy_port1

decode-one : (m : PortUnaryModifier) (a b : ℕ) → decode (unary_to_u8 m) a b ≡ some (one a m)
decode-one PortUnaryModifier.equal a b = refl
decode-one PortUnaryModifier.not_equal a b = refl
decode-one PortUnaryModifier.greater a b = refl
decode-one PortUnaryModifier.less a b = refl
decode-one PortUnaryModifier.greater_or_equal a b = refl
decode-one PortUnaryModifier.less_or_equal a b = refl

decode-range : (m : PortRangeModifier) (a b : ℕ) → decode (range_to_u8 m) a b ≡ some (range a b m)
decode-range PortRangeModifier.exclusive a b = refl
decode-range PortRangeModifier.inclusive a b = refl
decode-range PortRangeModifier.except a b = refl

-- What a copy of `p` gives: a value that reads back as `p` if its bounds are in order, and the
-- error for a bad range otherwise.
abbrev pub Written : {A : Type 0} → (A → Option Port) → Port → Result Error A → Type 0
Written read p (ok out) = IsOrdered p × (read out ≡ some p)
Written read p (err e) = (e ≡ Error.invalid_port_range) × ¬ IsOrdered p
Written read p panic = ⊥

-- A port is written for a rule's match so that it reads back, in network byte order, exactly if its
-- bounds are in order; else the error is that of a bad range.
pub try_copy_to_range-Written :
    (p : Port) (dst : PfPortRange) → IsPort p → Written decode_range p (try_copy_to_range p dst)
unfolding try_copy_to_range
try_copy_to_range-Written any dst w = (tt, refl)
try_copy_to_range-Written (one a m) dst w = (tt, rw (decode-one m, to_be16-to_be16 a w))
try_copy_to_range-Written (range a b m) dst w = elim (Bool-cases (ltb b a)) [
  | inl bad ↦ rw bad (refl, λ h. ground arith)
  | inr good ↦
      rw good (ground arith, rw (decode-range m, to_be16-to_be16 a w.0, to_be16-to_be16 b w.1))
]

-- A port is written for address translation so that it reads back, in host byte order, exactly if
-- its bounds are in order; else the error is that of a bad range.
pub try_copy_to_pool-Written :
    (p : Port) (dst : PfPool) → Written decode_pool p (try_copy_to_pool p dst)
unfolding try_copy_to_pool
try_copy_to_pool-Written any dst = (tt, refl)
try_copy_to_pool-Written (one a m) dst = (tt, decode-one m a 0)
try_copy_to_pool-Written (range a b m) dst = elim (Bool-cases (ltb b a)) [
  | inl bad ↦ rw bad (refl, λ h. ground arith)
  | inr good ↦ rw good (ground arith, decode-range m a b)
]

-- A port is written so that it reads back exactly if its bounds are in order, else the error is that
-- of a bad range: for the match of a rule in network byte order, if the port fits 16 bits, and for
-- address translation in host byte order.
pub try_copy_to-Written :
    (p : Port) (dst : PfPortRange) (pool : PfPool)
    → IsPort p
    → Written decode_range p (try_copy_to_range p dst)
      × Written decode_pool p (try_copy_to_pool p pool)
try_copy_to-Written p dst pool w =
    (try_copy_to_range-Written p dst w, try_copy_to_pool-Written p pool)
