-- ===== src/Rule/Port.antt =====
-- `Port` (src/rule/port.rs).
pub mod Laws
use pfctl_rs.Common.{ℕ, ltb, if◌then◌else◌}
use pfctl_rs.Error.{Error, Result, ok, err}
use pfctl_rs.ByteOrder.{to_be16}
use pfctl_rs.Ffi.{
  PfPortRange, PfPool, pf_op_none, pf_op_eq, pf_op_ne, pf_op_lt, pf_op_le, pf_op_gt, pf_op_ge,
  pf_op_irg, pf_op_rrg, pf_op_xrg,
}

pub data PortUnaryModifier : Type 0 where
  equal not_equal greater less greater_or_equal less_or_equal : PortUnaryModifier

pub data PortRangeModifier : Type 0 where
  exclusive inclusive except : PortRangeModifier

pub data Port : Type 0 where
  any : Port
  one : ℕ → PortUnaryModifier → Port
  range : ℕ → ℕ → PortRangeModifier → Port

-- `From<u16>`
abbrev pub from_u16 : ℕ → Port
from_u16 port = one port equal

abbrev pub unary_to_u8 : PortUnaryModifier → ℕ
unary_to_u8 equal = pf_op_eq
unary_to_u8 not_equal = pf_op_ne
unary_to_u8 greater = pf_op_gt
unary_to_u8 less = pf_op_lt
unary_to_u8 greater_or_equal = pf_op_ge
unary_to_u8 less_or_equal = pf_op_le

abbrev pub range_to_u8 : PortRangeModifier → ℕ
range_to_u8 exclusive = pf_op_irg
range_to_u8 inclusive = pf_op_rrg
range_to_u8 except = pf_op_xrg

-- `impl TryCopyTo<pf_port_range> for Port`: in network byte order.
unfoldable pub try_copy_to_range : Port → PfPortRange → Result Error PfPortRange
try_copy_to_range any dst = ok (record dst { op = pf_op_none; port0 = 0; port1 = 0 })
try_copy_to_range (one port modifier) dst =
    ok (record dst { op = unary_to_u8 modifier; port0 = to_be16 port; port1 = 0 })
try_copy_to_range (range start_port end_port modifier) dst =
    if ltb end_port start_port
    then err Error.invalid_port_range
    else ok (record dst {
      op = range_to_u8 modifier;
      port0 = to_be16 start_port;
      port1 = to_be16 end_port;
    })

-- `impl TryCopyTo<pf_pool> for Port`: in host byte order.
unfoldable pub try_copy_to_pool : Port → PfPool → Result Error PfPool
try_copy_to_pool any dst =
    ok (record dst { port_op = pf_op_none; proxy_port0 = 0; proxy_port1 = 0 })
try_copy_to_pool (one port modifier) dst =
    ok (record dst { port_op = unary_to_u8 modifier; proxy_port0 = port; proxy_port1 = 0 })
try_copy_to_pool (range start_port end_port modifier) dst =
    if ltb end_port start_port
    then err Error.invalid_port_range
    else ok (record dst {
      port_op = range_to_u8 modifier;
      proxy_port0 = start_port;
      proxy_port1 = end_port;
    })
