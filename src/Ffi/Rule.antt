-- ===== src/Ffi/Rule.antt =====
-- `pf_rule` and what it holds, from src/ffi/pfvar.rs. The fields that the crate never names are
-- carried as `rest`; of a union, the member that the crate writes. A buffer is a list of bytes.
use pfctl_rs.Common.{ℕ, List, []}
use pfctl_rs.Cstr.{zeros}

-- The 16 bytes of a `pf_addr`.
abbrev pub PfAddr : Type 0
PfAddr = List ℕ

pub record PfAddrWrap : Type 0 where
  pub addr : PfAddr
  pub mask : PfAddr
  pub type_ : ℕ
  pub rest : List ℕ

pub record PfPortRange : Type 0 where
  pub port0 : ℕ
  pub port1 : ℕ
  pub op : ℕ

pub record PfRuleAddr : Type 0 where
  pub addr : PfAddrWrap
  pub range : PfPortRange
  pub neg : ℕ

pub record PfRuleUid : Type 0 where
  pub uid0 : ℕ
  pub uid1 : ℕ
  pub op : ℕ

pub record PfRuleGid : Type 0 where
  pub gid0 : ℕ
  pub gid1 : ℕ
  pub op : ℕ

-- The places that a raw pointer of a list of pool addresses may have been taken of: an element of
-- the retained pool, or a local variable (or a field of one) of the call that links the list.
pub data Place : Type 0 where
  pool_elem : ℕ → Place
  elem1_next : ℕ → Place
  elem2 : ℕ → Place
  first_elem last_elem_next list_first : Place

pub data Pointer : Type 0 where
  null : Pointer
  to : Place → Pointer

pub record PfPalist : Type 0 where
  pub tqh_first : Pointer
  pub tqh_last : Pointer

pub record PfPooladdr : Type 0 where
  pub addr : PfAddrWrap
  pub tqe_next : Pointer
  pub tqe_prev : Pointer
  pub ifname : List ℕ
  pub rest : List ℕ

pub record PfPool : Type 0 where
  pub list : PfPalist
  pub proxy_port0 : ℕ
  pub proxy_port1 : ℕ
  pub port_op : ℕ
  pub rest : List ℕ

pub record PfRule : Type 0 where
  pub src : PfRuleAddr
  pub dst : PfRuleAddr
  pub label : List ℕ
  pub ifname : List ℕ
  pub rpool : PfPool
  pub uid : PfRuleUid
  pub gid : PfRuleGid
  pub rule_flag : ℕ
  pub action : ℕ
  pub direction : ℕ
  pub log : ℕ
  pub quick : ℕ
  pub keep_state : ℕ
  pub af : ℕ
  pub proto : ℕ
  pub type_ : ℕ
  pub code : ℕ
  pub flags : ℕ
  pub flagset : ℕ
  pub rt : ℕ
  pub rest : List ℕ

-- What `new_zeroed` gives.
abbrev pub zero_addr_wrap : PfAddrWrap
zero_addr_wrap = record { addr = zeros 16; mask = zeros 16; type_ = 0; rest = [] }

abbrev pub zero_rule_addr : PfRuleAddr
zero_rule_addr = record {
  addr = zero_addr_wrap;
  range = record { port0 = 0; port1 = 0; op = 0 };
  neg = 0;
}

abbrev pub zero_palist : PfPalist
zero_palist = record { tqh_first = null; tqh_last = null }

abbrev pub zero_pooladdr : PfPooladdr
zero_pooladdr = record {
  addr = zero_addr_wrap;
  tqe_next = null;
  tqe_prev = null;
  ifname = zeros 16;
  rest = [];
}

abbrev pub zero_rule : PfRule
zero_rule = record {
  src = zero_rule_addr;
  dst = zero_rule_addr;
  label = zeros 64;
  ifname = zeros 16;
  rpool = record { list = zero_palist; proxy_port0 = 0; proxy_port1 = 0; port_op = 0; rest = [] };
  uid = record { uid0 = 0; uid1 = 0; op = 0 };
  gid = record { gid0 = 0; gid1 = 0; op = 0 };
  rule_flag = 0;
  action = 0;
  direction = 0;
  log = 0;
  quick = 0;
  keep_state = 0;
  af = 0;
  proto = 0;
  type_ = 0;
  code = 0;
  flags = 0;
  flagset = 0;
  rt = 0;
  rest = [];
}
