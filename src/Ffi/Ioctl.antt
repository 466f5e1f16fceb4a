-- ===== src/Ffi/Ioctl.antt =====
-- The arguments of the ioctl calls, from src/ffi/pfvar.rs. A pointer to a buffer of the caller is
-- the list that the buffer holds.
use pfctl_rs.Common.{ℕ, List, []}
use pfctl_rs.Common.Int.{ℤ, pos}
use pfctl_rs.Cstr.{zeros}
use pfctl_rs.Ffi.Rule.{
  PfAddr, PfAddrWrap, PfRule, PfPooladdr, zero_addr_wrap, zero_rule, zero_pooladdr,
}

pub record PfiocRule : Type 0 where
  pub action : ℕ
  pub ticket : ℕ
  pub pool_ticket : ℕ
  pub nr : ℕ
  pub anchor : List ℕ
  pub anchor_call : List ℕ
  pub rule : PfRule

pub record PfiocPooladdr : Type 0 where
  pub action : ℕ
  pub ticket : ℕ
  pub nr : ℕ
  pub r_num : ℕ
  pub r_action : ℕ
  pub r_last : ℕ
  pub af : ℕ
  pub anchor : List ℕ
  pub addr : PfPooladdr

-- `pfioc_trans_pfioc_trans_e`
pub record PfiocTransElem : Type 0 where
  pub rs_num : ℤ
  pub anchor : List ℕ
  pub ticket : ℕ

pub record PfiocTrans : Type 0 where
  pub size : ℤ
  pub esize : ℤ
  pub array : List PfiocTransElem

pub record PfsyncStateHost : Type 0 where
  pub addr : PfAddr
  pub port : ℕ

pub record PfsyncState : Type 0 where
  pub ifname : List ℕ
  pub lan : PfsyncStateHost
  pub ext_lan : PfsyncStateHost
  pub anchor : ℕ
  pub af_lan : ℕ
  pub proto : ℕ
  pub direction : ℕ
  pub proto_variant : ℕ
  pub rest : List ℕ

pub record PfiocStateKill : Type 0 where
  pub psk_af : ℕ
  pub psk_proto : ℕ
  pub psk_proto_variant : ℕ
  pub psk_src : PfAddrWrap
  pub psk_dst : PfAddrWrap
  pub psk_ifname : List ℕ
  pub rest : List ℕ

pub record PfiocStates : Type 0 where
  pub ps_len : ℤ
  pub psu_states : List PfsyncState

pub record PfiKif : Type 0 where
  pub pfik_name : List ℕ
  pub pfik_flags : ℤ
  pub rest : List ℕ

pub record PfiocIface : Type 0 where
  pub pfiio_name : List ℕ
  pub pfiio_buffer : List PfiKif
  pub pfiio_esize : ℤ
  pub pfiio_size : ℤ
  pub pfiio_nzero : ℤ
  pub pfiio_flags : ℤ

pub record PfStatus : Type 0 where
  pub running : ℕ
  pub rest : List ℕ

-- What `new_zeroed` gives.
abbrev pub zero_pfioc_rule : PfiocRule
zero_pfioc_rule = record {
  action = 0;
  ticket = 0;
  pool_ticket = 0;
  nr = 0;
  anchor = zeros 1024;
  anchor_call = zeros 1024;
  rule = zero_rule;
}

abbrev pub zero_pfioc_pooladdr : PfiocPooladdr
zero_pfioc_pooladdr = record {
  action = 0;
  ticket = 0;
  nr = 0;
  r_num = 0;
  r_action = 0;
  r_last = 0;
  af = 0;
  anchor = zeros 1024;
  addr = zero_pooladdr;
}

abbrev pub zero_trans_elem : PfiocTransElem
zero_trans_elem = record { rs_num = pos 0; anchor = zeros 1024; ticket = 0 }

abbrev pub zero_pfioc_trans : PfiocTrans
zero_pfioc_trans = record { size = pos 0; esize = pos 0; array = [] }

abbrev zero_state_host : PfsyncStateHost
zero_state_host = record { addr = zeros 16; port = 0 }

abbrev pub zero_pfsync_state : PfsyncState
zero_pfsync_state = record {
  ifname = zeros 16;
  lan = zero_state_host;
  ext_lan = zero_state_host;
  anchor = 0;
  af_lan = 0;
  proto = 0;
  direction = 0;
  proto_variant = 0;
  rest = [];
}

abbrev pub zero_state_kill : PfiocStateKill
zero_state_kill = record {
  psk_af = 0;
  psk_proto = 0;
  psk_proto_variant = 0;
  psk_src = zero_addr_wrap;
  psk_dst = zero_addr_wrap;
  psk_ifname = zeros 16;
  rest = [];
}

abbrev pub zero_pfioc_states : PfiocStates
zero_pfioc_states = record { ps_len = pos 0; psu_states = [] }

abbrev pub zero_kif : PfiKif
zero_kif = record { pfik_name = zeros 16; pfik_flags = pos 0; rest = [] }

abbrev pub zero_pfioc_iface : PfiocIface
zero_pfioc_iface = record {
  pfiio_name = zeros 16;
  pfiio_buffer = [];
  pfiio_esize = pos 0;
  pfiio_size = pos 0;
  pfiio_nzero = pos 0;
  pfiio_flags = pos 0;
}

abbrev pub zero_status : PfStatus
zero_status = record { running = 0; rest = [] }
