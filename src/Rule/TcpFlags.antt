-- ===== src/Rule/TcpFlags.antt =====
-- `TcpFlag`, `TcpFlagSet` and `TcpFlags` (src/rule/tcp_flags.rs).
use pfctl_rs.Common.{ℕ, bit_or, List, foldl}
use pfctl_rs.Ffi.{th_fin, th_syn, th_rst, th_psh, th_ack, th_urg, th_ece, th_cwr}

pub data TcpFlag : Type 0 where
  any syn ack fin rst psh urg ece cwr : TcpFlag

-- `u8::from(TcpFlag)`
abbrev pub flag_to_u8 : TcpFlag → ℕ
flag_to_u8 any = 0
flag_to_u8 fin = th_fin
flag_to_u8 syn = th_syn
flag_to_u8 rst = th_rst
flag_to_u8 psh = th_psh
flag_to_u8 ack = th_ack
flag_to_u8 urg = th_urg
flag_to_u8 ece = th_ece
flag_to_u8 cwr = th_cwr

pub record TcpFlagSet : Type 0 where
  pub flags : List TcpFlag

-- `u8::from(&TcpFlagSet)`
unfoldable pub to_u8 : TcpFlagSet → ℕ
to_u8 set = foldl (λ acc x. bit_or acc (flag_to_u8 x)) 0 set.flags

pub record TcpFlags : Type 0 where
  pub check : TcpFlagSet
  pub mask : TcpFlagSet

-- `TcpFlags::new`, and `From` for a pair
abbrev pub new : List TcpFlag → List TcpFlag → TcpFlags
new check mask = record { check = record { flags = check }; mask = record { flags = mask } }
