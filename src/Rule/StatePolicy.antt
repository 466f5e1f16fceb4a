-- ===== src/Rule/StatePolicy.antt =====
-- `StatePolicy` (src/rule/state_policy.rs).
use pfctl_rs.Common.{ℕ, String}
use pfctl_rs.Ffi.{pf_state_normal, pf_state_modulate, pf_state_synproxy}

-- `StatePolicy::None` is `off`.
pub data StatePolicy : Type 0 where
  off keep modulate syn_proxy : StatePolicy

-- `u8::from`
abbrev pub to_u8 : StatePolicy → ℕ
to_u8 off = 0
to_u8 keep = pf_state_normal
to_u8 modulate = pf_state_modulate
to_u8 syn_proxy = pf_state_synproxy

-- `{:?}`
abbrev pub to_string : StatePolicy → String
to_string off = "None"
to_string keep = "Keep"
to_string modulate = "Modulate"
to_string syn_proxy = "SynProxy"
