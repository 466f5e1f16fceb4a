-- ===== src/Rule/Log.antt =====
-- `RuleLog` and `RuleLogSet` (src/rule/rule_log.rs).
use pfctl_rs.Common.{ℕ, bit_or, List, [], ◌∷◌, foldl}
use pfctl_rs.Ffi.{pf_log, pf_log_all, pf_log_socket_lookup}

pub data RuleLog : Type 0 where
  exclude_matching_state include_matching_state socket_owner : RuleLog

-- `u8::from(RuleLog)`
abbrev pub log_to_u8 : RuleLog → ℕ
log_to_u8 exclude_matching_state = pf_log
log_to_u8 include_matching_state = pf_log_all
log_to_u8 socket_owner = pf_log_socket_lookup

pub record RuleLogSet : Type 0 where
  pub logs : List RuleLog

-- `RuleLogSet::new`, and `From<RuleLog>`
abbrev pub new : List RuleLog → RuleLogSet
new set = record { logs = set }

abbrev pub from_log : RuleLog → RuleLogSet
from_log rule_log = record { logs = rule_log ∷ [] }

-- `u8::from(&RuleLogSet)`
unfoldable pub to_u8 : RuleLogSet → ℕ
to_u8 set = foldl (λ acc x. bit_or acc (log_to_u8 x)) 0 set.logs
