-- ===== src/Ffi/Consts.antt =====
-- The constants of src/ffi/pfvar.rs and src/ffi/mod.rs that the crate reads.
use pfctl_rs.Common.{ℕ}

abbrev pub pf_unspec : ℕ
pf_unspec = 0

abbrev pub pf_inet : ℕ
pf_inet = 2

abbrev pub pf_inet6 : ℕ
pf_inet6 = 30

abbrev pub pf_log : ℕ
pf_log = 1

abbrev pub pf_log_all : ℕ
pf_log_all = 2

abbrev pub pf_log_socket_lookup : ℕ
pf_log_socket_lookup = 4

abbrev pub pf_state_normal : ℕ
pf_state_normal = 1

abbrev pub pf_state_modulate : ℕ
pf_state_modulate = 2

abbrev pub pf_state_synproxy : ℕ
pf_state_synproxy = 3

abbrev pub pfrule_drop : ℕ
pfrule_drop = 0

abbrev pub pfrule_returnrst : ℕ
pfrule_returnrst = 1

abbrev pub pfrule_returnicmp : ℕ
pfrule_returnicmp = 4

abbrev pub pfrule_return : ℕ
pfrule_return = 8

abbrev pub pf_inout : ℕ
pf_inout = 0

abbrev pub pf_in : ℕ
pf_in = 1

abbrev pub pf_out : ℕ
pf_out = 2

abbrev pub pf_pass : ℕ
pf_pass = 0

abbrev pub pf_drop : ℕ
pf_drop = 1

abbrev pub pf_scrub : ℕ
pf_scrub = 2

abbrev pub pf_noscrub : ℕ
pf_noscrub = 3

abbrev pub pf_nat : ℕ
pf_nat = 4

abbrev pub pf_nonat : ℕ
pf_nonat = 5

abbrev pub pf_rdr : ℕ
pf_rdr = 8

abbrev pub pf_nordr : ℕ
pf_nordr = 9

abbrev pub pf_ruleset_scrub : ℕ
pf_ruleset_scrub = 0

abbrev pub pf_ruleset_filter : ℕ
pf_ruleset_filter = 1

abbrev pub pf_ruleset_nat : ℕ
pf_ruleset_nat = 2

abbrev pub pf_ruleset_rdr : ℕ
pf_ruleset_rdr = 4

abbrev pub pf_op_none : ℕ
pf_op_none = 0

abbrev pub pf_op_irg : ℕ
pf_op_irg = 1

abbrev pub pf_op_eq : ℕ
pf_op_eq = 2

abbrev pub pf_op_ne : ℕ
pf_op_ne = 3

abbrev pub pf_op_lt : ℕ
pf_op_lt = 4

abbrev pub pf_op_le : ℕ
pf_op_le = 5

abbrev pub pf_op_gt : ℕ
pf_op_gt = 6

abbrev pub pf_op_ge : ℕ
pf_op_ge = 7

abbrev pub pf_op_xrg : ℕ
pf_op_xrg = 8

abbrev pub pf_op_rrg : ℕ
pf_op_rrg = 9

abbrev pub pf_change_none : ℕ
pf_change_none = 0

abbrev pub pf_change_add_tail : ℕ
pf_change_add_tail = 2

abbrev pub pf_change_get_ticket : ℕ
pf_change_get_ticket = 6

abbrev pub pf_get_none : ℕ
pf_get_none = 0

abbrev pub pf_nopfroute : ℕ
pf_nopfroute = 0

abbrev pub pf_routeto : ℕ
pf_routeto = 2

abbrev pub pf_dupto : ℕ
pf_dupto = 3

abbrev pub pf_replyto : ℕ
pf_replyto = 4

abbrev pub pf_addr_addrmask : ℕ
pf_addr_addrmask = 0

abbrev pub th_fin : ℕ
th_fin = 1

abbrev pub th_syn : ℕ
th_syn = 2

abbrev pub th_rst : ℕ
th_rst = 4

abbrev pub th_psh : ℕ
th_psh = 8

abbrev pub th_ack : ℕ
th_ack = 16

abbrev pub th_urg : ℕ
th_urg = 32

abbrev pub th_ece : ℕ
th_ece = 64

abbrev pub th_cwr : ℕ
th_cwr = 128
