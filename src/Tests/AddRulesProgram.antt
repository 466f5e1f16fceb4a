-- ===== src/Tests/AddRulesProgram.antt =====
-- The theorem on examples/add_rules.rs at the small kernel.
use pfctl_rs.Common.{◌≡◌, refl}
use pfctl_rs.Error.{ok}
use pfctl_rs.Programs.AddRules
use pfctl_rs.Programs.AddRules.Appended.{AddsThem, add_rules_main-Appended}
use pfctl_rs.Tests.Platforms.{macos}
use pfctl_rs.Tests.Kernels.{empty, demo, rulesets, demo-IsTransactional}
use pfctl_rs.Tests.Orders.{demo-IsChangeable}
use pfctl_rs.Tests.TransactionProgram.{
  builders, builders-BuildsRules, demo-InsertsElsewhere, test_anchor, test_anchor-eq,
}

done : (AddRules.main macos builders demo empty).0 ≡ ok tt
unfolding AddRules.main AddRules.body AddRules.add_them pfctl_rs.Transaction.commit
    pfctl_rs.Utils.open_pf pfctl_rs.Transaction.trans_elements pfctl_rs.Transaction.changes_of
    pfctl_rs.Utils.copy_anchor_name pfctl_rs.Cstr.try_copy_chars pfctl_rs.Cstr.zeros
    pfctl_rs.Kernel.ioctl_guard pfctl_rs.Transaction.add_changes pfctl_rs.Transaction.assign_tickets
    pfctl_rs.Transaction.setup_trans pfctl_rs.Transaction.add_filter_rule
    pfctl_rs.Rule.Filter.try_copy_to pfctl_rs.Rule.Filter.validate_state_policy
    pfctl_rs.Rule.Interface.try_copy_to pfctl_rs.Rule.Filter.get_af
    pfctl_rs.Rule.AddrFamily.compatible_af pfctl_rs.Rule.Endpoint.try_copy_to
    pfctl_rs.ByteOrder.store16 pfctl_rs.ByteOrder.store32 pfctl_rs.ByteOrder.to_be16
    pfctl_rs.ByteOrder.to_be32 pfctl_rs.Common.contains pfctl_rs.Common.replicate
    pfctl_rs.Kernel.ioctl_guard_or pfctl_rs.Net.ipv4_to_u32 pfctl_rs.Net.segments
    pfctl_rs.Rule.Icmp.copy_to pfctl_rs.Rule.Ip.addr_copy_to pfctl_rs.Rule.Ip.any_ffi_repr
    pfctl_rs.Rule.Ip.copy_to pfctl_rs.Rule.Ip.network_copy_to pfctl_rs.Rule.Log.to_u8
    pfctl_rs.Rule.Owner.gid_copy_to pfctl_rs.Rule.Owner.uid_copy_to
    pfctl_rs.Rule.Port.try_copy_to_pool pfctl_rs.Rule.Port.try_copy_to_range
    pfctl_rs.Rule.TcpFlags.to_u8 pfctl_rs.Transaction.add_rules pfctl_rs.Transaction.add_work
    pfctl_rs.Transaction.commit_with pfctl_rs.Transaction.new_trans_element
    pfctl_rs.Transaction.zip_by_ref pfctl_rs.Transaction.setup_route_pool
    pfctl_rs.Utils.get_pool_ticket pfctl_rs.Cstr.until_nul pfctl_rs.Pfctl.try_add_anchor
    pfctl_rs.Pfctl.add_anchor pfctl_rs.Error.ignore_error_kind pfctl_rs.Programs.Main.with_pf
    pfctl_rs.Pfctl.new pfctl_rs.Pfctl.set_rules pfctl_rs.Pfctl.Finding.position
    pfctl_rs.Common.bytes_eq pfctl_rs.Rule.Endpoint.from_addr pfctl_rs.Rule.Ip.from_addr
    pfctl_rs.Rule.Ip.from_ipv4 pfctl_rs.Transaction.add_redirect_rule
    pfctl_rs.Transaction.add_scrub_rule pfctl_rs.Transaction.setup_endpoint_pool
    pfctl_rs.Rule.Redirect.try_copy_to pfctl_rs.Rule.Redirect.get_af pfctl_rs.Rule.Scrub.try_copy_to
    pfctl_rs.Utils.add_pool_address pfctl_rs.Rule.PoolAddr.try_copy_to
    pfctl_rs.Rule.PoolAddr.to_pool_addr_list pfctl_rs.Rule.PoolAddr.new_list
    pfctl_rs.Programs.SingleRules.rules pfctl_rs.Pfctl.add_rule pfctl_rs.Pfctl.add_redirect_rule
    pfctl_rs.Pfctl.add_scrub_rule pfctl_rs.Utils.get_ticket
done = refl

add_rules_main-Appended_example :
    AddsThem macos rulesets demo-IsTransactional demo-IsChangeable test_anchor test_anchor-eq
      builders builders-BuildsRules demo-InsertsElsewhere empty
      (AddRules.main macos builders demo empty).1
add_rules_main-Appended_example =
    add_rules_main-Appended macos rulesets demo-IsTransactional demo-IsChangeable test_anchor
      test_anchor-eq builders builders-BuildsRules demo-InsertsElsewhere empty done
