-- ===== src/Transaction/Submission.antt =====
-- What each kind of rule is submitted as: its own encoding with the pool that goes with it, and the
-- encoded addresses of that pool.
use pfctl_rs.Common.{Option, none, some, List, [], ◌∷◌}
use pfctl_rs.Error.{Error, Result, ok, ◌>>=◌}
use pfctl_rs.Platform.{Platform}
use pfctl_rs.Ffi.{PfPool, PfPalist, PfPooladdr, zero_rule, zero_pooladdr}
use pfctl_rs.Rule.PoolAddr
use pfctl_rs.Rule.PoolAddr.{PoolAddr, from_ip, new_list, to_pool_addr_list}
use pfctl_rs.Rule.Port
use pfctl_rs.Rule.Route
use pfctl_rs.Rule.Endpoint.{Endpoint, NatEndpoint}
use pfctl_rs.Rule.Filter
use pfctl_rs.Rule.Filter.{FilterRule}
use pfctl_rs.Rule.Nat
use pfctl_rs.Rule.Nat.{NatRule, get_nat_to}
use pfctl_rs.Rule.Redirect
use pfctl_rs.Rule.Redirect.{RedirectRule}
use pfctl_rs.Rule.Scrub
use pfctl_rs.Rule.Scrub.{ScrubRule}
use pfctl_rs.Transaction.Rulesets.{Submitted}

-- The one address of a pool, encoded.
unfoldable pub address_of : {P : Platform} → PoolAddr P → Result Error (List PfPooladdr)
address_of pool_addr = do addr ← PoolAddr.try_copy_to pool_addr zero_pooladdr; ok (addr ∷ [])

unfoldable pub route_addresses :
    {P : Platform} → Option (PoolAddr P) → Result Error (List PfPooladdr)
route_addresses none = ok []
route_addresses (some pool_addr) = address_of pool_addr

unfoldable pub nat_addresses :
    {P : Platform} → Option (NatEndpoint P) → Result Error (List PfPooladdr)
nat_addresses none = ok []
nat_addresses (some nat_to) = address_of (from_ip nat_to.endpoint.ip)

unfoldable pub route_list : {P : Platform} → Option (PoolAddr P) → PfPalist → Result Error PfPalist
route_list none list = ok list
route_list (some pool_addr) list = do l ← new_list (pool_addr ∷ []); ok l.list

unfoldable pub endpoint_pool : {P : Platform} → Endpoint P → PfPool → Result Error PfPool
endpoint_pool endpoint rpool = do
  pool ← to_pool_addr_list endpoint.ip
  Port.try_copy_to_pool endpoint.port (record rpool { list = pool.list })

unfoldable pub nat_pool : {P : Platform} → Option (NatEndpoint P) → PfPool → Result Error PfPool
nat_pool none rpool = ok rpool
nat_pool (some nat_to) rpool = endpoint_pool nat_to.endpoint rpool

unfoldable pub filter_submission : {P : Platform} → FilterRule P → Result Error Submitted
filter_submission rule = do
  pf_rule ← Filter.try_copy_to rule zero_rule
  list ← route_list (Route.get_pool_addr rule.route) pf_rule.rpool.list
  addresses ← route_addresses (Route.get_pool_addr rule.route)
  ok (record pf_rule { rpool = record pf_rule.rpool { list = list } }, addresses)

unfoldable pub nat_submission : {P : Platform} → NatRule P → Result Error Submitted
nat_submission rule = do
  pf_rule ← Nat.try_copy_to rule zero_rule
  rpool ← nat_pool (get_nat_to rule) pf_rule.rpool
  addresses ← nat_addresses (get_nat_to rule)
  ok (record pf_rule { rpool = rpool }, addresses)

unfoldable pub redirect_submission : {P : Platform} → RedirectRule P → Result Error Submitted
redirect_submission rule = do
  pf_rule ← Redirect.try_copy_to rule zero_rule
  rpool ← endpoint_pool rule.redirect_to pf_rule.rpool
  addresses ← address_of (from_ip rule.redirect_to.ip)
  ok (record pf_rule { rpool = rpool }, addresses)

unfoldable pub scrub_submission : ScrubRule → Result Error Submitted
scrub_submission rule = do pf_rule ← Scrub.try_copy_to rule zero_rule; ok (pf_rule, [])

-- All rules of a list, in order.
unfoldable pub all_submitted :
    {R : Type 0} → (R → Result Error Submitted) → List R → Result Error (List Submitted)
all_submitted submission [] = ok []
all_submitted submission (rule ∷ rules) = do
  p ← submission rule
  ps ← all_submitted submission rules
  ok (p ∷ ps)
