-- ===== src/Transaction/Rules.antt =====
-- `add_filter_rule`, `add_nat_rule`, `add_redirect_rule` and `add_scrub_rule` of `Transaction`, and
-- the address pools that they set up.
use pfctl_rs.Common.{ℕ, Option, none, some, [], ◌∷◌}
use pfctl_rs.Cstr.{Str}
use pfctl_rs.Platform.{Platform}
use pfctl_rs.Ffi.{PfPool, PfPalist, zero_pfioc_rule, zero_rule, pf_change_none}
use pfctl_rs.Kernel.{Kernel, Action, pure, lift, ◌>>=◌, ◌>>◌, ioctl_guard}
use pfctl_rs.Rule.PoolAddr.{PoolAddr, from_ip, new_list, to_pool_addr_list}
use pfctl_rs.Rule.Port
use pfctl_rs.Rule.Route
use pfctl_rs.Rule.Endpoint.{Endpoint, NatEndpoint}
use pfctl_rs.Rule.Filter
use pfctl_rs.Rule.Filter.{FilterRule}
use pfctl_rs.Rule.Nat
use pfctl_rs.Rule.Nat.{NatRule, get_nat_to}
use pfctl_rs.Rule.Redirect
use pfctl_rs.Rule.Redirect.{RedirectRule}
use pfctl_rs.Rule.Scrub
use pfctl_rs.Rule.Scrub.{ScrubRule}
use pfctl_rs.Utils.{copy_anchor_name, add_pool_address, get_pool_ticket}

module _ (P : Platform) (K : Kernel) where
  -- The pool of a route: the list that the rule's `rpool` points to.
  unfoldable pub setup_route_pool : ℕ → Option (PoolAddr P) → ℕ → PfPalist → Action K.State PfPalist
  setup_route_pool fd none pool_ticket list = pure list
  setup_route_pool fd (some pool_addr) pool_ticket list = do
    add_pool_address P K fd pool_addr pool_ticket
    pool_addr_list ← lift (new_list (pool_addr ∷ []))
    pure pool_addr_list.list

  -- The pool of an address to translate to: its list and its ports.
  unfoldable pub setup_endpoint_pool : ℕ → Endpoint P → ℕ → PfPool → Action K.State PfPool
  setup_endpoint_pool fd endpoint pool_ticket rpool = do
    add_pool_address P K fd (from_ip endpoint.ip) pool_ticket
    pool ← lift (to_pool_addr_list endpoint.ip)
    lift (Port.try_copy_to_pool endpoint.port (record rpool { list = pool.list }))

  unfoldable pub setup_nat_pool : ℕ → Option (NatEndpoint P) → ℕ → PfPool → Action K.State PfPool
  unfolding setup_endpoint_pool
  setup_nat_pool fd none pool_ticket rpool = pure rpool
  setup_nat_pool fd (some nat_to) pool_ticket rpool =
      setup_endpoint_pool fd nat_to.endpoint pool_ticket rpool

  unfoldable pub add_filter_rule : ℕ → Str → FilterRule P → ℕ → Action K.State (Unit {0})
  unfolding setup_route_pool
  add_filter_rule fd anchor rule ticket = do
    name ← lift (copy_anchor_name anchor zero_pfioc_rule.anchor)
    pf_rule ← lift (Filter.try_copy_to rule zero_rule)
    pool_ticket ← get_pool_ticket P K fd
    list ← setup_route_pool fd (Route.get_pool_addr rule.route) pool_ticket pf_rule.rpool.list
    ioctl_guard P (K.pf_add_rule fd) (record zero_pfioc_rule {
      action = pf_change_none;
      anchor = name;
      rule = record pf_rule { rpool = record pf_rule.rpool { list = list } };
      ticket = ticket;
      pool_ticket = pool_ticket;
    })
    pure tt

  unfoldable pub add_nat_rule : ℕ → Str → NatRule P → ℕ → Action K.State (Unit {0})
  unfolding setup_nat_pool
  add_nat_rule fd anchor rule ticket = do
    name ← lift (copy_anchor_name anchor zero_pfioc_rule.anchor)
    pf_rule ← lift (Nat.try_copy_to rule zero_rule)
    pool_ticket ← get_pool_ticket P K fd
    rpool ← setup_nat_pool fd (get_nat_to rule) pool_ticket pf_rule.rpool
    ioctl_guard P (K.pf_add_rule fd) (record zero_pfioc_rule {
      anchor = name;
      rule = record pf_rule { rpool = rpool };
      ticket = ticket;
      pool_ticket = pool_ticket;
    })
    pure tt

  unfoldable pub add_redirect_rule : ℕ → Str → RedirectRule P → ℕ → Action K.State (Unit {0})
  unfolding setup_endpoint_pool
  add_redirect_rule fd anchor rule ticket = do
    name ← lift (copy_anchor_name anchor zero_pfioc_rule.anchor)
    pf_rule ← lift (Redirect.try_copy_to rule zero_rule)
    pool_ticket ← get_pool_ticket P K fd
    rpool ← setup_endpoint_pool fd rule.redirect_to pool_ticket pf_rule.rpool
    ioctl_guard P (K.pf_add_rule fd) (record zero_pfioc_rule {
      anchor = name;
      rule = record pf_rule { rpool = rpool };
      ticket = ticket;
      pool_ticket = pool_ticket;
    })
    pure tt

  unfoldable pub add_scrub_rule : ℕ → Str → ScrubRule → ℕ → Action K.State (Unit {0})
  add_scrub_rule fd anchor rule ticket = do
    name ← lift (copy_anchor_name anchor zero_pfioc_rule.anchor)
    pf_rule ← lift (Scrub.try_copy_to rule zero_rule)
    pool_ticket ← get_pool_ticket P K fd
    ioctl_guard P (K.pf_add_rule fd) (record zero_pfioc_rule {
      anchor = name;
      rule = pf_rule;
      ticket = ticket;
      pool_ticket = pool_ticket;
    })
    pure tt
