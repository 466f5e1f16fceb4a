-- ===== src/Programs/TransRules/Submitted.antt =====
-- The rules of examples/transaction.rs can be submitted.
use pfctl_rs.Common.{
  ℕ, ◌≡◌, ◌≢◌, refl, ap, ◌∙◌, sym, inl, inr, Option, none, some, List, [], ◌∷◌, All, Among, arith,
}
use pfctl_rs.Error
use pfctl_rs.Error.{ErrorKind, Result, ok, err, ignore_error_kind}
use pfctl_rs.Error.Succeeds.{SucceedsIff}
use pfctl_rs.Cstr.{Str, zeros}
use pfctl_rs.Platform.{Platform, AcceptsPrefixes}
use pfctl_rs.Ffi.{zero_rule, zero_pooladdr}
use pfctl_rs.Rule.AddrFamily.{AddrFamily}
use pfctl_rs.Rule.PoolAddr
use pfctl_rs.Rule.Port
use pfctl_rs.Rule.Port.Laws.{IsOrdered}
use pfctl_rs.Rule.Ip
use pfctl_rs.Rule.Ip.Laws.{copy_to-ok}
use pfctl_rs.Rule.Interface
use pfctl_rs.Rule.Endpoint
use pfctl_rs.Rule.Endpoint.{Endpoint}
use pfctl_rs.Rule.Filter
use pfctl_rs.Rule.Filter.{FilterRule}
use pfctl_rs.Rule.Redirect
use pfctl_rs.Rule.Redirect.{RedirectRule}
use pfctl_rs.Rule.Writing.{
  FilterIsWritable, RedirectIsWritable, filter-SucceedsIff, redirect-SucceedsIff,
}
use pfctl_rs.Transaction.Submission.{
  route_list, route_addresses, endpoint_pool, address_of, filter_submission, redirect_submission,
}
use pfctl_rs.Programs.TransRules.Built.{drops, redirects}

-- The result is a value.
abbrev pub IsOk : {A : Type 0} → Result Error.Error A → Type 0
IsOk {A} r = (a : A) × (r ≡ ok a)

writable-IsOk : {A C : Type 0} (r : Result Error.Error A) → SucceedsIff C r → C → IsOk r
writable-IsOk r (inl (c, out)) h = out
writable-IsOk r (inr (refused, e)) h = absurd (refused h)

chain-IsOk :
    {A B : Type 0} (r : Result Error.Error A) (f : A → Result Error.Error B)
    → IsOk r
    → ((a : A) → IsOk (f a))
    → IsOk (Error.◌>>=◌ r f)
chain-IsOk r f (a, e) hf = let (b, q) = hf a in (b, rw e q)

module _ (P : Platform) (A : AcceptsPrefixes P) where
  -- What the program drops can be submitted.
  pub drops-IsOk :
      (n : P.Ipv4Network) (port : Port.Port)
      → IsOrdered port
      → IsOk (
          filter_submission
            (drops (Endpoint.from_ip {P = P} (Ip.net (Ip.v4 n))) (Endpoint.from_port P port)))
  unfolding filter_submission route_list route_addresses zeros pfctl_rs.Common.contains
  drops-IsOk n port ordered =
      let r = drops (Endpoint.from_ip {P = P} (Ip.net (Ip.v4 n))) (Endpoint.from_port P port) in
      let writable : FilterIsWritable r zero_rule = (
        inl refl,
        (omega arith, refl),
        (AddrFamily.ipv4, (inl refl, (inr refl, (inl refl, tt)))),
        tt,
        ordered,
        (omega arith, refl),
      ) in
      chain-IsOk (Filter.try_copy_to r zero_rule) _
        (writable-IsOk (Filter.try_copy_to r zero_rule) (filter-SucceedsIff A r zero_rule) writable)
        (λ w. (_, refl))

  any_address-IsOk : IsOk (PoolAddr.try_copy_to (PoolAddr.from_ip {P = P} Ip.any) zero_pooladdr)
  unfolding PoolAddr.try_copy_to Interface.try_copy_to pfctl_rs.Cstr.try_copy_chars zeros
  any_address-IsOk =
      chain-IsOk (Interface.try_copy_to Interface.any zero_pooladdr.ifname) _ (_, refl)
        (λ ifname.
          chain-IsOk (Ip.copy_to {P = P} Ip.any zero_pooladdr.addr) _
            (_, (copy_to-ok P A Ip.any zero_pooladdr.addr).1)
            (λ addr. (record zero_pooladdr { ifname = ifname; addr = addr }, refl)))

  any_list-IsOk : IsOk (PoolAddr.to_pool_addr_list {P = P} Ip.any)
  unfolding PoolAddr.to_pool_addr_list PoolAddr.new_list PoolAddr.init_pool
  any_list-IsOk =
      chain-IsOk (PoolAddr.init_pool (PoolAddr.from_ip {P = P} Ip.any ∷ [])) _
        (chain-IsOk (PoolAddr.try_copy_to (PoolAddr.from_ip {P = P} Ip.any) zero_pooladdr) _
          any_address-IsOk (λ x. (_, refl)))
        (λ pool. (_, refl))

  -- What the program redirects can be submitted.
  pub redirects-IsOk :
      (to redirect_to : ℕ)
      → IsOk (redirect_submission (redirects P (Port.from_u16 to) (Port.from_u16 redirect_to)))
  unfolding redirect_submission endpoint_pool address_of zeros pfctl_rs.Common.contains
      Port.try_copy_to_pool
  redirects-IsOk to redirect_to =
      let r = redirects P (Port.from_u16 to) (Port.from_u16 redirect_to) in
      let writable : RedirectIsWritable r zero_rule = (
        (omega arith, refl),
        (AddrFamily.any, (inl refl, (inl refl, (inl refl, (inl refl, tt))))),
        tt,
        tt,
        (omega arith, refl),
      ) in
      chain-IsOk (Redirect.try_copy_to r zero_rule) _
        (writable-IsOk (Redirect.try_copy_to r zero_rule) (redirect-SucceedsIff A r zero_rule)
          writable)
        (λ w.
          chain-IsOk (endpoint_pool r.redirect_to w.rpool) _
            (chain-IsOk (PoolAddr.to_pool_addr_list {P = P} Ip.any) _ any_list-IsOk
              (λ l. (_, refl)))
            (λ rpool.
              chain-IsOk (address_of (PoolAddr.from_ip r.redirect_to.ip)) _
                (chain-IsOk (PoolAddr.try_copy_to (PoolAddr.from_ip {P = P} Ip.any) zero_pooladdr) _
                  any_address-IsOk (λ x. (_, refl)))
                (λ l. (_, refl))))
