-- ===== src/Transaction/Translating.antt =====
-- What the pool that is set up for a NAT or redirect rule says of the address and the ports to
-- translate to.
use pfctl_rs.Common.{ℕ, ◌≡◌, some, List, []}
use pfctl_rs.Error.{ok, >>=-eq-ok}
use pfctl_rs.Platform.{Platform}
use pfctl_rs.Ffi.{PfPool, PfPooladdr}
use pfctl_rs.Kernel.{Kernel}
use pfctl_rs.Rule.PoolAddr.{from_ip, to_pool_addr_list}
use pfctl_rs.Rule.Port
use pfctl_rs.Rule.Port.Laws.{IsOrdered, decode_pool, try_copy_to_pool-Written}
use pfctl_rs.Rule.Endpoint.{Endpoint, NatEndpoint}
use pfctl_rs.Rule.Filter.Decoding.{Written-ok}
use pfctl_rs.Transaction.{setup_endpoint_pool, setup_nat_pool}
use pfctl_rs.Transaction.Rulesets.{Rulesets, IsTransactional}
use pfctl_rs.Transaction.Submission.{endpoint_pool, address_of}
use pfctl_rs.Transaction.Adding.{endpoint_pool-pure, endpoint_pool-Pools}

-- A pool that says which ports to translate to, in host byte order.
abbrev pub TranslatesTo : {P : Platform} → Endpoint P → PfPool → Type 0
TranslatesTo e pool = IsOrdered e.port × (decode_pool pool ≡ some e.port)

endpoint_pool-TranslatesTo :
    {P : Platform} (e : Endpoint P) (pool : PfPool) {out : PfPool}
    → endpoint_pool e pool ≡ ok out
    → TranslatesTo e out
unfolding endpoint_pool
endpoint_pool-TranslatesTo e pool {out} h =
    let (l, q, k) =
      >>=-eq-ok (to_pool_addr_list e.ip)
        (λ l. Port.try_copy_to_pool e.port (record pool { list = l.list })) h in
    Written-ok decode_pool e.port _ out
      (try_copy_to_pool-Written e.port (record pool { list = l.list })) k

module _ (P : Platform) {K : Kernel} (V : Rulesets K) (L : IsTransactional K V) where
  -- The encoded address of the endpoint is the one address in the buffer of the pool ticket.
  abbrev pub SendsAddress : Endpoint P → ℕ → K.State → Type 0
  SendsAddress e t s =
      (l : List PfPooladdr) × (address_of (from_ip e.ip) ≡ ok l) × (V.buffered s t ≡ l)

  -- If the pool for an endpoint to redirect to, or for an endpoint to translate to, is set up with a
  -- pool ticket whose buffer is empty, then its ports are those of the endpoint, as they were given,
  -- with their bounds in order, and the buffer holds the encoded address of the endpoint, and only
  -- that.
  pub setup_endpoint_pool-TranslatesTo :
      (fd : ℕ) (e : Endpoint P) (nat_to : NatEndpoint P) (t : ℕ) (pool x y : PfPool) (s : K.State)
      → V.buffered s t ≡ []
      → (setup_endpoint_pool P K fd e t pool s).0 ≡ ok x
      → (setup_nat_pool P K fd (some nat_to) t pool s).0 ≡ ok y
      → (TranslatesTo e x × SendsAddress e t (setup_endpoint_pool P K fd e t pool s).1)
        × (TranslatesTo nat_to.endpoint y
            × SendsAddress nat_to.endpoint t (setup_nat_pool P K fd (some nat_to) t pool s).1)
  unfolding setup_nat_pool
  setup_endpoint_pool-TranslatesTo fd e nat_to t pool x y s clear h k = (
    (
      endpoint_pool-TranslatesTo e pool (endpoint_pool-pure P V L fd e t pool s x h),
      endpoint_pool-Pools P V L fd e t pool s x h clear,
    ),
    (
      endpoint_pool-TranslatesTo nat_to.endpoint pool
          (endpoint_pool-pure P V L fd nat_to.endpoint t pool s y k),
      endpoint_pool-Pools P V L fd nat_to.endpoint t pool s y k clear,
    ),
  )
