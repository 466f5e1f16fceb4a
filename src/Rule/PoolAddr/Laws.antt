-- ===== src/Rule/PoolAddr/Laws.antt =====
-- What the list of pool addresses points to.
use pfctl_rs.Common.{ℕ, suc, ◌≡◌, ◌≢◌, refl, sym, ap, ◌∙◌, List, [], ◌∷◌, All, arith}
use pfctl_rs.Error.{ok, ◌>>=◌, >>=-eq-ok}
use pfctl_rs.Platform.{Platform}
use pfctl_rs.Ffi.{PfPooladdr, zero_pooladdr, null, to, pool_elem}
use pfctl_rs.Rule.PoolAddr.{
  PoolAddr, PoolAddrList, try_copy_to, init_pool, link_elements, link_from, create_palist, new_list,
}

link_from-eq : (i : ℕ) (rest pool : List PfPooladdr) → link_from i rest pool ≡ pool
unfolding link_from
link_from-eq i [] pool = refl
link_from-eq i (a ∷ []) pool = refl
link_from-eq i (a ∷ (b ∷ rest)) pool = link_from-eq (suc i) (b ∷ rest) pool

-- An element that is not linked to any other.
abbrev pub IsUnlinked : PfPooladdr → Type 0
IsUnlinked e = (e.tqe_next ≡ null) × (e.tqe_prev ≡ null)

try_copy_to-IsUnlinked :
    {P : Platform} (a : PoolAddr P) {e : PfPooladdr}
    → try_copy_to a zero_pooladdr ≡ ok e
    → IsUnlinked e
unfolding try_copy_to
try_copy_to-IsUnlinked a h = ground arith

init_pool-IsUnlinked :
    {P : Platform} (as' : List (PoolAddr P)) (pool : List PfPooladdr)
    → init_pool as' ≡ ok pool
    → All IsUnlinked pool
unfolding init_pool
init_pool-IsUnlinked [] [] h = tt
init_pool-IsUnlinked [] (e ∷ pool) h = absurd (ground arith)
init_pool-IsUnlinked (a ∷ as') pool h =
    let (e, q, k) =
      >>=-eq-ok (try_copy_to a zero_pooladdr) (λ e. init_pool as' >>= λ rest. ok (e ∷ rest)) h in
    let (rest, f, g) = >>=-eq-ok (init_pool as') (λ rest. ok (e ∷ rest)) k in
    let same : e ∷ rest ≡ pool = ground arith in
    rw (sym same) (try_copy_to-IsUnlinked a q, init_pool-IsUnlinked as' rest f)

-- A new list of pool addresses retains the encoded addresses without a link from any to another,
-- and neither end of the list that it hands out points to a retained address.
pub new_list-IsUnlinked :
    {P : Platform} (as' : List (PoolAddr P)) (l : PoolAddrList)
    → new_list as' ≡ ok l
    → (init_pool as' ≡ ok l.pool)
      × All IsUnlinked l.pool
      × ((i : ℕ) → (l.list.tqh_first ≢ to (pool_elem i)) × (l.list.tqh_last ≢ to (pool_elem i)))
unfolding new_list link_elements
new_list-IsUnlinked as' l h =
    let (initial, e, q) =
      >>=-eq-ok (init_pool as')
        (λ initial.
          ok
            (record { list = create_palist (link_elements initial); pool = link_elements initial }))
        h in
    let pools : link_elements initial ≡ l.pool = ground arith in
    let same : initial ≡ l.pool = sym (link_from-eq 1 initial initial) ∙ pools in
    let lists : create_palist (link_elements initial) ≡ l.list = ground arith in
    (
      e ∙ ap ok same,
      init_pool-IsUnlinked as' l.pool (e ∙ ap ok same),
      λ i. (rw (sym lists) (outside (link_elements initial) i)),
    )
  where
    outside :
        (pool : List PfPooladdr) (i : ℕ)
        → ((create_palist pool).tqh_first ≢ to (pool_elem i))
          × ((create_palist pool).tqh_last ≢ to (pool_elem i))
    outside [] i = ((λ h. cc), (λ h. cc))
    outside (e ∷ pool) i = ((λ h. cc), (λ h. cc))
