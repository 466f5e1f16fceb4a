-- ===== src/Rule/PoolAddr.antt =====
-- `PoolAddr` and `PoolAddrList` (src/pooladdr.rs).
pub mod Laws
use pfctl_rs.Common.{ℕ, zero, suc, ◌+◌, Option, none, some, List, [], ◌∷◌}
use pfctl_rs.Error.{Error, Result, ok, ◌>>=◌}
use pfctl_rs.Platform.{Platform}
use pfctl_rs.Ffi.{
  PfPooladdr, PfPalist, zero_pooladdr, zero_palist, Pointer, null, to, elem1_next, elem2,
  first_elem, last_elem_next, list_first,
}
use pfctl_rs.Rule.Ip
use pfctl_rs.Rule.Ip.{Ip}
use pfctl_rs.Rule.Interface
use pfctl_rs.Rule.Interface.{Interface}

pub record PoolAddr (P : Platform) : Type 0 where
  pub interface : Interface
  pub ip : Ip P

-- `From<Interface>` and `From<Ip>`
abbrev pub from_interface : (P : Platform) → Interface → PoolAddr P
from_interface P i = record { interface = i; ip = Ip.any }

abbrev pub from_ip : {P : Platform} → Ip P → PoolAddr P
from_ip ip = record { interface = Interface.any; ip = ip }

-- `impl TryCopyTo<pf_pooladdr> for PoolAddr`
unfoldable pub try_copy_to : {P : Platform} → PoolAddr P → PfPooladdr → Result Error PfPooladdr
unfolding Interface.try_copy_to Ip.copy_to
try_copy_to a dst = do
  ifname ← Interface.try_copy_to a.interface dst.ifname
  addr ← Ip.copy_to a.ip dst.addr
  ok (record dst { ifname = ifname; addr = addr })

pub record PoolAddrList : Type 0 where
  pub list : PfPalist
  pub pool : List PfPooladdr

unfoldable pub init_pool : {P : Platform} → List (PoolAddr P) → Result Error (List PfPooladdr)
unfolding try_copy_to
init_pool [] = ok []
init_pool (a ∷ as') = do e ← try_copy_to a zero_pooladdr; rest ← init_pool as'; ok (e ∷ rest)

-- One round of the loop in `link_elements`. `let mut elem1 = pool[i - 1]` copies the element, and
-- so does `elem2`; the links are written into the copies, which end with the round.
pub record LinkRound : Type 0 where
  pub elem1 : PfPooladdr
  pub elem2 : PfPooladdr
  pub pool : List PfPooladdr

abbrev link_round : ℕ → PfPooladdr → PfPooladdr → List PfPooladdr → LinkRound
link_round i before at pool = record {
  elem1 = record before { tqe_next = to (elem2 i) };
  elem2 = record at { tqe_prev = to (elem1_next i) };
  pool = pool;
}

-- The rounds `i..pool.len()`, over the elements from `pool[i - 1]` on.
link_from : ℕ → List PfPooladdr → List PfPooladdr → List PfPooladdr
link_from i [] pool = pool
link_from i (before ∷ []) pool = pool
link_from i (before ∷ (at ∷ rest)) pool =
    link_from (suc i) (at ∷ rest) (link_round i before at pool).pool

unfoldable pub link_elements : List PfPooladdr → List PfPooladdr
unfolding link_from
link_elements pool = link_from 1 pool pool

-- `first_elem`, `last_elem` and `list` are locals: the pointers are to them.
unfoldable pub create_palist : List PfPooladdr → PfPalist
create_palist [] = record zero_palist { tqh_first = null; tqh_last = to list_first }
create_palist (a ∷ as') = record zero_palist {
  tqh_first = to first_elem;
  tqh_last = to last_elem_next;
}

-- `PoolAddrList::new`
unfoldable pub new_list : {P : Platform} → List (PoolAddr P) → Result Error PoolAddrList
unfolding init_pool link_elements create_palist
new_list pool_addrs = do
  initial ← init_pool pool_addrs
  let pool = link_elements initial
  ok (record { list = create_palist pool; pool = pool })

-- `Ip::to_pool_addr_list` (src/rule/ip.rs)
unfoldable pub to_pool_addr_list : {P : Platform} → Ip P → Result Error PoolAddrList
unfolding new_list
to_pool_addr_list ip = new_list (from_ip ip ∷ [])
