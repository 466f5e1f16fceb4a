-- ===== src/Pfctl/Counting.antt =====
-- `get_states` on a kernel that lists its states, and what `clear_states` chooses of them.
use pfctl_rs.Common.{
  ℕ, ◌*◌, ◌/◌, ◌^◌, ◌<◌, ◌≡◌, refl, sym, ap, ◌∙◌, ◌≢◌, ==_iff, inl, inr, Bool, false, Bool-cases,
  List, [], ◌∷◌, map, length, written, ltb, ◌==◌, length-replicate, if◌then◌else◌, arith,
}
use pfctl_rs.Common.Int.{pos, as_u32}
use pfctl_rs.Error.{ok}
use pfctl_rs.Cstr.{Str}
use pfctl_rs.Platform.{Platform}
use pfctl_rs.Ffi.{PfsyncState, PfiocStates, zero_pfioc_states, zero_pfsync_state}
use pfctl_rs.Kernel.{Kernel, Action, pure, ioctl_error, ioctl_guard}
use pfctl_rs.Kernel.Laws.{>>=-ok, ioctl_guard-ok}
use pfctl_rs.Anchor.{AnchorKind}
use pfctl_rs.Pfctl.{
  PfCtl, state_size, setup_pfioc_states, get_num_states, fill_states, get_states_inner, get_states,
  states_of, clear_listed, clear_states,
}

-- The states of a kernel state, after pf(4): DIOCGETSTATES without a buffer gives the size that is
-- needed, and with a buffer of that size fills it; it changes nothing.
pub record ListsStates (K : Kernel) (fd : ℕ) (states : List PfsyncState) (s : K.State)
    : Type 0 where
  pub sizes :
      ((K.pf_get_states fd zero_pfioc_states s).0.ret ≢ ioctl_error)
      × ((K.pf_get_states fd zero_pfioc_states s).0.arg.ps_len ≡ pos (297 * length states))
      × ((K.pf_get_states fd zero_pfioc_states s).1 ≡ s)
  pub fills :
      (a : PfiocStates)
      → a.ps_len ≡ pos (297 * length states)
      → length a.psu_states ≡ length states
      → ((K.pf_get_states fd a s).0.ret ≢ ioctl_error)
        × ((K.pf_get_states fd a s).0.arg.psu_states ≡ states)
        × ((K.pf_get_states fd a s).1 ≡ s)

written-all :
    (buf states : List PfsyncState) → length buf ≡ length states → written buf states ≡ states
written-all [] [] h = refl
written-all [] (x ∷ states) h = absurd (omega arith)
written-all (b ∷ buf) [] h = absurd (omega arith)
written-all (b ∷ buf) (x ∷ states) h = ap (λ l. x ∷ l) (written-all buf states (omega arith))

length-nil : (l : List PfsyncState) → length l ≡ 0 → l ≡ []
length-nil [] h = refl
length-nil (x ∷ l) h = absurd (omega arith)

module _ (P : Platform) (K : Kernel) (self : PfCtl) (states : List PfsyncState) (s : K.State)
    (L : ListsStates K self.file states s) where
  get_num_states-length :
      297 * length states < 2 ^ 31 → get_num_states P K self s ≡ (ok (length states), s)
  unfolding get_num_states
  get_num_states-length small =
      let (ret, len, same) = L.sizes in
      let arg = (K.pf_get_states self.file zero_pfioc_states s).0.arg in
      let count = λ (a : PfiocStates). pure {S = K.State} (as_u32 a.ps_len / state_size) in
      >>=-ok (ioctl_guard P (K.pf_get_states self.file) zero_pfioc_states) count s s arg
        (ioctl_guard-ok P (K.pf_get_states self.file) zero_pfioc_states s s ret same)
      ∙ ap (λ z. (ok (as_u32 z / state_size), s)) len
      ∙ ap (λ n. (ok n, s)) (omega arith)

  fill_states-all :
      297 * length states < 2 ^ 31 → fill_states P K self (length states) s ≡ (ok states, s)
  unfolding fill_states setup_pfioc_states
  fill_states-all small =
      let arg = setup_pfioc_states (length states) in
      let len : arg.ps_len ≡ pos (297 * length states) = ground arith in
      let room : length arg.psu_states ≡ length states =
        length-replicate (length states) zero_pfsync_state in
      let (ret, all, same) = L.fills arg len room in
      let got = (K.pf_get_states self.file arg s).0.arg in
      >>=-ok (ioctl_guard P (K.pf_get_states self.file) arg)
        (λ a. pure (written arg.psu_states a.psu_states)) s s got
        (ioctl_guard-ok P (K.pf_get_states self.file) arg s s ret same)
      ∙ ap (λ l. (ok (written arg.psu_states l), s)) all
      ∙ ap (λ l. (ok l, s)) (written-all arg.psu_states states room)

  pub get_states_inner-all :
      297 * length states < 2 ^ 31 → get_states_inner P K self s ≡ (ok states, s)
  unfolding get_states_inner
  get_states_inner-all small =
      let rest = λ (n : ℕ). if ltb 0 n then fill_states P K self n else pure [] in
      >>=-ok (get_num_states P K self) rest s s (length states) (get_num_states-length small)
      ∙ (elim (Bool-cases (ltb 0 (length states))) [
        | inl some_states ↦ ap (λ t. (choose t) s) some_states ∙ fill_states-all small
        | inr none_left ↦
            ap (λ t. (choose t) s) none_left
            ∙ ap (λ l. (ok l, s)) (sym (length-nil states (ground arith)))
      ])
    where
      choose : Bool → Action K.State (List PfsyncState)
      choose t = if t then fill_states P K self (length states) else pure []

  -- On a kernel that lists its states, `get_states` gives all of them, in order, if the size of the
  -- buffer for them fits an `i32`: the count that the first call gives is the room for the second.
  pub get_states-all :
      297 * length states < 2 ^ 31
      → get_states P K self s ≡ (ok (map (λ x. record { sync_state = x }) states), s)
  unfolding get_states
  get_states-all small =
      >>=-ok (get_states_inner P K self) (λ l. pure (map (λ x. record { sync_state = x }) l)) s s
        states (get_states_inner-all small)

-- On a kernel without states, `clear_states` gives 0 for every anchor name, also for a name that no
-- anchor has: it does not look for the anchor.
pub clear_states-empty :
    (P : Platform) (K : Kernel) (self : PfCtl) (s : K.State)
    → ListsStates K self.file [] s
    → (name : Str) (kind : AnchorKind) → clear_states P K self name kind s ≡ (ok 0, s)
unfolding clear_states clear_listed
clear_states-empty P K self s L name kind =
    >>=-ok (get_states_inner P K self) (clear_listed P K self name kind) s s []
      (get_states_inner-all P K self [] s L (omega arith))

-- The second list has the states of the first that name the rule, in order, and no other ones.
pub data Picks (nr : ℕ) : List PfsyncState → List PfsyncState → Type 0 where
  done : Picks nr [] []
  taken :
      {x : PfsyncState} {states chosen : List PfsyncState}
      → x.anchor ≡ nr
      → Picks nr states chosen
      → Picks nr (x ∷ states) (x ∷ chosen)
  passed :
      {x : PfsyncState} {states chosen : List PfsyncState}
      → x.anchor ≢ nr
      → Picks nr states chosen
      → Picks nr (x ∷ states) chosen

pub states_of-Picks : (nr : ℕ) (states : List PfsyncState) → Picks nr states (states_of nr states)
unfolding states_of
states_of-Picks nr [] = done
states_of-Picks nr (x ∷ states) = elim (Bool-cases (x.anchor == nr)) [
  | inl same ↦
      rw (same, states_of) (taken ((==_iff x.anchor nr).0 same) (states_of-Picks nr states))
  | inr other ↦
      rw (other, states_of) (passed (differs x.anchor nr other) (states_of-Picks nr states))
]
  where
    differs : (a b : ℕ) → (a == b) ≡ false → a ≢ b
    differs a b h q = ground arith
