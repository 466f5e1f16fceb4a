-- ===== src/Pfctl/States.antt =====
-- The states of the stateful rules.
use pfctl_rs.Common.{
  ℕ, ◌*◌, ◌/◌, ◌+◌, ◌%◌, ◌^◌, List, [], ◌∷◌, map, replicate, ◌==◌, ltb, written, if◌then◌else◌,
}
use pfctl_rs.Common.Int.{as_i32, as_u32}
use pfctl_rs.Cstr.{Str}
use pfctl_rs.Platform.{Platform}
use pfctl_rs.Ffi.{
  PfiocStates, PfsyncState, PfiocStateKill, PfiocRule, zero_pfioc_states, zero_pfsync_state,
  zero_state_kill,
}
use pfctl_rs.Kernel.{Kernel, Action, pure, lift, ◌>>=◌, ◌>>◌, ioctl_guard}
use pfctl_rs.Anchor.{AnchorKind}
use pfctl_rs.Rule.Interface
use pfctl_rs.Rule.Interface.{Interface}
use pfctl_rs.State.{State}
use pfctl_rs.Pfctl.Status.{PfCtl}
use pfctl_rs.Pfctl.Anchors.{with_anchor_rule}

-- `mem::size_of::<pfsync_state>()`, by the assertions of src/ffi/pfvar.rs.
abbrev pub state_size : ℕ
state_size = 297

-- The product of two `i32` wraps around, as it does in a release build.
unfoldable pub setup_pfioc_states : ℕ → PfiocStates
unfolding replicate
setup_pfioc_states num_states = record zero_pfioc_states {
  ps_len = as_i32 (state_size * num_states);
  psu_states = replicate num_states zero_pfsync_state;
}

abbrev pub setup_pfioc_state_kill : PfsyncState → PfiocStateKill → PfiocStateKill
setup_pfioc_state_kill s kill = record kill {
  psk_af = s.af_lan;
  psk_proto = s.proto;
  psk_proto_variant = s.proto_variant;
  psk_ifname = s.ifname;
  psk_src = record kill.psk_src { addr = s.lan.addr };
  psk_dst = record kill.psk_dst { addr = s.ext_lan.addr };
}

-- `pfsync_states.iter().filter(…)`
unfoldable pub states_of : ℕ → List PfsyncState → List PfsyncState
states_of nr [] = []
states_of nr (s ∷ states) =
    let rest = states_of nr states in if s.anchor == nr then s ∷ rest else rest

-- `v.iter().sum()` of `u32` values, which wraps around in a release build.
unfoldable pub sum : List ℕ → ℕ
sum [] = 0
sum (x ∷ xs) = (x + sum xs) % 2 ^ 32

module _ (P : Platform) (K : Kernel) where
  unfoldable pub get_num_states : PfCtl → Action K.State ℕ
  get_num_states self = do
    pfioc_states ← ioctl_guard P (K.pf_get_states self.file) zero_pfioc_states
    pure (as_u32 pfioc_states.ps_len / state_size)

  -- The vector has `num_states` elements, whatever the call writes into them.
  unfoldable pub fill_states : PfCtl → ℕ → Action K.State (List PfsyncState)
  unfolding setup_pfioc_states
  fill_states self num_states = do
    pfioc_states ← ioctl_guard P (K.pf_get_states self.file) (setup_pfioc_states num_states)
    pure (written (setup_pfioc_states num_states).psu_states pfioc_states.psu_states)

  unfoldable pub get_states_inner : PfCtl → Action K.State (List PfsyncState)
  unfolding get_num_states fill_states
  get_states_inner self = do
    num_states ← get_num_states self
    if ltb 0 num_states then fill_states self num_states else pure []

  unfoldable pub get_states : PfCtl → Action K.State (List State)
  unfolding get_states_inner
  get_states self = do
    states ← get_states_inner self
    pure (map (λ s. record { sync_state = s }) states)

  unfoldable pub kill_state : PfCtl → State → Action K.State (Unit {0})
  kill_state self state = do
    ioctl_guard P (K.pf_kill_states self.file)
        (setup_pfioc_state_kill state.sync_state zero_state_kill)
    pure tt

  -- The `map` and the `collect` of `clear_states`: the first error ends the loop.
  unfoldable pub kill_all : PfCtl → List PfsyncState → Action K.State (List ℕ)
  kill_all self [] = pure []
  kill_all self (s ∷ states) = do
    kill ← ioctl_guard P (K.pf_kill_states self.file) (setup_pfioc_state_kill s zero_state_kill)
    rest ← kill_all self states
    pure (kill.psk_af ∷ rest)

  -- The closure that `clear_states` passes to `with_anchor_rule`.
  unfoldable pub clear_matching : PfCtl → List PfsyncState → PfiocRule → Action K.State ℕ
  unfolding kill_all states_of sum
  clear_matching self pfsync_states anchor_rule = do
    killed ← kill_all self (states_of anchor_rule.nr pfsync_states)
    pure (sum killed)

  -- The two branches of `clear_states`, by whether there are states.
  unfoldable pub clear_listed : PfCtl → Str → AnchorKind → List PfsyncState → Action K.State ℕ
  unfolding with_anchor_rule clear_matching
  clear_listed self anchor_name kind [] = pure 0
  clear_listed self anchor_name kind (s ∷ states) =
      with_anchor_rule P K self anchor_name kind (clear_matching self (s ∷ states))

  unfoldable pub clear_states : PfCtl → Str → AnchorKind → Action K.State ℕ
  unfolding get_states_inner clear_listed
  clear_states self anchor_name kind = do
    pfsync_states ← get_states_inner self
    clear_listed self anchor_name kind pfsync_states

  unfoldable pub clear_interface_states : PfCtl → Interface → Action K.State ℕ
  unfolding Interface.try_copy_to
  clear_interface_states self interface = do
    ifname ← lift (Interface.try_copy_to interface zero_state_kill.psk_ifname)
    kill ←
        ioctl_guard P (K.pf_clear_states self.file) (record zero_state_kill { psk_ifname = ifname })
    pure kill.psk_af
