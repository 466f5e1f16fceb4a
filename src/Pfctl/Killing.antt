-- ===== src/Pfctl/Killing.antt =====
-- `clear_states`: the calls that kill the states of an anchor, and the sum of their answers.
use mathlib.Core.Path.{subst}
use pfctl_rs.Common.{
  ℕ, ◌+◌, ◌*◌, ◌%◌, ◌^◌, ◌<◌, ◌≡◌, ◌≢◌, refl, sym, ap, ◌∙◌, ◌⊎◌, inl, inr, Option, none, some, List,
  [], ◌∷◌, length, arith,
}
use pfctl_rs.Error.{Error, Result, ok, err}
use pfctl_rs.Cstr.{Str}
use pfctl_rs.Platform.{Platform}
use pfctl_rs.Ffi.{PfsyncState, PfiocStateKill, zero_state_kill}
use pfctl_rs.Kernel.{Kernel, pure, ◌>>=◌, ioctl_error, ioctl_guard}
use pfctl_rs.Kernel.Laws.{>>=-ok, >>=-err, ioctl_guard-cases}
use pfctl_rs.Anchor.{AnchorKind}
use pfctl_rs.Pfctl.{
  PfCtl, states_of, sum, kill_all, clear_matching, clear_listed, clear_states, get_states_inner,
  setup_pfioc_state_kill,
}
use pfctl_rs.Pfctl.Finding.{ListsAnchors, position, Outcome, with_anchor_rule-Outcome}
use pfctl_rs.Pfctl.Counting.{ListsStates, get_states_inner-all, Picks, states_of-Picks}

-- The structure asks for the states that have the family, the protocol and the interface of the
-- state, its local address as their source, and its remote address as their destination.
pub record NamesState (x : PfsyncState) (kill : PfiocStateKill) : Type 0 where
  pub family : kill.psk_af ≡ x.af_lan
  pub proto : kill.psk_proto ≡ x.proto
  pub proto_variant : kill.psk_proto_variant ≡ x.proto_variant
  pub interface : kill.psk_ifname ≡ x.ifname
  pub source : kill.psk_src.addr ≡ x.lan.addr
  pub destination : kill.psk_dst.addr ≡ x.ext_lan.addr

module _ (P : Platform) (K : Kernel) (fd : ℕ) where
  -- One call for each state of the list, in order, until one fails: the sum of the answers so far,
  -- or that a call was refused, and the state of the kernel behind the last call.
  pub data Kills : List PfsyncState → K.State → Option ℕ → K.State → Type 0 where
    finished : {s : K.State} → Kills [] s (some 0) s
    killed :
        {x : PfsyncState} {states : List PfsyncState} {s t : K.State} {total : ℕ}
        (kill : PfiocStateKill)
        → NamesState x kill
        → (K.pf_kill_states fd kill s).0.ret ≢ ioctl_error
        → Kills states (K.pf_kill_states fd kill s).1 (some total) t
        → Kills (x ∷ states) s (some ((K.pf_kill_states fd kill s).0.arg.psk_af + total)) t
    stopped :
        {x : PfsyncState} {states : List PfsyncState} {s t : K.State} (kill : PfiocStateKill)
        → NamesState x kill
        → (K.pf_kill_states fd kill s).0.ret ≢ ioctl_error
        → Kills states (K.pf_kill_states fd kill s).1 none t
        → Kills (x ∷ states) s none t
    refused :
        {x : PfsyncState} {states : List PfsyncState} {s : K.State} (kill : PfiocStateKill)
        → NamesState x kill
        → (K.pf_kill_states fd kill s).0.ret ≡ ioctl_error
        → Kills (x ∷ states) s none (K.pf_kill_states fd kill s).1

  -- A result that reports what the calls have done: the sum of the answers modulo 2 ^ 32, or an
  -- error.
  abbrev pub Reports : List PfsyncState → K.State → Result Error ℕ × K.State → Type 0
  Reports chosen s (r, t) =
      ((total : ℕ) × Kills chosen s (some total) t × (r ≡ ok (total % 2 ^ 32)))
      ⊎ (Kills chosen s none t × ((e : Error) × (r ≡ err e)))

abbrev plain_sum : List ℕ → ℕ
plain_sum [] = 0
plain_sum (x ∷ xs) = x + plain_sum xs

sum-plain_sum : (xs : List ℕ) → sum xs ≡ plain_sum xs % 2 ^ 32
unfolding sum
sum-plain_sum [] = refl
sum-plain_sum (x ∷ xs) = let rest = sum-plain_sum xs in omega (arith, rest)

setup_pfioc_state_kill-NamesState :
    (x : PfsyncState) → NamesState x (setup_pfioc_state_kill x zero_state_kill)
setup_pfioc_state_kill-NamesState x = record {
  family = refl;
  proto = refl;
  proto_variant = refl;
  interface = refl;
  source = refl;
  destination = refl;
}

module _ (P : Platform) (K : Kernel) (self : PfCtl) where
  -- What `kill_all` gives: the answers, or the error of the call that was refused.
  abbrev Answers : List PfsyncState → K.State → Result Error (List ℕ) × K.State → Type 0
  Answers states s r =
      ((l : List ℕ) × (t : K.State) × (r ≡ (ok l, t))
        × Kills P K self.file states s (some (plain_sum l)) t)
      ⊎ ((e : Error) × (t : K.State) × (r ≡ (err e, t)) × Kills P K self.file states s none t)

  kill_all-Answers :
      (states : List PfsyncState) (s : K.State) → Answers states s (kill_all P K self states s)
  unfolding kill_all
  kill_all-Answers [] s = inl ([], s, refl, finished)
  kill_all-Answers (x ∷ states) s =
      let arg = setup_pfioc_state_kill x zero_state_kill in
      let fd = self.file in
      let names = setup_pfioc_state_kill-NamesState x in
      let call = ioctl_guard P (K.pf_kill_states fd) arg in
      let s' = (K.pf_kill_states fd arg s).1 in
      let answer = (K.pf_kill_states fd arg s).0.arg in
      let more =
        λ (kill : PfiocStateKill). kill_all P K self states >>= λ rest. pure (kill.psk_af ∷ rest) in
      elim (ioctl_guard-cases P (K.pf_kill_states fd) arg s) [
        | inl (fine, ran) ↦
            (let first = >>=-ok call more s s' answer ran in
              elim (kill_all-Answers states s') [
                | inl (l, t, e, k) ↦ inl (
                  answer.psk_af ∷ l,
                  t,
                  first
                      ∙ >>=-ok (kill_all P K self states) (λ rest. pure (answer.psk_af ∷ rest)) s' t
                          l e,
                  killed arg names fine k,
                )
                | inr (e, t, q, k) ↦ inr (
                  e,
                  t,
                  first
                      ∙ >>=-err (kill_all P K self states) (λ rest. pure (answer.psk_af ∷ rest)) s'
                          t e q,
                  stopped arg names fine k,
                )
              ])
        | inr (bad, (e, ran)) ↦ inr (e, s', >>=-err call more s s' e ran, refused arg names bad)
      ]

  kill_all-Reports :
      (states : List PfsyncState) (s : K.State)
      → Reports P K self.file states s
          ((kill_all P K self states >>= λ killed. pure (sum killed)) s)
  kill_all-Reports states s = elim (kill_all-Answers states s) [
    | inl (l, t, e, k) ↦
        subst (λ r. Reports P K self.file states s r)
          (sym (>>=-ok (kill_all P K self states) (λ killed. pure (sum killed)) s t l e))
          (inl (plain_sum l, k, ap ok (sum-plain_sum l)))
    | inr (e, t, q, k) ↦
        subst (λ r. Reports P K self.file states s r)
          (sym (>>=-err (kill_all P K self states) (λ killed. pure (sum killed)) s t e q))
          (inr (k, (e, refl)))
  ]

-- What `clear_states` must do once it has found the rule of the anchor, or not.
abbrev pub Cleared :
    (P : Platform) (K : Kernel)
    → PfCtl
    → List PfsyncState
    → K.State
    → Option ℕ
    → Result Error ℕ × K.State
    → Type 0
Cleared P K self states s none r = r ≡ (err Error.anchor_does_not_exist, s)
Cleared P K self states s (some i) r =
    (chosen : List PfsyncState) × Picks i states chosen × Reports P K self.file chosen s r

-- On a kernel with at least one state that lists its states and its anchors, `clear_states` asks
-- the kernel to kill one after the other the states that name the rule of the anchor, in order,
-- and no other ones, each by its family, protocol, interface, source and destination. If no call
-- is refused then it gives the sum of the answers, modulo 2 ^ 32; at the first call that is
-- refused it ends with an error. Without an anchor of the name it reports that there is none.
pub clear_states-Cleared :
    (P : Platform) (K : Kernel) (self : PfCtl) (kind : AnchorKind) (anchors : List Str)
    (x : PfsyncState) (states : List PfsyncState) (s : K.State)
    → ListsStates K self.file (x ∷ states) s
    → ListsAnchors K self.file kind anchors s
    → 297 * length (x ∷ states) < 2 ^ 31
    → (name : Str)
    → Cleared P K self (x ∷ states) s (position name 0 anchors) (clear_states P K self name kind s)
unfolding clear_states clear_listed clear_matching
clear_states-Cleared P K self kind anchors x states s L A small name =
    subst (λ r. Cleared P K self all s (position name 0 anchors) r)
      (sym (
        >>=-ok (get_states_inner P K self) (clear_listed P K self name kind) s s all
          (get_states_inner-all P K self all s L small)))
      (cleared (position name 0 anchors) _
        (with_anchor_rule-Outcome P K self kind anchors s A name (clear_matching P K self all)))
  where
    all : List PfsyncState
    all = x ∷ states

    cleared :
        (o : Option ℕ) (r : Result Error ℕ × K.State)
        → Outcome P K self kind anchors s A name (clear_matching P K self (x ∷ states)) o r
        → Cleared P K self (x ∷ states) s o r
    cleared none r h = h
    cleared (some i) r (rule, nr, act, there, q) = (
      states_of i (x ∷ states),
      states_of-Picks i (x ∷ states),
      subst (λ r. Reports P K self.file (states_of i (x ∷ states)) s r)
          (sym (
            q
            ∙ ap
                (λ n.
                  (kill_all P K self (states_of n (x ∷ states)) >>= λ killed. pure (sum killed)) s)
                nr))
          (kill_all-Reports P K self (states_of i (x ∷ states)) s),
    )
