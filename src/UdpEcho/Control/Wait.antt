-- ===== src/UdpEcho/Control/Wait.antt =====
-- What the result of wait_for_state_change of src/udp-echo/main.c says.
use dpdk_perf.Common.{
  ◌≡◌, refl, ap, true, false, List, [], ◌∷◌, ◌++◌, arith, All, ◌↔◌, Bool-cases, inl, inr,
}
use dpdk_perf.Common.Int.{pos}
use dpdk_perf.UdpEcho.Session.{ConnectionState, failed}
use dpdk_perf.UdpEcho.Control.{same_state, wait_for_state_change}

-- The first of the states read that is `state` comes before any failure.
abbrev pub Reaches : ConnectionState → List ConnectionState → Type 0
Reaches state read =
    (before : List ConnectionState) × (s : ConnectionState) × (after : List ConnectionState) × (read
      ≡ before ++ (s ∷ after))
    × (same_state s state ≡ true)
    × All (λ t. same_state t failed ≡ false) before

later_reached :
    (state s : ConnectionState) (ss : List ConnectionState)
    → same_state s failed ≡ false
    → Reaches state ss
    → Reaches state (s ∷ ss)
later_reached state s ss ok (before, t, after, e, found, all) =
    (s ∷ before, t, after, ap (◌∷◌ s) e, found, (ok, all))

wait_reached :
    (state : ConnectionState) (before : List ConnectionState) (s : ConnectionState)
    (after : List ConnectionState)
    → same_state s state ≡ true
    → All (λ t. same_state t failed ≡ false) before
    → wait_for_state_change state (before ++ (s ∷ after)) ≡ pos 0
unfolding wait_for_state_change
wait_reached state [] s after found all = rw found
wait_reached state (t ∷ before) s after found all =
    ground (arith, all.0, wait_reached state before s after found all.1)

reached_wait :
    (state : ConnectionState) (read : List ConnectionState)
    → wait_for_state_change state read ≡ pos 0
    → Reaches state read
unfolding wait_for_state_change
reached_wait state [] h = absurd (ground (arith, h))
reached_wait state (s ∷ ss) h = elim (Bool-cases (same_state s state)) [
  | inl e ↦ ([], s, ss, refl, e, tt)
  | inr e ↦ elim (Bool-cases (same_state s failed)) [
    | inl f ↦ absurd (ground (arith, e, f, h))
    | inr f ↦ later_reached state s ss f (reached_wait state ss (ground (arith, e, f, h)))
  ]
]

-- wait_for_state_change succeeds exactly if the state waited for is read before the time is up and
-- STATE_FAILED is not read before it.
pub wait_for_state_change_lem :
    (state : ConnectionState) (read : List ConnectionState)
    → wait_for_state_change state read ≡ pos 0 ↔ Reaches state read
wait_for_state_change_lem state read = (
  reached_wait state read,
  λ (before, s, after, e, found, all). rw e (wait_reached state before s after found all),
)
