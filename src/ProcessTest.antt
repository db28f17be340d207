-- ===== src/ProcessTest.antt =====
-- example_process of src/process-test/src/node.c: the time that it asks to wait for, turn by turn. Times
-- are a parameter, as VPP keeps them in a double; so is what vlib_process_suspend_time_is_zero says of
-- one.
use dpdk_perf.Common.{Bool, false, ◌≡◌, List, [], ◌∷◌, All, Bool-cases, inl, inr, if◌then◌else◌}

module _ {Time : Type 0} (example_poll_period : Time) (is_zero : Time → Bool) where
  -- The end of a turn, for the time that vlib_process_wait_for_event_or_clock returns.
  unfoldable pub next_wait : Time → Time
  next_wait remaining = if is_zero remaining then example_poll_period else remaining

  -- The times asked for, over the times that the waits return. The events are only reported.
  unfoldable pub example_process : Time → List Time → List Time
  unfolding next_wait
  example_process poll_time_remaining [] = poll_time_remaining ∷ []
  example_process poll_time_remaining (r ∷ rs) =
      poll_time_remaining ∷ example_process (next_wait r) rs

  next_is_some : (r : Time) → is_zero example_poll_period ≡ false → is_zero (next_wait r) ≡ false
  unfolding next_wait
  next_is_some r p = elim (Bool-cases (is_zero r)) [ inl e ↦ rw e p | inr e ↦ rw e e ]

  -- Whatever the waits return, the process never asks to wait for no time, if the period is some.
  pub waits_for_some_time :
      (t : Time) (rs : List Time)
      → is_zero example_poll_period ≡ false
      → is_zero t ≡ false
      → All (λ w. is_zero w ≡ false) (example_process t rs)
  unfolding example_process
  waits_for_some_time t [] p h = (h, tt)
  waits_for_some_time t (r ∷ rs) p h =
      (h, waits_for_some_time (next_wait r) rs p (next_is_some r p))
