-- ===== src/VclServer/Threads/Tests.antt =====
-- Threads of src/vcl-test-server/main.c: three workers of which two never start, two that end at the
-- same time, and one that serves.
use dpdk_perf.Common.{
  ℕ, ◌<◌, ◌≡◌, ◌≢◌, refl, true, ◌==◌, if◌then◌else◌, arith, Bool-cases, inl, inr,
}
use dpdk_perf.Common.Int.{pos, negsuc}
use dpdk_perf.VclServer.Threads.{
  idle, starting, serving, failing, closing, ended, blaming, uncounting, give_up, load_fails, blame,
  reload_active, uncount, counting, looping, waiting, exited, creating, create, load_active, count,
  may_run, System, update, move, Step, returned, finish, booted, all_created, Steps, stay, later,
  init,
}
use dpdk_perf.VclServer.Threads.Exit.{is_over, main_leaves_workers, main_waits_for_ever}
use dpdk_perf.VclServer.Threads.Turns.{total, NoneLoaded, loaded_active, loaded_fails}
use dpdk_perf.VclServer.Threads.Moves.{IsAtomic, LeavesNone, minus}
use dpdk_perf.VclServer.Threads.Atomic.{failures, tally_lem}
use dpdk_perf.VclServer.Threads.Ending.{main_can_exit}
use dpdk_perf.VclServer.Threads.Single.{IsAlone, one_worker-IsAlone}

main_leaves_workers_example :
    (t : System) × Steps 3 init t
    × (t.main ≡ exited)
    × ((j : ℕ) → 0 < j → j < 3 → t.pc j ≡ starting)
main_leaves_workers_example = main_leaves_workers 3 (omega arith)

abbrev two_serve : System
two_serve = record {
  main = looping;
  counters = record { active_workers = pos 2; worker_fails = pos 0 };
  pc = λ j. if 0 == j then serving else if 1 == j then serving else idle;
}

others_over : (j : ℕ) → j ≢ 0 → j ≢ 1 → is_over (two_serve.pc j) ≡ true
others_over j h h' = elim (Bool-cases (0 == j)) [
  | inl e ↦ absurd (h (ground (arith, e)))
  | inr e ↦ elim (Bool-cases (1 == j)) [
    | inl e' ↦ absurd (h' (ground (arith, e')))
    | inr e' ↦ rw (e, e') refl
  ]
]

main_waits_for_ever_example :
    (t : System) × Steps 2 two_serve t
    × (t.main ≡ waiting)
    × ((j : ℕ) → is_over (t.pc j) ≡ true)
    × ((u : System) → Steps 2 t u → u ≡ t)
main_waits_for_ever_example = main_waits_for_ever 2 0 0 two_serve refl refl refl others_over refl

abbrev ready : System
ready = record {
  main = looping;
  counters = record { active_workers = pos 1; worker_fails = pos 0 };
  pc = update (update init.pc 0 (counting (pos 0))) 0 serving;
}

ready_reached : Steps 1 init ready
unfolding may_run
ready_reached =
    later
      (later (later (later stay (move 0 refl refl load_active)) (move 0 refl refl (count (pos 0))))
        (booted refl refl))
      (all_created 1 refl (omega arith))

one_worker-IsAlone_example : IsAlone ready
one_worker-IsAlone_example = one_worker-IsAlone ready ready_reached

-- Two workers, each of which counts itself while the other does not.
abbrev two_ready : System
two_ready = record {
  main = looping;
  counters = record { active_workers = pos 2; worker_fails = pos 0 };
  pc = update (update (update ready.pc 1 starting) 1 (counting (pos 1))) 1 serving;
}

two_ready_reached : Steps 2 init two_ready
unfolding may_run
two_ready_reached =
    let boot : Steps 2 init (record ready { main = creating 1 }) =
      later (later (later stay (move 0 refl refl load_active)) (move 0 refl refl (count (pos 0))))
        (booted refl refl) in
    let created : Steps 2 init (record ready { pc = update ready.pc 1 starting }) =
      later (later boot (create 1 refl (omega arith))) (all_created 2 refl (omega arith)) in
    later (later created (move 1 refl refl load_active)) (move 1 refl refl (count (pos 1)))

two_ready_reached-IsAtomic : IsAtomic two_ready_reached
unfolding two_ready_reached
two_ready_reached-IsAtomic =
    let first : NoneLoaded loaded_active init.pc =
      λ j. elim (Bool-cases (j == 0)) [ inl q ↦ rw q refl | inr q ↦ rw q refl ] in
    let second : NoneLoaded loaded_active (update ready.pc 1 starting) = λ j.
      elim (Bool-cases (1 == j)) [
        | inl q ↦ rw q refl
        | inr q ↦ elim (Bool-cases (0 == j)) [
          | inl r ↦ rw (q, r) refl
          | inr r ↦ rw (q, r) (first j)
        ]
      ] in
    ((((((((tt, first), tt), tt), tt), tt), second), tt))

-- Then worker 1 fails.
abbrev one_failed : System
one_failed = record {
  main = looping;
  counters = record { active_workers = pos 1; worker_fails = negsuc 0 };
  pc =
      let f = update (update (update two_ready.pc 1 failing) 1 (blaming (pos 0))) 1 closing in
      update (update f 1 (uncounting (pos 2))) 1 ended;
}

one_failed_reached : Steps 2 init one_failed
unfolding may_run
one_failed_reached =
    let failed : Steps 2 init (record two_ready {
      counters = record { active_workers = pos 2; worker_fails = negsuc 0 };
      pc = update (update (update two_ready.pc 1 failing) 1 (blaming (pos 0))) 1 closing;
    }) =
      later
        (later (later two_ready_reached (move 1 refl refl give_up)) (move 1 refl refl load_fails))
        (move 1 refl refl (blame (pos 0))) in
    later (later failed (move 1 refl refl reload_active)) (move 1 refl refl (uncount (pos 2)))

one_failed_reached-IsAtomic : IsAtomic one_failed_reached
unfolding one_failed_reached
one_failed_reached-IsAtomic =
    let first : NoneLoaded loaded_fails (update two_ready.pc 1 failing) = λ j.
      elim (Bool-cases (1 == j)) [
        | inl q ↦ rw q refl
        | inr q ↦ elim (Bool-cases (0 == j)) [
          | inl r ↦ rw (q, r) refl
          | inr r ↦ elim (Bool-cases (j == 0)) [
            | inl z ↦ rw (q, r, z) refl
            | inr z ↦ rw (q, r, z) refl
          ]
        ]
      ] in
    let second : NoneLoaded loaded_active
        (update (update (update two_ready.pc 1 failing) 1 (blaming (pos 0))) 1 closing) =
      λ j. elim (Bool-cases (1 == j)) [
        | inl q ↦ rw q refl
        | inr q ↦ elim (Bool-cases (0 == j)) [
          | inl r ↦ rw (q, r) refl
          | inr r ↦ elim (Bool-cases (j == 0)) [
            | inl z ↦ rw (q, r, z) refl
            | inr z ↦ rw (q, r, z) refl
          ]
        ]
      ] in
    (((((two_ready_reached-IsAtomic, tt), first), tt), second), tt)

tally_lem_example :
    (one_failed.counters.active_workers ≡ pos (total 2 one_failed.pc))
    × (negsuc 0 ≡ minus (failures one_failed_reached))
    × LeavesNone looping one_failed.pc
tally_lem_example =
    tally_lem 2 one_failed (omega arith) one_failed_reached one_failed_reached-IsAtomic

-- The one worker has returned.
abbrev finished : System
finished = record {
  main = waiting;
  counters = record { active_workers = pos 0; worker_fails = pos 0 };
  pc = update (update (update ready.pc 0 closing) 0 (uncounting (pos 1))) 0 ended;
}

finished_reached : Steps 1 init finished
unfolding may_run
finished_reached =
    let left : Steps 1 init (record ready { pc = update ready.pc 0 closing }) =
      later ready_reached (move 0 refl refl finish) in
    later (later (later left (move 0 refl refl reload_active)) (move 0 refl refl (uncount (pos 1))))
      (returned refl refl)

init-NoneLoaded : NoneLoaded loaded_active init.pc
init-NoneLoaded = λ j. elim (Bool-cases (j == 0)) [ inl q ↦ rw q refl | inr q ↦ rw q refl ]

finished_reached-IsAtomic : IsAtomic finished_reached
unfolding finished_reached ready_reached
finished_reached-IsAtomic =
    let closes : NoneLoaded loaded_active (update ready.pc 0 closing) =
      λ j. elim (Bool-cases (0 == j)) [ inl q ↦ rw q refl | inr q ↦ rw q (init-NoneLoaded j) ] in
    ((((((((tt, init-NoneLoaded), tt), tt), tt), tt), closes), tt), tt)

finished_over : (j : ℕ) → is_over (finished.pc j) ≡ true
finished_over j = elim (Bool-cases (0 == j)) [
  | inl q ↦ rw q refl
  | inr q ↦ elim (Bool-cases (j == 0)) [
    | inl z ↦ absurd (ground (arith, q, z))
    | inr z ↦ rw (q, z) refl
  ]
]

main_can_exit_example :
    (t : System) × Step 1 finished t
    × (t.main ≡ exited)
    × (t.counters.worker_fails ≡ minus (failures finished_reached))
main_can_exit_example =
    main_can_exit 1 finished (omega arith) finished_reached finished_reached-IsAtomic refl
      finished_over
