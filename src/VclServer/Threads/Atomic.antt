-- ===== src/VclServer/Threads/Atomic.antt =====
-- The counters of src/vcl-test-server/main.c when no two threads change the same one at once.
use dpdk_perf.Common.{
  ℕ, zero, suc, ◌+◌, ◌≤◌, ◌<◌, ◌≡◌, refl, sym, ap, subst, ◌∙◌, true, false, ◌==◌, arith, ltb,
  Bool-cases, inl, inr,
}
use dpdk_perf.Common.Int.{pos, is_positive}
use dpdk_perf.VclServer.Threads.{
  Counters, Pc, idle, starting, exited, creating, Move, may_run, System, update, Step, move, booted,
  create, not_created, all_created, returned, spin, exit, Steps, stay, later, init,
}
use dpdk_perf.VclServer.Threads.Runs.{update_other}
use dpdk_perf.VclServer.Threads.Exit.{is_over, over_rests}
use dpdk_perf.VclServer.Threads.Turns.{
  is_counted, weight, total, loaded_active, loaded_fails, total_update, total_none, Turn, nobody,
  Turn-other,
}
use dpdk_perf.VclServer.Threads.Moves.{
  IsAtomicMove, IsAtomicStep, IsAtomic, Awaits, LeavesNone, idle_stays, Awaits-update,
  LeavesNone-runs, counts, turns, minus, blames, fails_turns,
}

-- How often a worker has decreased worker_fails.
abbrev step_blames : {n : ℕ} {s t : System} → Step n s t → ℕ → ℕ
step_blames (move i e r m) k = blames m k
step_blames _ k = k

abbrev pub failures : {n : ℕ} {s t : System} → Steps n s t → ℕ
failures stay = 0
failures (later r x) = step_blames x (failures r)

pub record IsRight (n k : ℕ) (s : System) : Type 0 where
  pub counted : s.counters.active_workers ≡ pos (total n s.pc)
  turn : Turn loaded_active s.counters.active_workers s.pc
  pub fails : s.counters.worker_fails ≡ minus k
  fails_turn : Turn loaded_fails s.counters.worker_fails s.pc
  beyond : (j : ℕ) → n ≤ j → s.pc j ≡ idle
  awaits : Awaits s.main s.pc
  leaves : LeavesNone s.main s.pc

move-IsRight :
    {p p' : Pc} {c' : Counters} (n k : ℕ) (s : System) (i : ℕ)
    → s.pc i ≡ p
    → may_run s.main i p ≡ true
    → (m : Move s.counters p c' p') → IsAtomicMove s.pc m
    → IsRight n k s
    → IsRight n (blames m k) (record { main = s.main; counters = c'; pc = update s.pc i p' })
move-IsRight {p = p} {p' = p'} n k s i e r m h v =
    let runs : is_over (s.pc i) ≡ false = ap is_over e ∙ over_rests m in
    let less : i < n = elim (Bool-cases (ltb i n)) [
      | inl q ↦ ground (arith, q)
      | inr q ↦ absurd (ground (arith, ap is_over (v.beyond i (ground (arith, q))), runs))
    ] in
    let (turn, l) = turns s.pc i e m h v.turn in
    let (fails, fails_turn) = fails_turns s.pc i k e m h v.fails v.fails_turn in
    let all : total n (update s.pc i p') + weight p ≡ total n s.pc + weight p' =
      subst (λ q. total n (update s.pc i p') + weight q ≡ total n s.pc + weight p') e
        (total_update n s.pc i p' less) in
    record {
      counted = counts (total n s.pc) (total n (update s.pc i p')) m all v.counted l;
      turn = turn;
      fails = fails;
      fails_turn = fails_turn;
      beyond = λ j q. idle_stays s.pc i j p' runs (v.beyond j q);
      awaits = Awaits-update s.main s.pc i p' runs v.awaits;
      leaves = LeavesNone-runs s.main (update s.pc i p') i p r;
    }

create-IsRight :
    (n k : ℕ) (s : System) (i : ℕ)
    → s.main ≡ creating i
    → i < n
    → IsRight n k s
    → IsRight n k (record s { main = creating (suc i); pc = update s.pc i starting })
create-IsRight n k s i e h v =
    let waits : Awaits (creating i) s.pc = subst (λ m. Awaits m s.pc) e v.awaits in
    let old : s.pc i ≡ idle = waits i (omega arith) in
    let before : weight (s.pc i) ≡ 0 = ap weight old in
    record {
      counted = v.counted ∙ ap pos (omega (arith, total_update n s.pc i starting h, before));
      turn =
          Turn-other loaded_active s.counters.active_workers s.pc i starting (ap loaded_active old)
            refl v.turn;
      fails = v.fails;
      fails_turn =
          Turn-other loaded_fails s.counters.worker_fails s.pc i starting (ap loaded_fails old) refl
            v.fails_turn;
      beyond = λ j q. update_other s.pc i j starting (ground (arith, q, h)) ∙ v.beyond j q;
      awaits = λ j q. update_other s.pc i j starting (ground (arith, q)) ∙ waits j (omega arith);
      leaves = tt;
    }

exit-LeavesNone :
    (n k : ℕ) (s : System)
    → is_positive s.counters.active_workers ≡ false
    → IsRight n k s
    → LeavesNone exited s.pc
exit-LeavesNone n k s z v j =
    let none_left : total n s.pc ≡ 0 = ground (arith, ap is_positive v.counted, z) in
    elim (Bool-cases (ltb j n)) [
      | inl q ↦ total_none n s.pc none_left j (ground (arith, q))
      | inr q ↦ ap is_counted (v.beyond j (ground (arith, q)))
    ]

keep-IsRight :
    (n k : ℕ) (s t : System) (x : Step n s t)
    → IsAtomicStep x
    → IsRight n k s
    → IsRight n (step_blames x k) t
keep-IsRight n k s t (move i e r m) h v = move-IsRight n k s i e r m h v
keep-IsRight n k s t (booted e e') h v = record {
  counted = v.counted;
  turn = v.turn;
  fails = v.fails;
  fails_turn = v.fails_turn;
  beyond = v.beyond;
  awaits = subst (λ m. Awaits m s.pc) e v.awaits;
  leaves = tt;
}
keep-IsRight n k s t (create i e less) h v = create-IsRight n k s i e less v
keep-IsRight n k s t (not_created i e less) h v =
    let waits : Awaits (creating i) s.pc = subst (λ m. Awaits m s.pc) e v.awaits in
    record {
      counted = v.counted;
      turn = v.turn;
      fails = v.fails;
      fails_turn = v.fails_turn;
      beyond = v.beyond;
      awaits = λ j q. waits j (omega arith);
      leaves = tt;
    }
keep-IsRight n k s t (all_created i e _) h v = record {
  counted = v.counted;
  turn = v.turn;
  fails = v.fails;
  fails_turn = v.fails_turn;
  beyond = v.beyond;
  awaits = tt;
  leaves = tt;
}
keep-IsRight n k s t (returned e e') h v = record {
  counted = v.counted;
  turn = v.turn;
  fails = v.fails;
  fails_turn = v.fails_turn;
  beyond = v.beyond;
  awaits = tt;
  leaves = tt;
}
keep-IsRight n k s t (spin _ _) h v = v
keep-IsRight n k s t (exit e z) h v = record {
  counted = v.counted;
  turn = v.turn;
  fails = v.fails;
  fails_turn = v.fails_turn;
  beyond = v.beyond;
  awaits = tt;
  leaves = exit-LeavesNone n k s z v;
}

total_start : (n : ℕ) → total n init.pc ≡ 0
total_start zero = refl
total_start (suc n) =
    let here : weight (init.pc n) ≡ 0 = elim (Bool-cases (n == 0)) [
      | inl q ↦ rw q refl
      | inr q ↦ rw q refl
    ] in
    omega (arith, total_start n, here)

pub run-IsRight :
    (n : ℕ) (s : System) → 0 < n → (r : Steps n init s) → IsAtomic r → IsRight n (failures r) s
run-IsRight n s h stay a = record {
  counted = ap pos (sym (total_start n));
  turn = nobody (λ j. elim (Bool-cases (j == 0)) [ inl q ↦ rw q refl | inr q ↦ rw q refl ]);
  fails = refl;
  fails_turn = nobody (λ j. elim (Bool-cases (j == 0)) [ inl q ↦ rw q refl | inr q ↦ rw q refl ]);
  beyond = λ j q. ground (arith, q, h);
  awaits = λ j q. ground (arith, q);
  leaves = tt;
}
run-IsRight n s h (later {t = t} r x) (a, a') =
    keep-IsRight n (failures r) t s x a' (run-IsRight n t h r a)

-- With any number of workers, in every run in which no worker loads a counter while another has
-- loaded it and not stored it yet: active_workers is the number of workers that have counted
-- themselves and not taken that back, and there is none if main has returned; worker_fails, the
-- exit status, is minus the number of workers that have failed.
pub tally_lem :
    (n : ℕ) (s : System)
    → 0 < n
    → (r : Steps n init s) → IsAtomic r
    → (s.counters.active_workers ≡ pos (total n s.pc))
      × (s.counters.worker_fails ≡ minus (failures r))
      × LeavesNone s.main s.pc
tally_lem n s h r a = let v = run-IsRight n s h r a in (v.counted, v.fails, v.leaves)
