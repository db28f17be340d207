-- ===== src/VclServer/Threads.antt =====
-- The threads of src/vcl-test-server/main.c: main, which is worker 0 and starts the others, and the
-- counters active_workers and worker_fails, which they share without a lock. Each `+= 1` and `-= 1`
-- is a load and a store.
pub mod Runs
pub mod Turns
pub mod Exit
pub mod Moves
pub mod Atomic
pub mod Ending
pub mod Single
mod Tests
use dpdk_perf.Common.{ℕ, zero, suc, ◌+◌, ◌≤◌, ◌<◌, ◌≡◌, Bool, true, false, ◌==◌, if◌then◌else◌}
use dpdk_perf.Common.Int.{ℤ, pos, negsuc, sub_nat, is_positive}

-- What vcl_server_main holds for all.
pub record Counters : Type 0 where
  pub active_workers : ℤ
  pub worker_fails : ℤ

-- Where a worker is: not created, in vts_worker_init, in the loop, at fail, at done, returned. The
-- states with a number have loaded a counter and not stored it yet.
pub data Pc : Type 0 where
  idle starting serving failing closing ended : Pc
  counting blaming uncounting : ℤ → Pc

-- Where main is: in the first vts_worker_init, about to create worker i, in the loop of worker 0, in
-- the wait for active_workers, returned.
pub data Main : Type 0 where
  booting looping waiting exited : Main
  creating : ℕ → Main

abbrev pub incr : ℤ → ℤ
incr (pos n) = pos (suc n)
incr (negsuc zero) = pos 0
incr (negsuc (suc n)) = negsuc n

abbrev pub decr : ℤ → ℤ
decr x = sub_nat x 1

-- vts_worker_init and vts_worker_loop.
pub data Move (c : Counters) : Pc → Counters → Pc → Type 0 where
  load_active : Move c starting c (counting c.active_workers)
  count : (x : ℤ) → Move c (counting x) (record c { active_workers = incr x }) serving
  finish : Move c serving c closing
  give_up : Move c serving c failing
  load_fails : Move c failing c (blaming c.worker_fails)
  blame : (x : ℤ) → Move c (blaming x) (record c { worker_fails = decr x }) closing
  reload_active : Move c closing c (uncounting c.active_workers)
  uncount : (x : ℤ) → Move c (uncounting x) (record c { active_workers = decr x }) ended

pub record System : Type 0 where
  pub main : Main
  pub counters : Counters
  pub pc : ℕ → Pc

abbrev pub update : (ℕ → Pc) → ℕ → Pc → ℕ → Pc
update f i p j = if i == j then p else f j

-- Worker 0 is main: it is in vts_worker_init before the others are created and in its loop after.
-- Nothing runs once main has returned.
unfoldable pub may_run : Main → ℕ → Pc → Bool
may_run exited i p = false
may_run booting zero serving = false
may_run (creating j) zero p = false
may_run m i p = true

pub data Step (n : ℕ) (s : System) : System → Type 0 where
  move :
      (i : ℕ) {p p' : Pc} {c : Counters}
      → s.pc i ≡ p
      → may_run s.main i p ≡ true
      → Move s.counters p c p'
      → Step n s (record { main = s.main; counters = c; pc = update s.pc i p' })
  booted : s.main ≡ booting → s.pc 0 ≡ serving → Step n s (record s { main = creating 1 })
  create :
      (i : ℕ)
      → s.main ≡ creating i
      → i < n
      → Step n s (record s { main = creating (suc i); pc = update s.pc i starting })
  not_created :
      (i : ℕ) → s.main ≡ creating i → i < n → Step n s (record s { main = creating (suc i) })
  all_created : (i : ℕ) → s.main ≡ creating i → n ≤ i → Step n s (record s { main = looping })
  returned : s.main ≡ looping → s.pc 0 ≡ ended → Step n s (record s { main = waiting })
  spin : s.main ≡ waiting → is_positive s.counters.active_workers ≡ true → Step n s s
  exit :
      s.main ≡ waiting
      → is_positive s.counters.active_workers ≡ false
      → Step n s (record s { main = exited })

-- Any number of steps.
pub data Steps (n : ℕ) (s : System) : System → Type 0 where
  stay : Steps n s s
  later : {t u : System} → Steps n s t → Step n t u → Steps n s u

abbrev pub init : System
init = record {
  main = booting;
  counters = record { active_workers = pos 0; worker_fails = pos 0 };
  pc = λ i. if i == 0 then starting else idle;
}
