-- ===== src/VclServer/Threads/Ending.antt =====
-- When main of src/vcl-test-server/main.c can return, if no two threads change the same counter at once.
use dpdk_perf.Common.{ℕ, zero, suc, ◌<◌, ◌≡◌, refl, ap, ◌∙◌, true, false, arith}
use dpdk_perf.Common.Int.{pos, is_positive}
use dpdk_perf.VclServer.Threads.{
  Pc, idle, starting, serving, failing, closing, ended, counting, blaming, uncounting, waiting,
  exited, System, Step, exit, Steps, init,
}
use dpdk_perf.VclServer.Threads.Exit.{is_over}
use dpdk_perf.VclServer.Threads.Turns.{is_counted, total}
use dpdk_perf.VclServer.Threads.Moves.{IsAtomic, minus}
use dpdk_perf.VclServer.Threads.Atomic.{failures, run-IsRight}

total_idle : (n : ℕ) (f : ℕ → Pc) → ((j : ℕ) → is_counted (f j) ≡ false) → total n f ≡ 0
total_idle zero f h = refl
total_idle (suc n) f h = ground (arith, h n, total_idle n f h)

over-counted : (p : Pc) → is_over p ≡ true → is_counted p ≡ false
over-counted idle h = refl
over-counted starting h = absurd (ground (arith, h))
over-counted serving h = absurd (ground (arith, h))
over-counted failing h = absurd (ground (arith, h))
over-counted closing h = absurd (ground (arith, h))
over-counted ended h = refl
over-counted (counting x) h = absurd (ground (arith, h))
over-counted (blaming x) h = absurd (ground (arith, h))
over-counted (uncounting x) h = absurd (ground (arith, h))

-- With any number of workers, after every run in which no worker loads a counter while another has
-- loaded it and not stored it yet: if main waits and every worker has returned or was not created,
-- then main can return, and its exit status is minus the number of workers that have failed.
pub main_can_exit :
    (n : ℕ) (s : System)
    → 0 < n
    → (r : Steps n init s) → IsAtomic r
    → s.main ≡ waiting
    → ((j : ℕ) → is_over (s.pc j) ≡ true)
    → (t : System) × Step n s t × (t.main ≡ exited) × (t.counters.worker_fails ≡ minus (failures r))
main_can_exit n s h r a m over =
    let v = run-IsRight n s h r a in
    let zero_left : total n s.pc ≡ 0 = total_idle n s.pc (λ j. over-counted (s.pc j) (over j)) in
    let none_left : is_positive s.counters.active_workers ≡ false =
      ap is_positive (v.counted ∙ ap pos zero_left) in
    (record s { main = exited }, exit m none_left, refl, v.fails)
