-- ===== src/VclServer/Threads/Single.antt =====
-- The one worker that src/vcl-test-server/main.c has without the option -w.
use dpdk_perf.Common.{ℕ, zero, suc, ◌<◌, ◌≡◌, refl, subst, ◌∙◌, true, arith}
use dpdk_perf.Common.Int.{ℤ, pos}
use dpdk_perf.VclServer.Threads.{
  Counters, Pc, idle, starting, serving, ended, counting, uncounting, Main, booting, looping,
  waiting, exited, creating, Move, load_active, count, finish, give_up, load_fails, blame,
  reload_active, uncount, may_run, System, Step, move, booted, create, not_created, all_created,
  returned, spin, exit, Steps, stay, later, init,
}
use dpdk_perf.VclServer.Threads.Runs.{update_other}
use dpdk_perf.VclServer.Threads.Exit.{over_rests}

-- What active_workers is while the worker is at p: 1 from vts_worker_init to the end of its loop. A
-- value that the worker has loaded is still the right one.
abbrev pub Counted : Pc → ℤ → Type 0
Counted starting a = a ≡ pos 0
Counted (counting x) a = (x ≡ pos 0) × (a ≡ pos 0)
Counted (uncounting x) a = (x ≡ pos 1) × (a ≡ pos 1)
Counted ended a = a ≡ pos 0
Counted idle a = ⊥
Counted _ a = a ≡ pos 1

-- Where main is, against the worker that it is itself.
abbrev pub Goes : Main → Pc → Type 0
Goes (creating i) p = (p ≡ serving) × (0 < i)
Goes waiting p = p ≡ ended
Goes exited p = p ≡ ended
Goes _ p = Unit {0}

pub record IsAlone (s : System) : Type 0 where
  pub counted : Counted (s.pc 0) s.counters.active_workers
  pub goes : Goes s.main (s.pc 0)
  pub nobody_else : (j : ℕ) → 0 < j → s.pc j ≡ idle

moved :
    {c c' : Counters} {p p' : Pc}
    → Move c p c' p'
    → Counted p c.active_workers
    → Counted p' c'.active_workers
moved load_active k = (k, k)
moved (count x) (e, k) = rw e refl
moved finish k = k
moved give_up k = k
moved load_fails k = k
moved (blame x) k = k
moved reload_active k = (k, k)
moved (uncount x) (e, k) = rw e refl

main_stays :
    {c c' : Counters} {p p' : Pc} (m : Main)
    → Move c p c' p'
    → may_run m 0 p ≡ true
    → Goes m p
    → Goes m p'
unfolding may_run
main_stays booting v r g = tt
main_stays looping v r g = tt
main_stays (creating i) v r g = absurd (ground (arith, r))
main_stays waiting v r g = absurd (ground (arith, g, over_rests v))
main_stays exited v r g = absurd (ground (arith, r))

move-IsAlone : (s t : System) → Step 1 s t → IsAlone s → IsAlone t
move-IsAlone s t (move zero e r m) v = record {
  counted = moved m (subst (λ p. Counted p s.counters.active_workers) e v.counted);
  goes = main_stays s.main m r (subst (Goes s.main) e v.goes);
  nobody_else = λ j h. update_other s.pc 0 j _ (ground arith) ∙ v.nobody_else j h;
}
move-IsAlone s t (move (suc i) e r m) v =
    absurd (ground (arith, v.nobody_else (suc i) (omega arith), e, over_rests m))
move-IsAlone s t (booted e e') v = record {
  counted = v.counted;
  goes = (e', omega arith);
  nobody_else = v.nobody_else;
}
move-IsAlone s t (create i e h) v =
    let g : (s.pc 0 ≡ serving) × (0 < i) = subst (λ m. Goes m (s.pc 0)) e v.goes in
    absurd (omega (arith, g.1, h))
move-IsAlone s t (not_created i e h) v =
    let g : (s.pc 0 ≡ serving) × (0 < i) = subst (λ m. Goes m (s.pc 0)) e v.goes in
    absurd (omega (arith, g.1, h))
move-IsAlone s t (all_created i e _) v = record {
  counted = v.counted;
  goes = tt;
  nobody_else = v.nobody_else;
}
move-IsAlone s t (returned e e') v = record {
  counted = v.counted;
  goes = e';
  nobody_else = v.nobody_else;
}
move-IsAlone s t (spin _ _) v = v
move-IsAlone s t (exit e z) v = record {
  counted = v.counted;
  goes = subst (λ m. Goes m (s.pc 0)) e v.goes;
  nobody_else = v.nobody_else;
}

-- With one worker, in every state that the program can come to, active_workers is 1 while the worker
-- is between vts_worker_init and the end of its loop and 0 else, and once main waits or has
-- returned, the worker has returned.
pub one_worker-IsAlone : (s : System) → Steps 1 init s → IsAlone s
one_worker-IsAlone s stay = record { counted = refl; goes = tt; nobody_else = λ j h. ground arith }
one_worker-IsAlone s (later {t = t} r x) = move-IsAlone t s x (one_worker-IsAlone t r)
