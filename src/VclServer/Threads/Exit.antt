-- ===== src/VclServer/Threads/Exit.antt =====
-- When main of src/vcl-test-server/main.c returns, with several workers.
use dpdk_perf.Common.{
  ℕ, zero, suc, ◌+◌, ◌<◌, ◌≡◌, ◌≢◌, refl, ap, subst, ◌∙◌, Bool, true, false, ◌==◌, arith,
  Bool-cases, inl, inr,
}
use dpdk_perf.Common.Int.{pos, is_positive}
use dpdk_perf.VclServer.Threads.{
  Counters, Pc, idle, starting, serving, closing, ended, counting, uncounting, looping, waiting,
  exited, creating, decr, Move, load_active, count, finish, give_up, load_fails, blame,
  reload_active, uncount, may_run, System, update, Step, move, booted, create, not_created,
  all_created, returned, spin, exit, Steps, stay, later, init,
}
use dpdk_perf.VclServer.Threads.Runs.{later_all, update_same, update_other, create_all, end_alone}

-- However many workers there are, main can return while all the others that it created have still to
-- run their first statement: it waits for the workers that are counted, and each counts itself.
pub main_leaves_workers :
    (n : ℕ)
    → 0 < n
    → (t : System) × Steps n init t
      × (t.main ≡ exited)
      × ((j : ℕ) → 0 < j → j < n → t.pc j ≡ starting)
unfolding may_run
main_leaves_workers zero h = absurd (omega arith)
main_leaves_workers (suc n) h =
    let one : Counters = record { active_workers = pos 1; worker_fails = pos 0 } in
    let pc1 : ℕ → Pc = update init.pc 0 (counting (pos 0)) in
    let s : System = record { main = creating 1; counters = one; pc = update pc1 0 serving } in
    let boot : Steps (suc n) init s =
      later (later (later stay (move 0 refl refl load_active)) (move 0 refl refl (count (pos 0))))
        (booted refl refl) in
    let c = create_all (suc n) n 1 s (omega arith) refl in
    let t : System = record c.last { main = looping } in
    let e = end_alone (suc n) 0 t refl (c.below 0 (omega arith)) in
    let none_left : is_positive e.last.counters.active_workers ≡ false =
      ap is_positive (e.counted ∙ ap (λ (k : Counters). decr k.active_workers) c.counters) in
    (
      record e.last { main = exited },
      later
          (later
            (later_all (later (later_all boot c.steps) (all_created (suc n) c.at (omega arith)))
              e.steps)
            (returned e.at e.is_ended))
          (exit refl none_left),
      refl,
      λ j h' h''. e.others j (ground arith) ∙ c.above j (omega arith) h'',
    )

-- A worker that was not created or has returned.
abbrev pub is_over : Pc → Bool
is_over idle = true
is_over ended = true
is_over _ = false

pub over_rests : {c c' : Counters} {p p' : Pc} → Move c p c' p' → is_over p ≡ false
over_rests load_active = refl
over_rests (count x) = refl
over_rests finish = refl
over_rests give_up = refl
over_rests load_fails = refl
over_rests (blame x) = refl
over_rests reload_active = refl
over_rests (uncount x) = refl

-- No step leads on from a main that waits while the counter is positive and no worker is left.
stuck :
    (n : ℕ) (t u : System)
    → t.main ≡ waiting
    → is_positive t.counters.active_workers ≡ true
    → ((j : ℕ) → is_over (t.pc j) ≡ true)
    → Step n t u
    → u ≡ t
stuck n t u m a o (move i e r v) = absurd (ground (arith, o i, e, over_rests v))
stuck n t u m a o (booted e _) = absurd (ground (arith, e, m))
stuck n t u m a o (create i e _) = absurd (ground (arith, e, m))
stuck n t u m a o (not_created i e _) = absurd (ground (arith, e, m))
stuck n t u m a o (all_created i e _) = absurd (ground (arith, e, m))
stuck n t u m a o (returned e _) = absurd (ground (arith, e, m))
stuck n t u m a o (spin _ _) = refl
stuck n t u m a o (exit _ z) = absurd (ground (arith, z, a))

pub stuck_for_ever :
    (n : ℕ) (t u : System)
    → t.main ≡ waiting
    → is_positive t.counters.active_workers ≡ true
    → ((j : ℕ) → is_over (t.pc j) ≡ true)
    → Steps n t u
    → u ≡ t
stuck_for_ever n t u m a o stay = refl
stuck_for_ever n t u m a o (later {t = v} r x) =
    let e = stuck_for_ever n t v m a o r in stuck n t u m a o (subst (λ w. Step n w u) e x)

-- Both main and worker i load active_workers before either stores it.
abbrev overlap : ℕ → System → System
overlap i s = record {
  main = waiting;
  counters = record s.counters { active_workers = decr s.counters.active_workers };
  pc =
      let loaded : Pc = uncounting s.counters.active_workers in
      let closed : ℕ → Pc = update (update s.pc 0 closing) i closing in
      update (update (update (update closed 0 loaded) i loaded) 0 ended) i ended;
}

overlap_reached :
    (n i : ℕ) (s : System)
    → s.main ≡ looping
    → s.pc 0 ≡ serving
    → s.pc (suc i) ≡ serving
    → Steps n s (overlap (suc i) s)
unfolding may_run
overlap_reached n i s m e e' =
    let c = s.counters in
    let loaded : Pc = uncounting c.active_workers in
    let free : (j : ℕ) (p : Pc) → may_run s.main j p ≡ true = λ j p. rw m refl in
    let less : Counters = record c { active_workers = decr c.active_workers } in
    let f1 = update s.pc 0 closing in
    let f2 = update f1 (suc i) closing in
    let f3 = update f2 0 loaded in
    let f4 = update f3 (suc i) loaded in
    let f5 = update f4 0 ended in
    let f6 = update f5 (suc i) ended in
    let at : Counters → (ℕ → Pc) → System = λ k f. record { main = s.main; counters = k; pc = f } in
    let to : (f : ℕ → Pc) (p : Pc) → update f 0 p (suc i) ≡ f (suc i) =
      λ f p. update_other f 0 (suc i) p (ground arith) in
    let back : (f : ℕ → Pc) (p : Pc) → update f (suc i) p 0 ≡ f 0 =
      λ f p. update_other f (suc i) 0 p (ground arith) in
    let one : Steps n s (at c f2) =
      later (later stay (move 0 e (free 0 serving) finish))
        (move (suc i) (to s.pc closing ∙ e') (free (suc i) serving) finish) in
    let two : Steps n (at c f2) (at c f4) =
      later (later stay (move 0 (back f1 closing) (free 0 closing) reload_active)) (
        move (suc i) (to f2 loaded ∙ update_same f1 (suc i) closing) (free (suc i) closing)
          reload_active) in
    let three : Steps n (at c f4) (at less f6) =
      later (later stay (move 0 (back f3 loaded) (free 0 loaded) (uncount c.active_workers))) (
        move (suc i) (to f4 ended ∙ update_same f3 (suc i) loaded) (free (suc i) loaded)
          (uncount c.active_workers)) in
    later (later_all (later_all one two) three) (returned m (back f5 ended))

-- If worker 0 and another worker serve, and the others have returned or do not exist, while
-- active_workers is 2 or more, both can end at the same time such that it is decreased only once:
-- then every worker has returned, and main waits for ever, as no step leads to any other state.
pub main_waits_for_ever :
    (n i a : ℕ) (s : System)
    → s.main ≡ looping
    → s.pc 0 ≡ serving
    → s.pc (suc i) ≡ serving
    → ((j : ℕ) → j ≢ 0 → j ≢ suc i → is_over (s.pc j) ≡ true)
    → s.counters.active_workers ≡ pos (2 + a)
    → (t : System) × Steps n s t
      × (t.main ≡ waiting)
      × ((j : ℕ) → is_over (t.pc j) ≡ true)
      × ((u : System) → Steps n t u → u ≡ t)
main_waits_for_ever n i a s m e e' rest c =
    let t = overlap (suc i) s in
    let over : (j : ℕ) → is_over (t.pc j) ≡ true = λ j. elim (Bool-cases (suc i == j)) [
      | inl q ↦ rw q refl
      | inr q ↦ elim (Bool-cases (0 == j)) [
        | inl z ↦ rw (q, z) refl
        | inr z ↦ rw (q, z) (rest j (λ k. ground (arith, k, z)) (λ k. ground (arith, k, q)))
      ]
    ] in
    let left : is_positive t.counters.active_workers ≡ true =
      ap (λ x. is_positive (decr x)) c ∙ ground arith in
    (t, overlap_reached n i s m e e', refl, over, λ u. stuck_for_ever n t u refl left over)
