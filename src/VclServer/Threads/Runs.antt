-- ===== src/VclServer/Threads/Runs.antt =====
-- Runs of the threads of src/vcl-test-server/main.c put together.
use dpdk_perf.Common.{
  ℕ, zero, suc, ◌+◌, ◌≤◌, ◌<◌, ◌≡◌, refl, ap, ◌∙◌, true, false, ◌==◌, arith, Bool-cases, inl, inr,
}
use dpdk_perf.VclServer.Threads.{
  Counters, Pc, starting, serving, closing, ended, uncounting, creating, looping, decr, finish,
  reload_active, uncount, may_run, System, update, move, create, Steps, stay, later,
}

pub later_all : {n : ℕ} {s t u : System} → Steps n s t → Steps n t u → Steps n s u
later_all a stay = a
later_all a (later b c) = later (later_all a b) c

pub update_same : (f : ℕ → Pc) (i : ℕ) (p : Pc) → update f i p i ≡ p
update_same f i p = ground arith

pub update_other : (f : ℕ → Pc) (i j : ℕ) (p : Pc) → (i == j) ≡ false → update f i p j ≡ f j
update_other f i j p e = rw e refl

-- main creates the workers from i on, of which k are left.
pub record Created (n i : ℕ) (s : System) : Type 0 where
  pub last : System
  pub steps : Steps n s last
  pub at : last.main ≡ creating n
  pub counters : last.counters ≡ s.counters
  pub below : (j : ℕ) → j < i → last.pc j ≡ s.pc j
  pub above : (j : ℕ) → i ≤ j → j < n → last.pc j ≡ starting

pub create_all : (n k i : ℕ) (s : System) → i + k ≡ n → s.main ≡ creating i → Created n i s
create_all n zero i s e m = record {
  last = s;
  steps = stay;
  at = m ∙ ap creating (omega (arith, e));
  counters = refl;
  below = λ j h. refl;
  above = λ j h h'. absurd (omega (arith, e));
}
create_all n (suc k) i s e m =
    let t : System = record s { main = creating (suc i); pc = update s.pc i starting } in
    let c = create_all n k (suc i) t (omega (arith, e)) refl in
    record {
      last = c.last;
      steps = later_all (later stay (create i m (omega (arith, e)))) c.steps;
      at = c.at;
      counters = c.counters;
      below = λ j h. c.below j (omega arith) ∙ update_other s.pc i j starting (ground arith);
      above = λ j h h'. elim (Bool-cases (i == j)) [
        | inl q ↦ c.below j (ground (arith, q)) ∙ rw q refl
        | inr q ↦ c.above j (ground (arith, q)) h'
      ];
    }

-- Worker i leaves its loop while no other moves.
pub record Ended (n i : ℕ) (s : System) : Type 0 where
  pub last : System
  pub steps : Steps n s last
  pub at : last.main ≡ looping
  pub counted : last.counters.active_workers ≡ decr s.counters.active_workers
  pub is_ended : last.pc i ≡ ended
  pub others : (j : ℕ) → (i == j) ≡ false → last.pc j ≡ s.pc j

pub end_alone : (n i : ℕ) (s : System) → s.main ≡ looping → s.pc i ≡ serving → Ended n i s
unfolding may_run
end_alone n i s m e =
    let c = s.counters in
    let s1 : System = record { main = s.main; counters = c; pc = update s.pc i closing } in
    let loaded : Pc = uncounting c.active_workers in
    let s2 : System = record { main = s.main; counters = c; pc = update s1.pc i loaded } in
    let less : Counters = record c { active_workers = decr c.active_workers } in
    let s3 : System = record { main = s.main; counters = less; pc = update s2.pc i ended } in
    let free : (p : Pc) → may_run s.main i p ≡ true = λ p. rw m refl in
    record {
      last = s3;
      steps =
          later
            (later (later stay (move i e (free serving) finish))
              (move i (update_same s.pc i closing) (free closing) reload_active))
            (move i (update_same s1.pc i loaded) (free loaded) (uncount c.active_workers));
      at = m;
      counted = refl;
      is_ended = update_same s2.pc i ended;
      others = λ j q. rw q refl;
    }
