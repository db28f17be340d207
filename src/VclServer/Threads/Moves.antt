-- ===== src/VclServer/Threads/Moves.antt =====
-- Moves of the threads of src/vcl-test-server/main.c in which no two change the same counter at once.
use dpdk_perf.Common.{
  ℕ, zero, suc, ◌+◌, ◌≤◌, ◌≡◌, refl, sym, ap, ◌∙◌, true, false, none, some, ◌==◌, arith, Bool-cases,
  inl, inr,
}
use dpdk_perf.Common.Int.{ℤ, pos, negsuc}
use dpdk_perf.VclServer.Threads.{
  Counters, Pc, idle, serving, closing, ended, Main, booting, looping, waiting, exited, creating,
  incr, decr, Move, load_active, count, finish, give_up, load_fails, blame, reload_active, uncount,
  may_run, System, update, Step, move, Steps, stay, later,
}
use dpdk_perf.VclServer.Threads.Runs.{update_other}
use dpdk_perf.VclServer.Threads.Exit.{is_over}
use dpdk_perf.VclServer.Threads.Turns.{
  is_counted, weight, loaded_active, loaded_fails, NoneLoaded, Turn, Turn-other, Turn-load,
  Turn-store,
}

-- A worker that loads a counter does so while no other has loaded it and not stored it yet.
abbrev pub IsAtomicMove : {c c' : Counters} {p p' : Pc} → (ℕ → Pc) → Move c p c' p' → Type 0
IsAtomicMove f load_active = NoneLoaded loaded_active f
IsAtomicMove f reload_active = NoneLoaded loaded_active f
IsAtomicMove f load_fails = NoneLoaded loaded_fails f
IsAtomicMove f _ = Unit {0}

abbrev pub IsAtomicStep : {n : ℕ} {s t : System} → Step n s t → Type 0
IsAtomicStep {s = s} (move i e r m) = IsAtomicMove s.pc m
IsAtomicStep _ = Unit {0}

abbrev pub IsAtomic : {n : ℕ} {s t : System} → Steps n s t → Type 0
IsAtomic stay = Unit {0}
IsAtomic (later r x) = IsAtomic r × IsAtomicStep x

-- The workers that main has still to create.
abbrev pub Awaits : Main → (ℕ → Pc) → Type 0
Awaits booting f = (j : ℕ) → 1 ≤ j → f j ≡ idle
Awaits (creating i) f = (j : ℕ) → i ≤ j → f j ≡ idle
Awaits _ f = Unit {0}

-- Once main has returned no worker is counted.
abbrev pub LeavesNone : Main → (ℕ → Pc) → Type 0
LeavesNone exited f = (j : ℕ) → is_counted (f j) ≡ false
LeavesNone _ f = Unit {0}

-- A worker that is not created stays so while another one moves.
pub idle_stays :
    (f : ℕ → Pc) (i j : ℕ) (p : Pc) → is_over (f i) ≡ false → f j ≡ idle → update f i p j ≡ idle
idle_stays f i j p e h = elim (Bool-cases (i == j)) [
  | inl q ↦
      let same : i ≡ j = ground (arith, q) in
      absurd (ground (arith, ap (λ k. is_over (f k)) same, ap is_over h, e))
  | inr q ↦ update_other f i j p q ∙ h
]

pub Awaits-update :
    (m : Main) (f : ℕ → Pc) (i : ℕ) (p : Pc)
    → is_over (f i) ≡ false
    → Awaits m f
    → Awaits m (update f i p)
Awaits-update booting f i p e w = λ j h. idle_stays f i j p e (w j h)
Awaits-update (creating k) f i p e w = λ j h. idle_stays f i j p e (w j h)
Awaits-update looping f i p e w = tt
Awaits-update waiting f i p e w = tt
Awaits-update exited f i p e w = tt

-- A worker runs only before main has returned.
pub LeavesNone-runs :
    (m : Main) (f : ℕ → Pc) (i : ℕ) (p : Pc) → may_run m i p ≡ true → LeavesNone m f
unfolding may_run
LeavesNone-runs exited f i p r = absurd (ground (arith, r))
LeavesNone-runs booting f i p r = tt
LeavesNone-runs (creating k) f i p r = tt
LeavesNone-runs looping f i p r = tt
LeavesNone-runs waiting f i p r = tt

-- The number of counted workers and the counter after a move of worker i.
pub counts :
    {c c' : Counters} {p p' : Pc} (k k' : ℕ)
    → (m : Move c p c' p') → k' + weight p ≡ k + weight p'
    → c.active_workers ≡ pos k
    → ((x : ℤ) → loaded_active p ≡ some x → x ≡ c.active_workers)
    → c'.active_workers ≡ pos k'
counts k k' load_active e a l = a ∙ ap pos (omega (arith, e))
counts k k' (count x) e a l = ap incr (l x refl ∙ a) ∙ ap pos (omega (arith, e))
counts k k' finish e a l = a ∙ ap pos (omega (arith, e))
counts k k' give_up e a l = a ∙ ap pos (omega (arith, e))
counts k k' load_fails e a l = a ∙ ap pos (omega (arith, e))
counts k k' (blame x) e a l = a ∙ ap pos (omega (arith, e))
counts k k' reload_active e a l = a ∙ ap pos (omega (arith, e))
counts k k' (uncount x) e a l =
    let more : k ≡ suc k' = omega (arith, e) in ap decr (l x refl ∙ a ∙ ap pos more) ∙ ground arith

-- The turns after a move of worker i, and what it has loaded.
pub turns :
    {c c' : Counters} {p p' : Pc} (f : ℕ → Pc) (i : ℕ)
    → f i ≡ p
    → (m : Move c p c' p') → IsAtomicMove f m
    → Turn loaded_active c.active_workers f
    → Turn loaded_active c'.active_workers (update f i p')
      × ((x : ℤ) → loaded_active p ≡ some x → x ≡ c.active_workers)
turns {c = c} f i e load_active h t =
    (Turn-load loaded_active c.active_workers f i _ h refl, λ x q. absurd (ground (arith, q)))
turns {c = c} f i e reload_active h t =
    (Turn-load loaded_active c.active_workers f i _ h refl, λ x q. absurd (ground (arith, q)))
turns {c = c} f i e (count x) h t =
    let (same, t') =
      Turn-store loaded_active c.active_workers (incr x) x f i serving (ap loaded_active e) refl
        t in
    (t', λ y q. ap (λ o. elim o [ none ↦ y | some z ↦ z ]) (sym q) ∙ same)
turns {c = c} f i e (uncount x) h t =
    let (same, t') =
      Turn-store loaded_active c.active_workers (decr x) x f i ended (ap loaded_active e) refl t in
    (t', λ y q. ap (λ o. elim o [ none ↦ y | some z ↦ z ]) (sym q) ∙ same)
turns {c = c} f i e finish h t = (
  Turn-other loaded_active c.active_workers f i _ (ap loaded_active e) refl t,
  λ x q. absurd (ground (arith, q)),
)
turns {c = c} f i e give_up h t = (
  Turn-other loaded_active c.active_workers f i _ (ap loaded_active e) refl t,
  λ x q. absurd (ground (arith, q)),
)
turns {c = c} f i e load_fails h t = (
  Turn-other loaded_active c.active_workers f i _ (ap loaded_active e) refl t,
  λ x q. absurd (ground (arith, q)),
)
turns {c = c} f i e (blame x) h t = (
  Turn-other loaded_active c.active_workers f i _ (ap loaded_active e) refl t,
  λ x q. absurd (ground (arith, q)),
)

-- The number -k.
abbrev pub minus : ℕ → ℤ
minus zero = pos 0
minus (suc k) = negsuc k

decr-minus : (k : ℕ) → decr (minus k) ≡ minus (suc k)
decr-minus zero = ground arith
decr-minus (suc k) = ap negsuc (omega arith)

-- One more for a worker that decreases worker_fails.
abbrev pub blames : {c c' : Counters} {p p' : Pc} → Move c p c' p' → ℕ → ℕ
blames (blame x) k = suc k
blames _ k = k

-- worker_fails and its turns after a move of worker i.
pub fails_turns :
    {c c' : Counters} {p p' : Pc} (f : ℕ → Pc) (i k : ℕ)
    → f i ≡ p
    → (m : Move c p c' p') → IsAtomicMove f m
    → c.worker_fails ≡ minus k
    → Turn loaded_fails c.worker_fails f
    → (c'.worker_fails ≡ minus (blames m k)) × Turn loaded_fails c'.worker_fails (update f i p')
fails_turns {c = c} f i k e load_fails h a t =
    (a, Turn-load loaded_fails c.worker_fails f i _ h refl)
fails_turns {c = c} f i k e (blame x) h a t =
    let (same, t') =
      Turn-store loaded_fails c.worker_fails (decr x) x f i closing (ap loaded_fails e) refl t in
    (ap decr (same ∙ a) ∙ decr-minus k, t')
fails_turns {c = c} f i k e load_active h a t =
    (a, Turn-other loaded_fails c.worker_fails f i _ (ap loaded_fails e) refl t)
fails_turns {c = c} f i k e (count x) h a t =
    (a, Turn-other loaded_fails c.worker_fails f i _ (ap loaded_fails e) refl t)
fails_turns {c = c} f i k e finish h a t =
    (a, Turn-other loaded_fails c.worker_fails f i _ (ap loaded_fails e) refl t)
fails_turns {c = c} f i k e give_up h a t =
    (a, Turn-other loaded_fails c.worker_fails f i _ (ap loaded_fails e) refl t)
fails_turns {c = c} f i k e reload_active h a t =
    (a, Turn-other loaded_fails c.worker_fails f i _ (ap loaded_fails e) refl t)
fails_turns {c = c} f i k e (uncount x) h a t =
    (a, Turn-other loaded_fails c.worker_fails f i _ (ap loaded_fails e) refl t)
