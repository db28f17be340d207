-- ===== src/VclServer/Threads/Turns.antt =====
-- Which threads of src/vcl-test-server/main.c have loaded a counter and not stored it yet, and how many
-- workers are counted.
use dpdk_perf.Common.{
  ℕ, zero, suc, ◌+◌, ◌≤◌, ◌<◌, ◌≡◌, refl, sym, ap, ◌∙◌, Bool, true, false, Option, none, some, ◌==◌,
  arith, if◌then◌else◌, Bool-cases, inl, inr,
}
use dpdk_perf.Common.Int.{ℤ}
use dpdk_perf.VclServer.Threads.{
  Pc, serving, failing, closing, counting, blaming, uncounting, update,
}
use dpdk_perf.VclServer.Threads.Runs.{update_same, update_other}

-- A worker that has counted itself and is still to take that back.
abbrev pub is_counted : Pc → Bool
is_counted serving = true
is_counted failing = true
is_counted (blaming x) = true
is_counted closing = true
is_counted (uncounting x) = true
is_counted _ = false

abbrev pub weight : Pc → ℕ
weight p = if is_counted p then 1 else 0

-- How many of the first n workers are counted.
abbrev pub total : ℕ → (ℕ → Pc) → ℕ
total zero f = 0
total (suc n) f = total n f + weight (f n)

-- The value of active_workers that a worker is about to change.
abbrev pub loaded_active : Pc → Option ℤ
loaded_active (counting x) = some x
loaded_active (uncounting x) = some x
loaded_active _ = none

-- The same for worker_fails.
abbrev pub loaded_fails : Pc → Option ℤ
loaded_fails (blaming x) = some x
loaded_fails _ = none

total_beyond : (n : ℕ) (f : ℕ → Pc) (i : ℕ) (p : Pc) → n ≤ i → total n (update f i p) ≡ total n f
total_beyond zero f i p h = refl
total_beyond (suc n) f i p h =
    let e : (i == n) ≡ false = ground arith in
    let here : weight (update f i p n) ≡ weight (f n) = ap weight (update_other f i n p e) in
    omega (arith, total_beyond n f i p (omega arith), here)

pub total_update :
    (n : ℕ) (f : ℕ → Pc) (i : ℕ) (p : Pc)
    → i < n
    → total n (update f i p) + weight (f i) ≡ total n f + weight p
total_update zero f i p h = absurd (omega arith)
total_update (suc n) f i p h = elim (Bool-cases (i == n)) [
  | inl e ↦
      let same : i ≡ n = ground (arith, e) in
      let here : weight (update f i p n) ≡ weight p = rw e refl in
      let old : weight (f i) ≡ weight (f n) = ap (λ j. weight (f j)) same in
      omega (arith, total_beyond n f i p (omega arith), here, old)
  | inr e ↦
      let here : weight (update f i p n) ≡ weight (f n) = ap weight (update_other f i n p e) in
      let less : i < n = ground (arith, e) in omega (arith, total_update n f i p less, here)
]

pub total_none : (n : ℕ) (f : ℕ → Pc) → total n f ≡ 0 → (j : ℕ) → j < n → is_counted (f j) ≡ false
total_none zero f e j h = absurd (omega arith)
total_none (suc n) f e j h = elim (Bool-cases (j == n)) [
  | inl q ↦
      let same : j ≡ n = ground (arith, q) in ap (λ k. is_counted (f k)) same ∙ ground (arith, e)
  | inr q ↦ let less : j < n = ground (arith, q) in total_none n f (omega (arith, e)) j less
]

module _ (loaded : Pc → Option ℤ) where
  -- No worker has loaded the counter and not stored it.
  abbrev pub NoneLoaded : (ℕ → Pc) → Type 0
  NoneLoaded f = (j : ℕ) → loaded (f j) ≡ none

  -- No worker, or just one and the counter is still what it has loaded.
  pub data Turn (a : ℤ) (f : ℕ → Pc) : Type 0 where
    nobody : NoneLoaded f → Turn a f
    somebody :
        (i : ℕ)
        → loaded (f i) ≡ some a
        → ((j : ℕ) → (i == j) ≡ false → loaded (f j) ≡ none)
        → Turn a f

  pub Turn-other :
      (a : ℤ) (f : ℕ → Pc) (i : ℕ) (p : Pc)
      → loaded (f i) ≡ none
      → loaded p ≡ none
      → Turn a f
      → Turn a (update f i p)
  Turn-other a f i p e e' (nobody h) =
      nobody (λ j. elim (Bool-cases (i == j)) [ inl q ↦ rw q e' | inr q ↦ rw q (h j) ])
  Turn-other a f i p e e' (somebody k l h) = elim (Bool-cases (i == k)) [
    | inl q ↦
        let same : i ≡ k = ground (arith, q) in
        absurd (ground (arith, ap (λ j. loaded (f j)) same, l, e))
    | inr q ↦
        somebody k (ap loaded (update_other f i k p q) ∙ l)
          (λ j r. elim (Bool-cases (i == j)) [ inl s ↦ rw s e' | inr s ↦ rw s (h j r) ])
  ]

  pub Turn-load :
      (a : ℤ) (f : ℕ → Pc) (i : ℕ) (p : Pc)
      → NoneLoaded f
      → loaded p ≡ some a
      → Turn a (update f i p)
  Turn-load a f i p h e =
      somebody i (ap loaded (update_same f i p) ∙ e)
        (λ j q. ap loaded (update_other f i j p q) ∙ h j)

  pub Turn-store :
      (a a' x : ℤ) (f : ℕ → Pc) (i : ℕ) (p : Pc)
      → loaded (f i) ≡ some x
      → loaded p ≡ none
      → Turn a f
      → (x ≡ a) × Turn a' (update f i p)
  Turn-store a a' x f i p e e' (nobody h) = absurd (ground (arith, h i, e))
  Turn-store a a' x f i p e e' (somebody k l h) = elim (Bool-cases (k == i)) [
    | inl q ↦
        let same : k ≡ i = ground (arith, q) in
        let it : some x ≡ some a = sym e ∙ (ap (λ j. loaded (f j)) (sym same) ∙ l) in
        (
          ap (λ o. elim o [ none ↦ x | some y ↦ y ]) it,
          nobody (λ j. elim (Bool-cases (i == j)) [
            | inl s ↦ rw s e'
            | inr s ↦ rw s (h j (ap (λ m. m == j) same ∙ s))
          ]),
        )
    | inr q ↦ absurd (ground (arith, h i q, e))
  ]
