-- ===== src/Pmu.antt =====
-- src/armv7l-pmu/main.c: the kernel module that opens the performance counters of each CPU to user
-- programs. The counters of a CPU are an interface, with the effects of a write that the ARM manual
-- gives.
pub mod Counting
mod Tests
use dpdk_perf.Common.{
  ℕ, ◌+◌, ◌*◌, ◌/◌, ◌%◌, ◌^◌, ◌≡◌, Bool, true, false, ◌&&◌, ◌||◌, not, List, map, bit_or, ◌==◌,
}

-- The registers of coprocessor 15 that set_enable writes: c9,c14,0 (PMUSERENR), c9,c14,2
-- (PMINTENCLR), c9,c12,0 (PMCR), c9,c12,1 (PMCNTENSET) and c9,c12,3 (PMOVSR).
pub data Register : Type 0 where
  user_enable interrupt_clear control count_enable overflow : Register

abbrev pub has_bit : ℕ → ℕ → Bool
has_bit v n = v / 2 ^ n % 2 == 1

-- The instruction mcr, and what it changes: whether user programs may read the counters, whether the
-- counters run, and which of them are enabled, and may interrupt. Counter 31 is that of the cycles.
pub record PmuOps : Type 1 where
  pub Cpu : Type 0
  pub mcr : Register → ℕ → Cpu → Cpu
  pub user_access : Cpu → Bool
  pub runs : Cpu → Bool
  pub is_enabled : Cpu → ℕ → Bool
  pub interrupts : Cpu → ℕ → Bool
  pub user_access-mcr :
      (r : Register) (v : ℕ) (c : Cpu)
      → user_access (mcr r v c) ≡ elim r [ user_enable ↦ has_bit v 0 | _ ↦ user_access c ]
  pub runs-mcr :
      (r : Register) (v : ℕ) (c : Cpu)
      → runs (mcr r v c) ≡ elim r [ control ↦ has_bit v 0 | _ ↦ runs c ]
  pub is_enabled-mcr :
      (r : Register) (v : ℕ) (c : Cpu) (n : ℕ)
      → is_enabled (mcr r v c) n
        ≡ elim r [ count_enable ↦ has_bit v n || is_enabled c n | _ ↦ is_enabled c n ]
  pub interrupts-mcr :
      (r : Register) (v : ℕ) (c : Cpu) (n : ℕ)
      → interrupts (mcr r v c) n
        ≡ elim r [ interrupt_clear ↦ not (has_bit v n) && interrupts c n | _ ↦ interrupts c n ]

-- ARMV7_PMNC_E | ARMV7_PMNC_P | ARMV7_PMNC_C | ARMV7_PMNC_D | ARMV7_PMNC_X
abbrev pub pmnc : ℕ
pmnc = bit_or (bit_or (bit_or (bit_or (2 ^ 0) (2 ^ 1)) (2 ^ 2)) (2 ^ 3)) (2 ^ 4)

-- 0x8000000f: the cycle counter and the first four others.
abbrev pub all_counters : ℕ
all_counters = 0x8000000f

module _ (A : PmuOps) where
  unfoldable pub set_enable : ℕ → A.Cpu → A.Cpu
  set_enable val cpu =
      let cpu = A.mcr user_enable val cpu in
      let cpu = A.mcr interrupt_clear all_counters cpu in
      let cpu = A.mcr control pmnc cpu in
      let cpu = A.mcr count_enable all_counters cpu in A.mcr overflow all_counters cpu

  -- module_init, over the CPUs that on_each_cpu reaches, with its result.
  unfoldable pub pum_user_enable : List A.Cpu → ℕ × List A.Cpu
  unfolding set_enable
  pum_user_enable cpus = (0, map (set_enable 1) cpus)

  -- module_exit.
  unfoldable pub end : List A.Cpu → List A.Cpu
  unfolding set_enable
  end cpus = map (set_enable 0) cpus
