-- ===== src/Pmu/Tests.antt =====
-- The module of src/armv7l-pmu/main.c on two CPUs, whose counters are functions.
use dpdk_perf.Common.{ℕ, ◌≡◌, refl, Bool, true, false, ◌&&◌, ◌||◌, not, List, [], ◌∷◌, All}
use dpdk_perf.Pmu.{
  Register, user_enable, interrupt_clear, control, count_enable, overflow, PmuOps, has_bit,
  pum_user_enable, end,
}
use dpdk_perf.Pmu.Counting.{IsCounting, pum-IsCounting}

record Cpu : Type 0 where
  user_access : Bool
  runs : Bool
  is_enabled : ℕ → Bool
  interrupts : ℕ → Bool

abbrev mcr : Register → ℕ → Cpu → Cpu
mcr user_enable v c = record c { user_access = has_bit v 0 }
mcr interrupt_clear v c = record c { interrupts = λ n. not (has_bit v n) && c.interrupts n }
mcr control v c = record c { runs = has_bit v 0 }
mcr count_enable v c = record c { is_enabled = λ n. has_bit v n || c.is_enabled n }
mcr overflow v c = c

user_access-mcr :
    (r : Register) (v : ℕ) (c : Cpu)
    → (mcr r v c).user_access ≡ elim r [ user_enable ↦ has_bit v 0 | _ ↦ c.user_access ]
user_access-mcr user_enable v c = refl
user_access-mcr interrupt_clear v c = refl
user_access-mcr control v c = refl
user_access-mcr count_enable v c = refl
user_access-mcr overflow v c = refl

runs-mcr :
    (r : Register) (v : ℕ) (c : Cpu)
    → (mcr r v c).runs ≡ elim r [ control ↦ has_bit v 0 | _ ↦ c.runs ]
runs-mcr user_enable v c = refl
runs-mcr interrupt_clear v c = refl
runs-mcr control v c = refl
runs-mcr count_enable v c = refl
runs-mcr overflow v c = refl

is_enabled-mcr :
    (r : Register) (v : ℕ) (c : Cpu) (n : ℕ)
    → (mcr r v c).is_enabled n
      ≡ elim r [ count_enable ↦ has_bit v n || c.is_enabled n | _ ↦ c.is_enabled n ]
is_enabled-mcr user_enable v c n = refl
is_enabled-mcr interrupt_clear v c n = refl
is_enabled-mcr control v c n = refl
is_enabled-mcr count_enable v c n = refl
is_enabled-mcr overflow v c n = refl

interrupts-mcr :
    (r : Register) (v : ℕ) (c : Cpu) (n : ℕ)
    → (mcr r v c).interrupts n
      ≡ elim r [ interrupt_clear ↦ not (has_bit v n) && c.interrupts n | _ ↦ c.interrupts n ]
interrupts-mcr user_enable v c n = refl
interrupts-mcr interrupt_clear v c n = refl
interrupts-mcr control v c n = refl
interrupts-mcr count_enable v c n = refl
interrupts-mcr overflow v c n = refl

abbrev functions : PmuOps
functions = record {
  Cpu = Cpu;
  mcr = mcr;
  user_access = λ c. c.user_access;
  runs = λ c. c.runs;
  is_enabled = λ c. c.is_enabled;
  interrupts = λ c. c.interrupts;
  user_access-mcr = user_access-mcr;
  runs-mcr = runs-mcr;
  is_enabled-mcr = is_enabled-mcr;
  interrupts-mcr = interrupts-mcr;
}

abbrev off : Cpu
off = record { user_access = false; runs = false; is_enabled = λ n. false; interrupts = λ n. true }

abbrev cpus : List Cpu
cpus = off ∷ off ∷ []

pum-IsCounting_example :
    All (IsCounting functions true) (pum_user_enable functions cpus).1
    × All (IsCounting functions false) (end functions (pum_user_enable functions cpus).1)
pum-IsCounting_example = pum-IsCounting functions cpus
