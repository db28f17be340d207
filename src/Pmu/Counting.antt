-- ===== src/Pmu/Counting.antt =====
-- What the module of src/armv7l-pmu/main.c leaves set when it is loaded and when it is unloaded.
use dpdk_perf.Common.{ℕ, ◌≡◌, refl, ◌∙◌, Bool, true, false, List, [], ◌∷◌, All, map}
use dpdk_perf.Pmu.{
  has_bit, user_enable, interrupt_clear, control, count_enable, overflow, PmuOps, all_counters,
  pmnc, set_enable, pum_user_enable, end,
}

-- The four event counters and the cycle counter.
abbrev pub five : List ℕ
five = 0 ∷ 1 ∷ 2 ∷ 3 ∷ 31 ∷ []

module _ (A : PmuOps) where
  -- All five counters run and do not interrupt; `access` is whether user programs may read them.
  pub record IsCounting (access : Bool) (cpu : A.Cpu) : Type 0 where
    pub user_access : A.user_access cpu ≡ access
    pub runs : A.runs cpu ≡ true
    pub enabled : All (λ n. A.is_enabled cpu n ≡ true) five
    pub silent : All (λ n. A.interrupts cpu n ≡ false) five

  module _ (val : ℕ) (cpu : A.Cpu) where
    access_after :
        (access : Bool) → has_bit val 0 ≡ access → A.user_access (set_enable A val cpu) ≡ access
    unfolding set_enable
    access_after access h =
        let c1 = A.mcr user_enable val cpu in
        let c2 = A.mcr interrupt_clear all_counters c1 in
        let c3 = A.mcr control pmnc c2 in
        let c4 = A.mcr count_enable all_counters c3 in
        A.user_access-mcr overflow all_counters c4
        ∙ A.user_access-mcr count_enable all_counters c3
        ∙ A.user_access-mcr control pmnc c2
        ∙ A.user_access-mcr interrupt_clear all_counters c1
        ∙ A.user_access-mcr user_enable val cpu
        ∙ h

    runs_after : A.runs (set_enable A val cpu) ≡ true
    unfolding set_enable
    runs_after =
        let c2 = A.mcr interrupt_clear all_counters (A.mcr user_enable val cpu) in
        let c3 = A.mcr control pmnc c2 in
        A.runs-mcr overflow all_counters (A.mcr count_enable all_counters c3)
        ∙ A.runs-mcr count_enable all_counters c3
        ∙ A.runs-mcr control pmnc c2

    enabled_after :
        (n : ℕ) → has_bit all_counters n ≡ true → A.is_enabled (set_enable A val cpu) n ≡ true
    unfolding set_enable
    enabled_after n h =
        let c3 =
          A.mcr control pmnc (A.mcr interrupt_clear all_counters (A.mcr user_enable val cpu)) in
        A.is_enabled-mcr overflow all_counters (A.mcr count_enable all_counters c3) n
        ∙ A.is_enabled-mcr count_enable all_counters c3 n
        ∙ rw h refl

    silent_after :
        (n : ℕ) → has_bit all_counters n ≡ true → A.interrupts (set_enable A val cpu) n ≡ false
    unfolding set_enable
    silent_after n h =
        let c1 = A.mcr user_enable val cpu in
        let c2 = A.mcr interrupt_clear all_counters c1 in
        let c3 = A.mcr control pmnc c2 in
        A.interrupts-mcr overflow all_counters (A.mcr count_enable all_counters c3) n
        ∙ A.interrupts-mcr count_enable all_counters c3 n
        ∙ A.interrupts-mcr control pmnc c2 n
        ∙ A.interrupts-mcr interrupt_clear all_counters c1 n
        ∙ rw h refl

    set_enable-IsCounting :
        (access : Bool) → has_bit val 0 ≡ access → IsCounting access (set_enable A val cpu)
    set_enable-IsCounting access h = record {
      user_access = access_after access h;
      runs = runs_after;
      enabled = (
        enabled_after 0 refl,
        (
          enabled_after 1 refl,
          (enabled_after 2 refl, (enabled_after 3 refl, (enabled_after 31 refl, tt))),
        ),
      );
      silent = (
        silent_after 0 refl,
        (
          silent_after 1 refl,
          (silent_after 2 refl, (silent_after 3 refl, (silent_after 31 refl, tt))),
        ),
      );
    }

  map_set-IsCounting :
      (val : ℕ) (access : Bool) (cpus : List A.Cpu)
      → has_bit val 0 ≡ access
      → All (IsCounting access) (map (set_enable A val) cpus)
  map_set-IsCounting val access [] h = tt
  map_set-IsCounting val access (c ∷ cpus) h =
      (set_enable-IsCounting val c access h, map_set-IsCounting val access cpus h)

  -- Whatever the counters did before: once the module is loaded, on each CPU the cycle counter and
  -- four others run, without interrupts, and user programs may read them; once it is unloaded, user
  -- programs may no longer read them, but all of them still run.
  pub pum-IsCounting :
      (cpus : List A.Cpu)
      → All (IsCounting true) (pum_user_enable A cpus).1
        × All (IsCounting false) (end A (pum_user_enable A cpus).1)
  unfolding pum_user_enable end
  pum-IsCounting cpus = (
    map_set-IsCounting 1 true cpus refl,
    map_set-IsCounting 0 false (map (set_enable A 1) cpus) refl,
  )
