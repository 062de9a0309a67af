-- ===== src/Clock/Tests.antt =====
-- Tests of the clocked objects and their domains; frequencies are numbers, and 0 stands for -1.
use arch_xplore.Base.{ℕ, List, [], ◌∷◌, Bool, true, false, ◌==◌, ◌≡◌, refl, arith}
use arch_xplore.Clock.{
  ClockedObject, SchedulePhase, unknown_phase, bound_phase, schedule_phase, no_rank, Node, plain,
  clocked, get_rank, get_clock_frequency, get_phase, on_configuring,
}
use arch_xplore.Clock.Inheritance.{on_configuring-inherited}
use arch_xplore.Sys.Domains.{Domains}

-- A system, a core that only sets its rank, and a cache that sets nothing.
abbrev object : SchedulePhase → ℕ → ℕ → Bool → ClockedObject ℕ
object phase rank freq set_by_user = record {
  clock_domain_set = set_by_user;
  phase = phase;
  rank = rank;
  freq = freq;
  is_configured = false;
}

abbrev system : ClockedObject ℕ
system = object schedule_phase 0 1000 true

abbrev core : ClockedObject ℕ
core = object bound_phase 3 0 true

abbrev cache : ClockedObject ℕ
cache = object unknown_phase no_rank 0 false

only_zero : (a : ℕ) → (a == 0) ≡ true → a ≡ 0
only_zero a h = ground arith

abbrev parents_of_core : List (Node ℕ)
parents_of_core = clocked system ∷ []

on_configuring-inherited_example :
    (get_phase
        (λ n. n == 0)
        0
        cache
        (plain ∷ clocked (on_configuring (λ n. n == 0) 0 core parents_of_core) ∷ parents_of_core)
      ≡ get_phase (λ n. n == 0) 0 cache (plain ∷ clocked core ∷ parents_of_core))
    × (get_rank
          (λ n. n == 0)
          0
          cache
          (plain ∷ clocked (on_configuring (λ n. n == 0) 0 core parents_of_core) ∷ parents_of_core)
        ≡ get_rank (λ n. n == 0) 0 cache (plain ∷ clocked core ∷ parents_of_core))
    × (get_clock_frequency
          (λ n. n == 0)
          0
          cache
          (plain ∷ clocked (on_configuring (λ n. n == 0) 0 core parents_of_core) ∷ parents_of_core)
        ≡ get_clock_frequency (λ n. n == 0) 0 cache (plain ∷ clocked core ∷ parents_of_core))
on_configuring-inherited_example =
    on_configuring-inherited (λ n. n == 0) 0 cache core (plain ∷ []) parents_of_core refl only_zero

abbrev no_domains : Domains ℕ ℕ
no_domains = record {
  schedule_phase_domain = record { name = []; domains = [] };
  bound_phase_domains = [];
  weave_phase_domains = [];
}
