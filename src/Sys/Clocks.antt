-- ===== src/Sys/Clocks.antt =====
-- `buildRank` and `buildClockDomains` of src/system/AbstractSystem.cpp. `C` is the type of the clocks
-- of sparta, which are made by the two functions that are given; a clock that a node is given is a
-- pair in a list.
pub mod Laws
use arch_xplore.Base.{ℕ, List, [], ◌∷◌, ◌++◌, Bool, ◌||◌, Text, codes, to_string, length, map, ltb}
use arch_xplore.Sys.Domains.{RankDomain, PhaseDomain, Domains}

pub record BuiltRank (F N C : Type 0) : Type 0 where
  pub scheduler_name : Text
  pub clock : C
  pub domain_clocks : List (F × C)
  pub node_clocks : List (N × C)

pub record BuiltDomains (F N C : Type 0) : Type 0 where
  pub schedule_phase : BuiltRank F N C
  pub bound_phase : List (ℕ × BuiltRank F N C)
  pub weave_phase : List (ℕ × BuiltRank F N C)
  pub bound_weave_enabled : Bool

-- `to_mhz` is the conversion of a frequency to an unsigned number of 64 bits.
module _ {F C : Type 0} (make_clock : Text → C → F → C) (to_mhz : F → ℕ) where
  abbrev pub domain_clock : C → F → C
  domain_clock clock freq =
      make_clock (codes "clock_domain_" ++ (to_string (to_mhz freq) ++ codes "Mhz")) clock freq

module _ {F N C : Type 0} (make_root : Text → C) (make_clock : Text → C → F → C) (to_mhz : F → ℕ)
    (system_freq : F) where
  -- The loop over the domains of a rank: their clocks, and those of their nodes.
  unfoldable pub build_domains : C → List (F × List N) → List (F × C) × List (N × C)
  build_domains clock [] = ([], [])
  build_domains clock ((freq, nodes) ∷ domains) =
      let c = domain_clock make_clock to_mhz clock freq in
      let (clocks, given) = build_domains clock domains in
      ((freq, c) ∷ clocks, map (λ n. (n, c)) nodes ++ given)

  unfoldable pub build_rank : RankDomain F N → BuiltRank F N C
  build_rank r =
      let root = make_root (r.name ++ codes "RootClock") in
      let clock = make_clock (r.name ++ codes "_clock") root system_freq in
      let (clocks, given) = build_domains clock r.domains in
      record {
        scheduler_name = codes "Scheduler" ++ r.name;
        clock = clock;
        domain_clocks = clocks;
        node_clocks = given;
      }

  abbrev pub build_phase : PhaseDomain F N → List (ℕ × BuiltRank F N C)
  build_phase ranks = map (λ r. (r.0, build_rank r.1)) ranks

  unfoldable pub build_clock_domains : Domains F N → BuiltDomains F N C
  build_clock_domains d = record {
    schedule_phase = build_rank d.schedule_phase_domain;
    bound_phase = build_phase d.bound_phase_domains;
    weave_phase = build_phase d.weave_phase_domains;
    bound_weave_enabled =
        ltb 0 (length d.bound_phase_domains) || ltb 0 (length d.weave_phase_domains);
  }
