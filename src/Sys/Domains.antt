-- ===== src/Sys/Domains.antt =====
-- Clock domains: `registerClockDomain` of src/system/AbstractSystem.cpp. `F` is the type of
-- frequencies with their order, `N` that of the nodes of the tree. The clocks and schedulers of a
-- domain, which are made later, are left out.
pub mod Laws
use arch_xplore.Base.{
  ℕ, List, [], ◌∷◌, ◌++◌, Bool, true, false, ◌&&◌, not, ◌==◌, Option, none, some, Text, codes,
  to_string, Order, native_order, find, update, or_fresh, Outcome, done, throws, assertion, thrown,
  check, ◌>>=◌, ◌>>◌,
}
use arch_xplore.Clock.{
  SchedulePhase, unknown_phase, schedule_phase, bound_phase, weave_phase, num_phases,
}

pub record RankDomain (F N : Type 0) : Type 0 where
  pub name : Text
  pub domains : List (F × List N)

abbrev pub PhaseDomain : Type 0 → Type 0 → Type 0
PhaseDomain F N = List (ℕ × RankDomain F N)

pub record Domains (F N : Type 0) : Type 0 where
  pub schedule_phase_domain : RankDomain F N
  pub bound_phase_domains : PhaseDomain F N
  pub weave_phase_domains : PhaseDomain F N

abbrev pub is_schedule : SchedulePhase → Bool
is_schedule schedule_phase = true
is_schedule _ = false

module _ {F N : Type 0} where
  abbrev pub fresh_rank : RankDomain F N
  fresh_rank = record { name = []; domains = [] }

module _ {F N : Type 0} (o : Order F) where
  unfoldable pub add_node : N → F → Text → RankDomain F N → RankDomain F N
  add_node node freq name r = record {
    name = name;
    domains = update o freq [] (λ nodes. nodes ++ node ∷ []) r.domains;
  }

  -- The cases of the switch.
  unfoldable pub register_in : SchedulePhase → N → ℕ → F → Domains F N → Outcome (Domains F N)
  register_in schedule_phase node rank freq d = done (record d {
    schedule_phase_domain = add_node node freq (codes "SchedulePhase_Rank") d.schedule_phase_domain;
  })
  register_in bound_phase node rank freq d = done (record d {
    bound_phase_domains =
        update native_order rank fresh_rank
          (add_node node freq (codes "BoundPhase_Rank" ++ to_string rank)) d.bound_phase_domains;
  })
  register_in weave_phase node rank freq d = done (record d {
    weave_phase_domains =
        update native_order rank fresh_rank
          (add_node node freq (codes "WeavePhase_Rank" ++ to_string rank)) d.weave_phase_domains;
  })
  register_in _ node rank freq d = throws thrown

  unfoldable pub register_clock_domain :
      N → SchedulePhase → ℕ → F → Domains F N → Outcome (Domains F N)
  register_clock_domain node phase rank freq d = do
    check (not (is_schedule phase && not (rank == 0))) assertion
    register_in phase node rank freq d

  -- The nodes of a domain, none if there is no such domain.
  abbrev pub nodes_in : F → RankDomain F N → List N
  nodes_in freq r = or_fresh o [] (find o freq r.domains)

  abbrev pub nodes_at : PhaseDomain F N → ℕ → F → List N
  nodes_at m rank freq = nodes_in freq (or_fresh native_order fresh_rank (find native_order rank m))

  -- What a system without clocks shows of its domains: the nodes by phase, rank and frequency.
  unfoldable pub nodes_of : Domains F N → SchedulePhase → ℕ → F → List N
  nodes_of d schedule_phase rank freq = nodes_in freq d.schedule_phase_domain
  nodes_of d bound_phase rank freq = nodes_at d.bound_phase_domains rank freq
  nodes_of d weave_phase rank freq = nodes_at d.weave_phase_domains rank freq
  nodes_of d _ rank freq = []
