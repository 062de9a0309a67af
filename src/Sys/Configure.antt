-- ===== src/Sys/Configure.antt =====
-- Configuring the tree: `onConfiguring_` of src/ClockedObject.cpp for the objects of a tree, each of
-- which is known by a number, with its registration by `registerClockDomain`; and the constructor of
-- src/system/AbstractSystem.cpp. Sparta calls `onConfiguring_` once for each object, in an order of
-- its own, so that the order is a list here.
pub mod Lines
pub mod Adds
pub mod Alike
pub mod Laws
pub mod Built
mod Tests
use arch_xplore.Base.{
  ℕ, List, [], ◌∷◌, ◌++◌, Bool, true, false, ◌&&◌, ◌||◌, not, ◌==◌, if◌then◌else◌, none, Order, map,
  Outcome, done, ◌>>=◌,
}
use arch_xplore.Clock.{
  SchedulePhase, unknown_phase, schedule_phase, bound_phase, weave_phase, num_phases, ClockedObject,
  no_rank, is_unknown, Node, plain, clocked, from_parents, set_clock_domain, on_configuring,
}
use arch_xplore.Sys.Domains.{Domains, fresh_rank, register_clock_domain}
use arch_xplore.Sys.Run.{Runner}

-- The nodes of a tree, and the parents of each, the nearest first.
pub record Tree (F : Type 0) : Type 0 where
  pub node : ℕ → Node F
  pub parents : ℕ → List ℕ

module _ {F : Type 0} where
  abbrev pub set_node : ℕ → ClockedObject F → Tree F → Tree F
  set_node i o t = record t { node = λ j. if j == i then clocked o else t.node j }

  -- The nodes of a list of numbers.
  abbrev pub nodes : Tree F → List ℕ → List (Node F)
  nodes t ks = map t.node ks

  abbrev pub is_set : Node F → Bool
  is_set plain = false
  is_set (clocked o) = o.clock_domain_set

module _ {F : Type 0} (is_minus_one : F → Bool) (minus_one : F) (ord : Order F) where
  -- `onConfiguring_` of a node, where it is a clocked object.
  unfoldable pub configure_node : Node F → ℕ → Tree F × Domains F ℕ → Outcome (Tree F × Domains F ℕ)
  configure_node plain i (t, d) = done (t, d)
  configure_node (clocked o) i (t, d) =
      let o' = on_configuring is_minus_one minus_one o (nodes t (t.parents i)) in
      (do
        d' ←
            (if o.clock_domain_set
              then register_clock_domain ord i o'.phase o'.rank o'.freq d
              else done d)
        done (set_node i o' t, d'))

  unfoldable pub configure : ℕ → Tree F × Domains F ℕ → Outcome (Tree F × Domains F ℕ)
  configure i s = configure_node (s.0.node i) i s

  unfoldable pub configure_all : List ℕ → Tree F × Domains F ℕ → Outcome (Tree F × Domains F ℕ)
  configure_all [] s = done s
  configure_all (i ∷ ids) s = do s' ← configure i s; configure_all ids s'

-- A clocked object before anything is set; `minus_one` is the frequency -1.
abbrev pub new_object : {F : Type 0} → F → ClockedObject F
new_object minus_one = record {
  clock_domain_set = false;
  phase = unknown_phase;
  rank = no_rank;
  freq = minus_one;
  is_configured = false;
}

-- The constructor of the system: its clocked object, the frequency for all clocks, and what is run.
-- `interval_of` is the conversion of 1000 * freq to 64 bits; `main` is the scheduler of sparta.
unfoldable pub construct :
    {F S M X : Type 0} → F → (F → ℕ) → F → M → X → ClockedObject F × F × Runner S M X
construct minus_one interval_of freq main system = (
  set_clock_domain schedule_phase 0 freq (new_object minus_one),
  freq,
  record {
    max_threads = 0;
    bound_weave_enabled = false;
    bound_weave_interval = interval_of freq;
    bound_phase = [];
    weave_phase = [];
    main_scheduler = main;
    thread_pool = none;
    finalized = false;
    system = system;
  },
)

-- The default constructor; `of_mhz` is the conversion to a frequency.
unfoldable pub construct_default :
    {F S M X : Type 0} → F → (ℕ → F) → (F → ℕ) → M → X → ClockedObject F × F × Runner S M X
construct_default minus_one of_mhz interval_of main system =
    construct minus_one interval_of (of_mhz 1000) main system

-- What a node has or inherits.
module _ {F : Type 0} (is_minus_one : F → Bool) (minus_one : F) (t : Tree F) (i : ℕ) where
  abbrev pub phase_at : SchedulePhase
  phase_at = from_parents (λ o. o.phase) is_unknown unknown_phase (nodes t (i ∷ t.parents i))

  abbrev pub rank_of : ℕ
  rank_of = from_parents (λ o. o.rank) (λ r. r == no_rank) no_rank (nodes t (i ∷ t.parents i))

  abbrev pub freq_at : F
  freq_at = from_parents (λ o. o.freq) is_minus_one minus_one (nodes t (i ∷ t.parents i))

abbrev pub phase_code : SchedulePhase → ℕ
phase_code unknown_phase = 0
phase_code schedule_phase = 1
phase_code bound_phase = 2
phase_code weave_phase = 3
phase_code num_phases = 4

abbrev pub same_domain :
    {F : Type 0} → Order F → SchedulePhase → ℕ → F → SchedulePhase → ℕ → F → Bool
same_domain ord phase rank freq p r f =
    phase_code phase == phase_code p && rank == r && not (ord.less freq f) && not (ord.less f freq)

module _ {F : Type 0} (is_minus_one : F → Bool) (minus_one : F) (ord : Order F) where
  abbrev pub lands : Tree F → SchedulePhase → ℕ → F → ℕ → Bool
  lands t phase rank freq i =
      is_set (t.node i)
      && same_domain ord phase rank freq (phase_at is_minus_one minus_one t i)
          (rank_of is_minus_one minus_one t i) (freq_at is_minus_one minus_one t i)

  -- The nodes of a list that set a domain and whose domain is the given one, in the order of the list.
  unfoldable pub members : Tree F → SchedulePhase → ℕ → F → List ℕ → List ℕ
  members t phase rank freq [] = []
  members t phase rank freq (i ∷ ids) =
      let others = members t phase rank freq ids in
      if lands t phase rank freq i then i ∷ others else others
