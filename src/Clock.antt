-- ===== src/Clock.antt =====
-- include/ClockedObject.hpp and src/ClockedObject.cpp: objects of the tree with a clock domain. A
-- value that is not set is inherited from the nearest parent that is a clocked object. The tree and
-- `isConfigured` are those of sparta: an object is given with its parents, the nearest first.
pub mod Inheritance
mod Tests
use arch_xplore.Base.{ℕ, ◌-◌, ◌^◌, List, [], ◌∷◌, Bool, true, false, ◌||◌, not, ◌==◌, if◌then◌else◌}

pub data SchedulePhase : Type 0 where
  unknown_phase schedule_phase bound_phase weave_phase num_phases : SchedulePhase

-- `m_rank` has 32 bits; -1 is the greatest.
abbrev pub no_rank : ℕ
no_rank = 2 ^ 32 - 1

abbrev pub is_unknown : SchedulePhase → Bool
is_unknown unknown_phase = true
is_unknown _ = false

-- `F` is the type of frequencies.
pub record ClockedObject (F : Type 0) : Type 0 where
  pub clock_domain_set : Bool
  pub phase : SchedulePhase
  pub rank : ℕ
  pub freq : F
  pub is_configured : Bool

pub data Node (F : Type 0) : Type 0 where
  plain : Node F
  clocked : ClockedObject F → Node F

module _ {F : Type 0} where
  unfoldable pub set_clock_domain : SchedulePhase → ℕ → F → ClockedObject F → ClockedObject F
  set_clock_domain phase rank freq o = record o {
    clock_domain_set = true;
    phase = phase;
    rank = rank;
    freq = freq;
  }

  unfoldable pub set_frequency : F → ClockedObject F → ClockedObject F
  set_frequency freq o = set_clock_domain o.phase o.rank freq o

  unfoldable pub set_rank : ℕ → ClockedObject F → ClockedObject F
  set_rank rank o = set_clock_domain o.phase rank o.freq o

  unfoldable pub set_phase : SchedulePhase → ClockedObject F → ClockedObject F
  set_phase phase o = set_clock_domain phase o.rank o.freq o

  unfoldable pub to_bound_phase : ClockedObject F → ClockedObject F
  to_bound_phase o = set_phase bound_phase o

  unfoldable pub to_weave_phase : ClockedObject F → ClockedObject F
  to_weave_phase o = set_phase weave_phase o

-- The three getters are one function here, of what they read, when it counts as not set, and what
-- they return where nothing is set.
module _ {F A : Type 0} (read : ClockedObject F → A) (is_unset : A → Bool) (unset : A) where
  -- The loop over the parents, with the call of the getter on the first that is a clocked object.
  unfoldable pub from_parents : List (Node F) → A
  from_parents [] = unset
  from_parents (plain ∷ parents) = from_parents parents
  from_parents (clocked p ∷ parents) =
      if p.is_configured || not (is_unset (read p)) then read p else from_parents parents

  unfoldable pub inherited : ClockedObject F → List (Node F) → A
  inherited o parents =
      if o.is_configured || not (is_unset (read o)) then read o else from_parents parents

-- `is_minus_one` tests whether a frequency is -1.
module _ {F : Type 0} (is_minus_one : F → Bool) (minus_one : F) where
  unfoldable pub get_rank : ClockedObject F → List (Node F) → ℕ
  get_rank = inherited (λ o. o.rank) (λ r. r == no_rank) no_rank

  unfoldable pub get_clock_frequency : ClockedObject F → List (Node F) → F
  get_clock_frequency = inherited (λ o. o.freq) is_minus_one minus_one

  unfoldable pub get_phase : ClockedObject F → List (Node F) → SchedulePhase
  get_phase = inherited (λ o. o.phase) is_unknown unknown_phase

  -- The part of `onConfiguring_` that is about the object.
  unfoldable pub on_configuring : ClockedObject F → List (Node F) → ClockedObject F
  on_configuring o parents =
      if o.clock_domain_set
      then record o {
        phase = get_phase o parents;
        freq = get_clock_frequency o parents;
        rank = get_rank o parents;
      }
      else o

-- `onBindTreeEarly_`: the user's `buildTopology`, which may change the tree.
unfoldable pub on_bind_tree_early : {T : Type 0} → (T → T) → T → T
on_bind_tree_early build_topology tree = build_topology tree
