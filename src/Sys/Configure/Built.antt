-- ===== src/Sys/Configure/Built.antt =====
-- Every node that is configured gets the clock of the domain that it has in the tree.
use arch_xplore.Base.{
  ℕ, zero, suc, List, [], ◌∷◌, Bool, true, ◌==◌, some, Text, inl, inr, Order, irreflexive, All,
  done, ◌≡◌, sym, ap, subst, arith, Bool-cases,
}
use arch_xplore.Clock.{SchedulePhase}
use arch_xplore.Sys.Domains.{Domains, nodes_of}
use arch_xplore.Sys.Clocks.Laws.{IsIn, IsIn-right, IsBuilt, build_clock_domains-Clocked}
use arch_xplore.Sys.Configure.{
  Tree, is_set, configure_all, phase_at, rank_of, freq_at, phase_code, lands, members,
}
use arch_xplore.Sys.Configure.Lines.{IsTree}
use arch_xplore.Sys.Configure.Adds.{IsTotal}
use arch_xplore.Sys.Configure.Alike.{IsPlaceable}
use arch_xplore.Sys.Configure.Laws.{configure_all_lem}

module _ {F : Type 0} (is_minus_one : F → Bool) (minus_one : F) where
  place_of :
      (t : Tree F) (i : ℕ) (ids : List ℕ)
      → IsIn i ids
      → All (IsPlaceable is_minus_one minus_one t) ids
      → IsPlaceable is_minus_one minus_one t i
  place_of t i [] (k, e) placed = absurd (ground arith)
  place_of t i (j ∷ ids) (zero, e) (place, placed) =
      let same : j ≡ i = ground arith in subst (IsPlaceable is_minus_one minus_one t) same place
  place_of t i (j ∷ ids) (suc k, e) (place, placed) = place_of t i ids (k, e) placed

module _ {F : Type 0} (is_minus_one : F → Bool) (minus_one : F) (ord : Order F) where
  own_domain :
      (t : Tree F) (i : ℕ)
      → is_set (t.node i) ≡ true
      → lands is_minus_one minus_one ord t
          (phase_at is_minus_one minus_one t i)
          (rank_of is_minus_one minus_one t i)
          (freq_at is_minus_one minus_one t i)
          i
        ≡ true
  own_domain t i set =
      let not_less = irreflexive ord (freq_at is_minus_one minus_one t i) in
      let p : (phase_code (phase_at is_minus_one minus_one t i)
            == phase_code (phase_at is_minus_one minus_one t i))
          ≡ true =
        ground arith in
      let r : (rank_of is_minus_one minus_one t i == rank_of is_minus_one minus_one t i) ≡ true =
        ground arith in
      rw (set, p, r, not_less)

  IsIn-members :
      (t : Tree F) (i : ℕ) (ids : List ℕ) (phase : SchedulePhase) (rank : ℕ) (freq : F)
      → lands is_minus_one minus_one ord t phase rank freq i ≡ true
      → IsIn i ids
      → IsIn i (members is_minus_one minus_one ord t phase rank freq ids)
  unfolding members
  IsIn-members t i [] phase rank freq l (k, e) = absurd (ground arith)
  IsIn-members t i (j ∷ ids) phase rank freq l (zero, e) =
      let same : j ≡ i = ground arith in
      let here : lands is_minus_one minus_one ord t phase rank freq j ≡ true =
        subst (λ k. lands is_minus_one minus_one ord t phase rank freq k ≡ true) (sym same) l in
      (0, rw here (ap some same))
  IsIn-members t i (j ∷ ids) phase rank freq l (suc k, e) =
      let (m, f) = IsIn-members t i ids phase rank freq l (k, e) in
      elim (Bool-cases (lands is_minus_one minus_one ord t phase rank freq j)) [
        | inl here ↦ (suc m, rw here f)
        | inr away ↦ (m, rw away f)
      ]

  module _ {C : Type 0} (make_root : Text → C) (make_clock : Text → C → F → C) (to_mhz : F → ℕ)
      (system_freq : F) where
    -- When the nodes of a tree have been configured, in any order and from any domains, and the domains
    -- are built, each of these nodes that sets a domain is given a clock: the clock of a domain of the
    -- phase and the rank that the node had or inherited before, whose frequency is the one that it had
    -- or inherited, made from the clock of the rank. The conditions are those of `configure_all`: a
    -- node that sets a domain has a phase with domains, and rank 0 in the schedule phase; the parents
    -- of a node are the next of them with its parents; -1 is the only frequency that is tested to be
    -- -1; and two frequencies of which neither is less are equal.
    pub configure_all-IsBuilt :
        (i : ℕ) (ids : List ℕ) (t : Tree F) (d : Domains F ℕ)
        → is_minus_one minus_one ≡ true
        → ((a : F) → is_minus_one a ≡ true → a ≡ minus_one)
        → IsTotal ord
        → IsTree t
        → All (IsPlaceable is_minus_one minus_one t) ids
        → is_set (t.node i) ≡ true
        → IsIn i ids
        → (t' : Tree F) × (d' : Domains F ℕ) × (configure_all is_minus_one minus_one ord ids (t, d)
            ≡ done (t', d'))
          × IsBuilt ord make_root make_clock to_mhz system_freq
              (phase_at is_minus_one minus_one t i)
              (rank_of is_minus_one minus_one t i)
              (freq_at is_minus_one minus_one t i)
              i
              d'
    configure_all-IsBuilt i ids t d u only total tree placed set here =
        let phase = phase_at is_minus_one minus_one t i in
        let rank = rank_of is_minus_one minus_one t i in
        let freq = freq_at is_minus_one minus_one t i in
        let place = place_of is_minus_one minus_one t i ids here placed in
        let (t', d', returned, alike, all) =
          configure_all_lem is_minus_one minus_one ord u only total ids t d phase rank freq tree
            placed (place.ranked set) in
        let in_domain : IsIn i (nodes_of ord d' phase rank freq) = subst (IsIn i) (sym all) (
          IsIn-right i (nodes_of ord d phase rank freq)
            (members is_minus_one minus_one ord t phase rank freq ids)
            (IsIn-members t i ids phase rank freq (own_domain t i set) here)) in
        (
          t',
          d',
          returned,
          build_clock_domains-Clocked ord make_root make_clock to_mhz system_freq phase rank freq i
              d' in_domain,
        )
