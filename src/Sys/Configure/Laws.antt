-- ===== src/Sys/Configure/Laws.antt =====
-- Configuring registers every node that sets a domain, in the domain that it has in the tree.
use arch_xplore.Base.{
  ℕ, List, [], ◌∷◌, ◌++◌, Bool, true, if◌then◌else◌, Order, All, Outcome, done, ◌>>=◌, append_assoc,
  append-nil, ◌≡◌, inl, inr, refl, sym, ap, ◌∙◌, subst, Bool-cases,
}
use arch_xplore.Clock.{
  SchedulePhase, ClockedObject, Node, plain, clocked, from_parents, inherited, get_phase, get_rank,
  get_clock_frequency, on_configuring,
}
use arch_xplore.Sys.Domains.{Domains, register_clock_domain, nodes_of}
use arch_xplore.Sys.Domains.Laws.{register_clock_domain_lem}
use arch_xplore.Sys.Configure.{
  Tree, set_node, nodes, is_set, configure_node, configure, configure_all, phase_at, rank_of,
  freq_at, members,
}
use arch_xplore.Sys.Configure.Lines.{IsLine, IsTree, IsAlike, set_node-IsAlike}
use arch_xplore.Sys.Configure.Adds.{IsRanked, IsTotal, adds}
use arch_xplore.Sys.Configure.Alike.{
  IsPlaceable, members_alike, unchanged, IsAlike-trans, All-alike, members-cons,
}

module _ {F : Type 0} (is_minus_one : F → Bool) (minus_one : F) (ord : Order F) where
  -- A node that sets a domain stores the one that it has.
  configured_domain :
      (o : ClockedObject F) (i : ℕ) (t : Tree F)
      → t.node i ≡ clocked o
      → o.clock_domain_set ≡ true
      → let o' = on_configuring is_minus_one minus_one o (nodes t (t.parents i)) in
        (o'.phase ≡ phase_at is_minus_one minus_one t i)
        × (o'.rank ≡ rank_of is_minus_one minus_one t i)
        × (o'.freq ≡ freq_at is_minus_one minus_one t i)
  unfolding on_configuring get_phase get_rank get_clock_frequency inherited from_parents
  configured_domain o i t here set = (rw (set, here), rw (set, here), rw (set, here))

  -- What configuring nodes does: the tree is alike, and a domain has those that land in it.
  abbrev Configures :
      List ℕ
      → Tree F
      → Domains F ℕ
      → SchedulePhase
      → ℕ
      → F
      → Outcome (Tree F × Domains F ℕ)
      → Type 0
  Configures ids t d phase rank freq outcome =
      (t' : Tree F) × (d' : Domains F ℕ) × (outcome ≡ done (t', d'))
      × IsAlike is_minus_one minus_one t t'
      × (nodes_of ord d' phase rank freq
          ≡ nodes_of ord d phase rank freq
            ++ members is_minus_one minus_one ord t phase rank freq ids)

  module _ (u : is_minus_one minus_one ≡ true)
      (only : (a : F) → is_minus_one a ≡ true → a ≡ minus_one) (total : IsTotal ord) where
    configure_node-Configures :
        (n : Node F) (i : ℕ) (t : Tree F) (d : Domains F ℕ) (phase : SchedulePhase) (rank : ℕ)
        (freq : F)
        → t.node i ≡ n
        → IsTree t
        → IsPlaceable is_minus_one minus_one t i
        → IsRanked phase rank
        → Configures
            (i ∷ [])
            t
            d
            phase
            rank
            freq
            (configure_node is_minus_one minus_one ord n i (t, d))
    unfolding configure_node members
    configure_node-Configures plain i t d phase rank freq here tree place ranked =
        (t, d, refl, unchanged is_minus_one minus_one t, rw here (sym (append-nil _)))
    configure_node-Configures (clocked o) i t d phase rank freq here tree place ranked =
        elim (Bool-cases o.clock_domain_set) [
          | inr unset ↦ (
            set_node i (on_configuring is_minus_one minus_one o (nodes t (t.parents i))) t,
            d,
            rw unset,
            set_node-IsAlike is_minus_one minus_one t i o u only tree here,
            rw (here, unset) (sym (append-nil _)),
          )
          | inl set ↦
              let (e1, e2, e3) = configured_domain o i t here set in
              let o' = on_configuring is_minus_one minus_one o (nodes t (t.parents i)) in
              let finish : Outcome (Domains F ℕ) → Outcome (Tree F × Domains F ℕ) =
                λ m. m >>= (λ d'. done (set_node i o' t, d')) in
              let go : Bool → SchedulePhase → ℕ → F → Outcome (Tree F × Domains F ℕ) =
                λ b p r f. finish (if b then register_clock_domain ord i p r f d else done d) in
              let is : is_set (t.node i) ≡ true = rw here set in
              let (d', returned, reg) =
                register_clock_domain_lem ord i (phase_at is_minus_one minus_one t i)
                  (rank_of is_minus_one minus_one t i) (freq_at is_minus_one minus_one t i) d
                  (place.has is) (place.ranked is) in
              (
                set_node i (on_configuring is_minus_one minus_one o (nodes t (t.parents i))) t,
                d',
                ap (λ b. go b o'.phase o'.rank o'.freq) set
                    ∙ ap (λ p. go true p o'.rank o'.freq) e1
                    ∙ ap (λ r. go true (phase_at is_minus_one minus_one t i) r o'.freq) e2
                    ∙ ap
                        (go true (phase_at is_minus_one minus_one t i)
                          (rank_of is_minus_one minus_one t i))
                        e3
                    ∙ ap finish returned,
                set_node-IsAlike is_minus_one minus_one t i o u only tree here,
                rw is (
                    adds ord i (phase_at is_minus_one minus_one t i) phase
                      (rank_of is_minus_one minus_one t i) rank (freq_at is_minus_one minus_one t i)
                      freq d d' total (place.ranked is) ranked reg),
              )
        ]

    -- Configuring nodes of a tree in any order returns, if each that sets a domain has a phase with
    -- domains, and rank 0 in the schedule phase. No node of the tree has another phase, rank or
    -- frequency than before. A domain, of rank 0 if of the schedule phase, has the nodes that it had,
    -- and behind them those that set a domain and have, in the tree as it was before, its phase, its
    -- rank and its frequency, in the order in which they were configured. A tree is one in which the
    -- parents of a node are the next of them with its parents; -1 is the only frequency that is tested
    -- to be -1; and two frequencies of which neither is less are equal.
    pub configure_all_lem :
        (ids : List ℕ) (t : Tree F) (d : Domains F ℕ) (phase : SchedulePhase) (rank : ℕ) (freq : F)
        → IsTree t
        → All (IsPlaceable is_minus_one minus_one t) ids
        → IsRanked phase rank
        → Configures ids t d phase rank freq (configure_all is_minus_one minus_one ord ids (t, d))
    unfolding configure_all members configure
    configure_all_lem [] t d phase rank freq tree placed ranked =
        (t, d, refl, unchanged is_minus_one minus_one t, sym (append-nil _))
    configure_all_lem (i ∷ ids) t d phase rank freq tree (place, placed) ranked =
        let (t', d', returned, alike, first) =
          configure_node-Configures (t.node i) i t d phase rank freq refl tree place ranked in
        let tree' : IsTree t' = subst (λ up. (i : ℕ) → IsLine up (up i)) (sym alike.parents) tree in
        let (t'', d'', after, alike', others) =
          configure_all_lem ids t' d' phase rank freq tree'
            (All-alike is_minus_one minus_one ids t t' alike placed) ranked in
        (
          t'',
          d'',
          ap (λ m. m >>= configure_all is_minus_one minus_one ord ids) returned ∙ after,
          IsAlike-trans is_minus_one minus_one t t' t'' alike alike',
          others
              ∙ ap (◌++◌ _)
                  (members_alike is_minus_one minus_one ord t t' phase rank freq ids alike)
              ∙ ap (λ ns. ns ++ members is_minus_one minus_one ord t phase rank freq ids) first
              ∙ append_assoc (nodes_of ord d phase rank freq)
                  (members is_minus_one minus_one ord t phase rank freq (i ∷ []))
                  (members is_minus_one minus_one ord t phase rank freq ids)
              ∙ ap (◌++◌ (nodes_of ord d phase rank freq))
                  (members-cons is_minus_one minus_one ord i ids t phase rank freq),
        )
