-- ===== src/Sys/Domains/Laws.antt =====
-- Registering a node adds it to its domain, and to no other.
use arch_xplore.Base.{
  ℕ, [], ◌∷◌, ◌++◌, Text, Order, native_order, IsApart, codes, find, update, or_fresh, find-update,
  find-update_ne, done, ◌≡◌, ◌≢◌, ◌⊎◌, inl, inr, refl, ap, ◌∙◌, sym, arith, ℕ_discrete,
}
use arch_xplore.Clock.{
  SchedulePhase, unknown_phase, schedule_phase, bound_phase, weave_phase, num_phases,
}
use arch_xplore.Sys.Domains.{
  RankDomain, PhaseDomain, Domains, fresh_rank, add_node, register_in, register_clock_domain,
  nodes_in, nodes_at, nodes_of,
}

-- The phases that have domains.
abbrev pub HasDomains : SchedulePhase → Type 0
HasDomains schedule_phase = Unit
HasDomains bound_phase = Unit
HasDomains weave_phase = Unit
HasDomains _ = ⊥

native-IsApart : (a b : ℕ) → a ≢ b → IsApart native_order a b
native-IsApart a b h = ground arith

module _ {F N : Type 0} (o : Order F) where
  nodes_in-add_node :
      (node : N) (freq : F) (name : Text) (r : RankDomain F N)
      → nodes_in o freq (add_node o node freq name r) ≡ nodes_in o freq r ++ node ∷ []
  unfolding add_node
  nodes_in-add_node node freq name r =
      ap (or_fresh o []) (find-update o freq [] (λ nodes. nodes ++ node ∷ []) r.domains)

  nodes_in-add_node_ne :
      (node : N) (freq g : F) (name : Text) (r : RankDomain F N)
      → IsApart o g freq
      → nodes_in o g (add_node o node freq name r) ≡ nodes_in o g r
  unfolding add_node
  nodes_in-add_node_ne node freq g name r h =
      ap (or_fresh o []) (find-update_ne o g freq [] (λ nodes. nodes ++ node ∷ []) r.domains h)

  nodes_at-update :
      (node : N) (rank : ℕ) (freq : F) (name : Text) (m : PhaseDomain F N)
      → nodes_at o (update native_order rank fresh_rank (add_node o node freq name) m) rank freq
        ≡ nodes_at o m rank freq ++ node ∷ []
  nodes_at-update node rank freq name m =
      ap (λ r. nodes_in o freq (or_fresh native_order fresh_rank r))
        (find-update native_order rank fresh_rank (add_node o node freq name) m)
      ∙ nodes_in-add_node node freq name
          (or_fresh native_order fresh_rank (find native_order rank m))

  nodes_at-update_ne :
      (node : N) (rank rank' : ℕ) (freq g : F) (name : Text) (m : PhaseDomain F N)
      → (rank' ≢ rank) ⊎ IsApart o g freq
      → nodes_at o (update native_order rank fresh_rank (add_node o node freq name) m) rank' g
        ≡ nodes_at o m rank' g
  nodes_at-update_ne node rank rank' freq g name m h = elim (ℕ_discrete rank' rank) [
    | no other ↦
        ap (λ r. nodes_in o g (or_fresh native_order fresh_rank r))
          (find-update_ne native_order rank' rank fresh_rank (add_node o node freq name) m
            (native-IsApart rank' rank other))
    | yes same ↦ elim h [
      | inl other ↦ absurd (other same)
      | inr apart ↦
          ap
            (λ k.
              nodes_at o (update native_order rank fresh_rank (add_node o node freq name) m) k g)
            same
          ∙ ap (λ r. nodes_in o g (or_fresh native_order fresh_rank r))
              (find-update native_order rank fresh_rank (add_node o node freq name) m)
          ∙ nodes_in-add_node_ne node freq g name
              (or_fresh native_order fresh_rank (find native_order rank m)) apart
          ∙ ap (λ k. nodes_at o m k g) (sym same)
    ]
  ]

  -- What registering changes of the nodes of one phase.
  pub record Registers (node : N) (phase : SchedulePhase) (rank : ℕ) (freq : F) (d d' : Domains F N)
      : Type 0 where
    -- The node stands at the end of its domain.
    pub added : nodes_of o d' phase rank freq ≡ nodes_of o d phase rank freq ++ node ∷ []
    -- Another frequency of the phase and rank has the nodes that it had.
    pub other_freq :
        (g : F) → IsApart o g freq → nodes_of o d' phase rank g ≡ nodes_of o d phase rank g
    -- Another rank of a phase that has ranks has them too.
    pub other_rank :
        (k : ℕ) (g : F)
        → phase ≢ schedule_phase
        → k ≢ rank
        → nodes_of o d' phase k g ≡ nodes_of o d phase k g
    -- And so has every other phase.
    pub other_phase :
        (s : SchedulePhase) (k : ℕ) (g : F) → s ≢ phase → nodes_of o d' s k g ≡ nodes_of o d s k g

  not_schedule :
      (r : RankDomain F N) (d : Domains F N) (s : SchedulePhase) (k : ℕ) (g : F)
      → s ≢ schedule_phase
      → nodes_of o (record d { schedule_phase_domain = r }) s k g ≡ nodes_of o d s k g
  unfolding nodes_of
  not_schedule r d schedule_phase k g n = absurd (n refl)
  not_schedule r d bound_phase k g n = refl
  not_schedule r d weave_phase k g n = refl
  not_schedule r d unknown_phase k g n = refl
  not_schedule r d num_phases k g n = refl

  not_bound :
      (r : PhaseDomain F N) (d : Domains F N) (s : SchedulePhase) (k : ℕ) (g : F)
      → s ≢ bound_phase
      → nodes_of o (record d { bound_phase_domains = r }) s k g ≡ nodes_of o d s k g
  unfolding nodes_of
  not_bound r d schedule_phase k g n = refl
  not_bound r d bound_phase k g n = absurd (n refl)
  not_bound r d weave_phase k g n = refl
  not_bound r d unknown_phase k g n = refl
  not_bound r d num_phases k g n = refl

  not_weave :
      (r : PhaseDomain F N) (d : Domains F N) (s : SchedulePhase) (k : ℕ) (g : F)
      → s ≢ weave_phase
      → nodes_of o (record d { weave_phase_domains = r }) s k g ≡ nodes_of o d s k g
  unfolding nodes_of
  not_weave r d schedule_phase k g n = refl
  not_weave r d bound_phase k g n = refl
  not_weave r d weave_phase k g n = absurd (n refl)
  not_weave r d unknown_phase k g n = refl
  not_weave r d num_phases k g n = refl

  register_in_lem :
      (phase : SchedulePhase) (node : N) (rank : ℕ) (freq : F) (d : Domains F N)
      → HasDomains phase
      → (d' : Domains F N) × (register_in o phase node rank freq d ≡ done d')
        × Registers node phase rank freq d d'
  unfolding register_in nodes_of
  register_in_lem unknown_phase node rank freq d h = absurd h
  register_in_lem num_phases node rank freq d h = absurd h
  register_in_lem schedule_phase node rank freq d h = (
    _,
    refl,
    record {
      added = nodes_in-add_node node freq _ d.schedule_phase_domain;
      other_freq = λ g a. nodes_in-add_node_ne node freq g _ d.schedule_phase_domain a;
      other_rank = λ k g n. absurd (n refl);
      other_phase =
          not_schedule (add_node o node freq (codes "SchedulePhase_Rank") d.schedule_phase_domain)
            d;
    },
  )
  register_in_lem bound_phase node rank freq d h = (
    _,
    refl,
    record {
      added = nodes_at-update node rank freq _ d.bound_phase_domains;
      other_freq = λ g a. nodes_at-update_ne node rank rank freq g _ d.bound_phase_domains (inr a);
      other_rank = λ k g _ n. nodes_at-update_ne node rank k freq g _ d.bound_phase_domains (inl n);
      other_phase = not_bound _ d;
    },
  )
  register_in_lem weave_phase node rank freq d h = (
    _,
    refl,
    record {
      added = nodes_at-update node rank freq _ d.weave_phase_domains;
      other_freq = λ g a. nodes_at-update_ne node rank rank freq g _ d.weave_phase_domains (inr a);
      other_rank = λ k g _ n. nodes_at-update_ne node rank k freq g _ d.weave_phase_domains (inl n);
      other_phase = not_weave _ d;
    },
  )

  -- Registering a node for a phase that has domains, at rank 0 if it is the schedule phase, returns;
  -- the node stands at the end of its domain, and every other domain has the nodes that it had.
  pub register_clock_domain_lem :
      (node : N) (phase : SchedulePhase) (rank : ℕ) (freq : F) (d : Domains F N)
      → HasDomains phase
      → (phase ≡ schedule_phase → rank ≡ 0)
      → (d' : Domains F N) × (register_clock_domain o node phase rank freq d ≡ done d')
        × Registers node phase rank freq d d'
  unfolding register_clock_domain
  register_clock_domain_lem node schedule_phase rank freq d h zero_rank =
      let (d', returned, r) = register_in_lem schedule_phase node rank freq d h in
      let z = zero_rank refl in (d', ground arith, r)
  register_clock_domain_lem node bound_phase rank freq d h zero_rank =
      register_in_lem bound_phase node rank freq d h
  register_clock_domain_lem node weave_phase rank freq d h zero_rank =
      register_in_lem weave_phase node rank freq d h
  register_clock_domain_lem node unknown_phase rank freq d h zero_rank = absurd h
  register_clock_domain_lem node num_phases rank freq d h zero_rank = absurd h
