-- ===== src/Sys/Clocks/Laws.antt =====
-- Every node that is registered gets the clock of its domain.
use arch_xplore.Base.{
  ℕ, zero, suc, List, [], ◌∷◌, ◌++◌, false, Text, Option, some, none, map, get_elem?, length, Order,
  native_order, find, or_fresh, done, ◌≡◌, inl, inr, refl, sym, ap, ◌∙◌, arith, subst, Bool-cases,
  Option-cases, get_elem?-end,
}
use mathlib.Core.Option
use arch_xplore.Clock.{
  SchedulePhase, unknown_phase, schedule_phase, bound_phase, weave_phase, num_phases,
}
use arch_xplore.Sys.Domains.{
  RankDomain, PhaseDomain, Domains, register_clock_domain, nodes_in, nodes_at, nodes_of,
}
use arch_xplore.Sys.Domains.Laws.{HasDomains, register_clock_domain_lem}
use arch_xplore.Sys.Clocks.{
  BuiltRank, BuiltDomains, domain_clock, build_domains, build_rank, build_phase,
  build_clock_domains,
}

-- An element of a list, with its place.
abbrev pub IsIn : {A : Type 0} → A → List A → Type 0
IsIn a xs = (i : ℕ) × (get_elem? xs i ≡ some a)

module _ {A : Type 0} where
  IsIn-left : (a : A) (xs ys : List A) → IsIn a xs → IsIn a (xs ++ ys)
  IsIn-left a [] ys (i, e) = absurd (ground arith)
  IsIn-left a (x ∷ xs) ys (zero, e) = (0, e)
  IsIn-left a (x ∷ xs) ys (suc i, e) = let (j, f) = IsIn-left a xs ys (i, e) in (suc j, f)

  pub IsIn-right : (a : A) (xs ys : List A) → IsIn a ys → IsIn a (xs ++ ys)
  IsIn-right a [] ys h = h
  IsIn-right a (x ∷ xs) ys h = let (j, f) = IsIn-right a xs ys h in (suc j, f)

IsIn-map : {A B : Type 0} (f : A → B) (a : A) (xs : List A) → IsIn a xs → IsIn (f a) (map f xs)
IsIn-map f a [] (i, e) = absurd (ground arith)
IsIn-map f a (x ∷ xs) (zero, e) = (0, ground arith)
IsIn-map f a (x ∷ xs) (suc i, e) = let (j, g) = IsIn-map f a xs (i, e) in (suc j, g)

-- A map keeps its keys when its values are built.
find-map :
    {K A B : Type 0} (o : Order K) (f : A → B) (k : K) (m : List (K × A))
    → find o k (map (λ r. (r.0, f r.1)) m) ≡ Option.map f (find o k m)
unfolding find
find-map o f k [] = refl
find-map o f k ((l, a) ∷ m) = elim (Bool-cases (o.less l k)) [
  | inl below ↦ rw (below, find) (find-map o f k m)
  | inr b ↦ elim (Bool-cases (o.less k l)) [ inl above ↦ ground arith | inr equal ↦ ground arith ]
]

-- Neither of the two frequencies is less.
abbrev pub IsSame : {F : Type 0} → Order F → F → F → Type 0
IsSame o key freq = (o.less key freq ≡ false) × (o.less freq key ≡ false)

module _ {F N C : Type 0} (o : Order F) (make_root : Text → C) (make_clock : Text → C → F → C)
    (to_mhz : F → ℕ) (system_freq : F) where
  -- A node's clock is that of a domain of the same frequency, made from the clock of the rank.
  pub record Clocked (freq : F) (node : N) (built : BuiltRank F N C) : Type 0 where
    pub key : F
    pub clock : C
    pub same : IsSame o key freq
    pub made : clock ≡ domain_clock make_clock to_mhz built.clock key
    pub domain : IsIn (key, clock) built.domain_clocks
    pub node_clock : IsIn (node, clock) built.node_clocks

  abbrev InDomains : F → N → C → List (F × List N) → Type 0
  InDomains freq node clock domains =
      (key : F) × IsSame o key freq
      × IsIn (key, domain_clock make_clock to_mhz clock key)
          (build_domains make_root make_clock to_mhz system_freq clock domains).0
      × IsIn (node, domain_clock make_clock to_mhz clock key)
          (build_domains make_root make_clock to_mhz system_freq clock domains).1

  in_domains :
      (freq : F) (node : N) (clock : C) (domains : List (F × List N))
      → IsIn node (or_fresh o [] (find o freq domains))
      → InDomains freq node clock domains
  unfolding build_domains find
  in_domains freq node clock [] (i, e) = absurd (ground arith)
  in_domains freq node clock ((l, nodes) ∷ domains) here = elim (Bool-cases (o.less l freq)) [
    | inl below ↦
        let (key, same, d, n) = in_domains freq node clock domains (rw below at here) in
        (key, same, IsIn-right _ (_ ∷ []) _ d, IsIn-right _ (map _ nodes) _ n)
    | inr b ↦ elim (Bool-cases (o.less freq l)) [
      | inl above ↦ let (i, e) : IsIn node [] = rw (b, above) at here in absurd (ground arith)
      | inr equal ↦
          let now : IsIn node nodes = rw (b, equal) at here in
          (
            l,
            (b, equal),
            (0, refl),
            IsIn-left _ _ _
                (IsIn-map (λ n. (n, domain_clock make_clock to_mhz clock l)) node nodes now),
          )
    ]
  ]

  build_rank-Clocked :
      (freq : F) (node : N) (r : RankDomain F N)
      → IsIn node (nodes_in o freq r)
      → Clocked freq node (build_rank make_root make_clock to_mhz system_freq r)
  unfolding build_rank
  build_rank-Clocked freq node r here =
      let clock = (build_rank make_root make_clock to_mhz system_freq r).clock in
      let (key, same, d, n) = in_domains freq node clock r.domains here in
      record {
        key = key;
        clock = domain_clock make_clock to_mhz clock key;
        same = same;
        made = refl;
        domain = d;
        node_clock = n;
      }

  -- The rank that was built for a phase and a number, if there is one.
  abbrev pub rank_at : SchedulePhase → ℕ → BuiltDomains F N C → Option (BuiltRank F N C)
  rank_at schedule_phase rank b = some b.schedule_phase
  rank_at bound_phase rank b = find native_order rank b.bound_phase
  rank_at weave_phase rank b = find native_order rank b.weave_phase
  rank_at _ rank b = none

  abbrev pub IsBuilt : SchedulePhase → ℕ → F → N → Domains F N → Type 0
  IsBuilt phase rank freq node d =
      (built : BuiltRank F N C) × (rank_at phase rank
          (build_clock_domains make_root make_clock to_mhz system_freq d)
        ≡ some built)
      × Clocked freq node built

  in_phase :
      (rank : ℕ) (freq : F) (node : N) (m : PhaseDomain F N)
      → IsIn node (nodes_at o m rank freq)
      → (built : BuiltRank F N C) × (find native_order rank
            (build_phase make_root make_clock to_mhz system_freq m)
          ≡ some built)
        × Clocked freq node built
  unfolding find
  in_phase rank freq node m here = elim (Option-cases (find native_order rank m)) [
    | inl nothing ↦ let (i, e) : IsIn node [] = rw nothing at here in absurd (ground arith)
    | inr (r, found) ↦ (
      build_rank make_root make_clock to_mhz system_freq r,
      find-map native_order (build_rank make_root make_clock to_mhz system_freq) rank m
          ∙ ap (Option.map (build_rank make_root make_clock to_mhz system_freq)) found,
      build_rank-Clocked freq node r (rw found at here),
    )
  ]

  pub build_clock_domains-Clocked :
      (phase : SchedulePhase) (rank : ℕ) (freq : F) (node : N) (d : Domains F N)
      → IsIn node (nodes_of o d phase rank freq)
      → IsBuilt phase rank freq node d
  unfolding build_clock_domains nodes_of
  build_clock_domains-Clocked schedule_phase rank freq node d here = (
    build_rank make_root make_clock to_mhz system_freq d.schedule_phase_domain,
    refl,
    build_rank-Clocked freq node d.schedule_phase_domain here,
  )
  build_clock_domains-Clocked bound_phase rank freq node d here =
      in_phase rank freq node d.bound_phase_domains here
  build_clock_domains-Clocked weave_phase rank freq node d here =
      in_phase rank freq node d.weave_phase_domains here
  build_clock_domains-Clocked unknown_phase rank freq node d (i, e) = absurd (ground arith)
  build_clock_domains-Clocked num_phases rank freq node d (i, e) = absurd (ground arith)

  -- A node that is registered for a phase that has domains, at rank 0 if it is the schedule phase, is
  -- given a clock when the domains are built: the clock of a domain of its rank, whose frequency is
  -- the one that it was registered with, made from the clock of the rank.
  pub register_clock_domain-IsBuilt :
      (node : N) (phase : SchedulePhase) (rank : ℕ) (freq : F) (d : Domains F N)
      → HasDomains phase
      → (phase ≡ schedule_phase → rank ≡ 0)
      → (d' : Domains F N) × (register_clock_domain o node phase rank freq d ≡ done d')
        × IsBuilt phase rank freq node d'
  register_clock_domain-IsBuilt node phase rank freq d has zero_rank =
      let (d', returned, r) = register_clock_domain_lem o node phase rank freq d has zero_rank in
      let before = nodes_of o d phase rank freq in
      let here : IsIn node (nodes_of o d' phase rank freq) =
        subst (IsIn node) (sym r.added) (length before, get_elem?-end before node) in
      (d', returned, build_clock_domains-Clocked phase rank freq node d' here)
