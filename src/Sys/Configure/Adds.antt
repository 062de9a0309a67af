-- ===== src/Sys/Configure/Adds.antt =====
-- What registering a node adds to the nodes of a domain.
use arch_xplore.Base.{
  ℕ, zero, suc, [], ◌∷◌, ◌++◌, true, false, ◌&&◌, not, ◌==◌, if◌then◌else◌, Order, append-nil, ◌≡◌,
  ◌≢◌, inl, inr, refl, sym, ap, ◌∙◌, subst, arith, Bool-cases,
}
use arch_xplore.Clock.{
  SchedulePhase, unknown_phase, schedule_phase, bound_phase, weave_phase, num_phases,
}
use arch_xplore.Sys.Domains.{Domains, nodes_of}
use arch_xplore.Sys.Domains.Laws.{Registers}
use arch_xplore.Sys.Configure.{phase_code, same_domain}

abbrev phase_of : ℕ → SchedulePhase
phase_of zero = unknown_phase
phase_of (suc zero) = schedule_phase
phase_of (suc (suc zero)) = bound_phase
phase_of (suc (suc (suc zero))) = weave_phase
phase_of _ = num_phases

phase_of-phase_code : (p : SchedulePhase) → phase_of (phase_code p) ≡ p
phase_of-phase_code unknown_phase = refl
phase_of-phase_code schedule_phase = refl
phase_of-phase_code bound_phase = refl
phase_of-phase_code weave_phase = refl
phase_of-phase_code num_phases = refl

same_code : (p q : SchedulePhase) → (phase_code p == phase_code q) ≡ true → p ≡ q
same_code p q h =
    let same : phase_code p ≡ phase_code q = ground arith in
    sym (phase_of-phase_code p) ∙ ap phase_of same ∙ phase_of-phase_code q

other_code : (p q : SchedulePhase) → (phase_code p == phase_code q) ≡ false → p ≢ q
other_code p q h e = let same = ap phase_code e in ground arith

-- The schedule phase has rank 0 only.
abbrev pub IsRanked : SchedulePhase → ℕ → Type 0
IsRanked phase rank = phase ≡ schedule_phase → rank ≡ 0

-- Two keys of which neither is less are equal.
abbrev pub IsTotal : {F : Type 0} → Order F → Type 0
IsTotal {F} ord = (a b : F) → ord.less a b ≡ false → ord.less b a ≡ false → a ≡ b

module _ {F : Type 0} (ord : Order F) where
  adds_freq :
      (i : ℕ) (p : SchedulePhase) (r : ℕ) (f freq : F) (d d' : Domains F ℕ)
      → IsTotal ord
      → Registers ord i p r f d d'
      → nodes_of ord d' p r freq
        ≡ nodes_of ord d p r freq
          ++ (if not (ord.less freq f) && not (ord.less f freq) then i ∷ [] else [])
  adds_freq i p r f freq d d' total reg = elim (Bool-cases (ord.less freq f)) [
    | inl below ↦ rw below (reg.other_freq freq (inl below) ∙ sym (append-nil _))
    | inr b ↦ elim (Bool-cases (ord.less f freq)) [
      | inl above ↦ rw (b, above) (reg.other_freq freq (inr above) ∙ sym (append-nil _))
      | inr c ↦
          let same = total freq f b c in
          rw (b, c)
            (ap (λ g. nodes_of ord d' p r g) same
              ∙ reg.added
              ∙ ap (λ g. nodes_of ord d p r g ++ i ∷ []) (sym same))
    ]
  ]

  adds_rank :
      (i : ℕ) (p : SchedulePhase) (r rank : ℕ) (f freq : F) (d d' : Domains F ℕ)
      → IsTotal ord
      → IsRanked p r
      → IsRanked p rank
      → Registers ord i p r f d d'
      → nodes_of ord d' p rank freq
        ≡ nodes_of ord d p rank freq
          ++ (if rank == r && not (ord.less freq f) && not (ord.less f freq) then i ∷ [] else [])
  adds_rank i p r rank f freq d d' total ranked ranked' reg = elim (Bool-cases (rank == r)) [
    | inr other ↦
        let not_schedule : p ≢ schedule_phase =
          λ e. let z = ranked e in let z' = ranked' e in ground arith in
        rw other (reg.other_rank rank freq not_schedule (λ e. ground arith) ∙ sym (append-nil _))
    | inl equal ↦
        let same : r ≡ rank = ground arith in
        rw equal (
          subst
            (λ k.
              nodes_of ord d' p k freq
              ≡ nodes_of ord d p k freq
                ++ (if not (ord.less freq f) && not (ord.less f freq) then i ∷ [] else []))
            same (adds_freq i p r f freq d d' total reg))
  ]

  -- A domain gets the node that is registered, if it is the node's.
  pub adds :
      (i : ℕ) (p phase : SchedulePhase) (r rank : ℕ) (f freq : F) (d d' : Domains F ℕ)
      → IsTotal ord
      → IsRanked p r
      → IsRanked phase rank
      → Registers ord i p r f d d'
      → nodes_of ord d' phase rank freq
        ≡ nodes_of ord d phase rank freq
          ++ (if same_domain ord phase rank freq p r f then i ∷ [] else [])
  adds i p phase r rank f freq d d' total ranked ranked' reg =
      elim (Bool-cases (phase_code phase == phase_code p)) [
        | inr other ↦
            rw other
              (reg.other_phase phase rank freq (other_code phase p other) ∙ sym (append-nil _))
        | inl equal ↦
            let same : p ≡ phase = sym (same_code phase p equal) in
            let ranked_p : IsRanked p rank = λ e. ranked' (sym same ∙ e) in
            rw equal (
              subst
                (λ q.
                  nodes_of ord d' q rank freq
                  ≡ nodes_of ord d q rank freq
                    ++ (if rank == r && not (ord.less freq f) && not (ord.less f freq)
                        then i ∷ []
                        else []))
                same (adds_rank i p r rank f freq d d' total ranked ranked_p reg))
      ]
