-- ===== src/Clock/Inheritance.antt =====
-- Configuring an object changes nothing of what it or an object below it inherits, so that the order
-- in which the objects of the tree are configured does not matter.
use arch_xplore.Base.{
  List, [], ◌∷◌, ◌++◌, Bool, true, false, ◌||◌, not, ◌==◌, if◌then◌else◌, ◌≡◌, ◌⊎◌, inl, inr, refl,
  ap, ◌∙◌, arith, Bool-cases,
}
use arch_xplore.Clock.{
  ClockedObject, SchedulePhase, unknown_phase, is_unknown, no_rank, Node, plain, clocked,
  from_parents, inherited, get_rank, get_clock_frequency, get_phase, on_configuring,
}

module _ {F A : Type 0} (read : ClockedObject F → A) (is_unset : A → Bool) (unset : A) where
  -- An object that stores what it inherits passes on what it passed on before.
  stored_same :
      (o o' : ClockedObject F) (parents : List (Node F))
      → is_unset unset ≡ true
      → ((a : A) → is_unset a ≡ true → a ≡ unset)
      → o'.is_configured ≡ o.is_configured
      → read o' ≡ inherited read is_unset unset o parents
      → inherited read is_unset unset o' parents ≡ inherited read is_unset unset o parents
  unfolding inherited
  stored_same o o' parents u only c s =
      elim (Bool-cases (o'.is_configured || not (is_unset (read o')))) [
        | inl stop ↦ rw stop s
        | inr through ↦
            let none_set : is_unset (read o') ≡ true = ground arith in
            let free : o.is_configured ≡ false = ground arith in
            let is_def : read o' ≡ unset = only (read o') none_set in
            elim (Bool-cases (not (is_unset (read o)))) [
              | inl there ↦ absurd (ground arith)
              | inr b ↦ ground arith
            ]
      ]

  below_same :
      (below parents : List (Node F)) (o o' : ClockedObject F)
      → inherited read is_unset unset o' parents ≡ inherited read is_unset unset o parents
      → from_parents read is_unset unset (below ++ clocked o' ∷ parents)
        ≡ from_parents read is_unset unset (below ++ clocked o ∷ parents)
  unfolding inherited from_parents
  below_same [] parents o o' s = s
  below_same (plain ∷ below) parents o o' s = below_same below parents o o' s
  below_same (clocked p ∷ below) parents o o' s =
      ap (λ a. if p.is_configured || not (is_unset (read p)) then read p else a)
        (below_same below parents o o' s)

  -- So does one that keeps its own value.
  pub kept_same :
      (o o' : ClockedObject F) (parents : List (Node F))
      → is_unset unset ≡ true
      → ((a : A) → is_unset a ≡ true → a ≡ unset)
      → o'.is_configured ≡ o.is_configured
      → (read o' ≡ inherited read is_unset unset o parents) ⊎ (read o' ≡ read o)
      → inherited read is_unset unset o' parents ≡ inherited read is_unset unset o parents
  unfolding inherited
  kept_same o o' parents u only c (inl h) = stored_same o o' parents u only c h
  kept_same o o' parents u only c (inr h) =
      ap
        (λ b.
          if b || not (is_unset (read o'))
          then read o'
          else from_parents read is_unset unset parents)
        c
      ∙ ap
          (λ a.
            if o.is_configured || not (is_unset a)
            then a
            else from_parents read is_unset unset parents)
          h

  pub below-inherited :
      (x o o' : ClockedObject F) (below parents : List (Node F))
      → inherited read is_unset unset o' parents ≡ inherited read is_unset unset o parents
      → inherited read is_unset unset x (below ++ clocked o' ∷ parents)
        ≡ inherited read is_unset unset x (below ++ clocked o ∷ parents)
  unfolding inherited
  below-inherited x o o' below parents same =
      ap (λ a. if x.is_configured || not (is_unset (read x)) then read x else a)
        (below_same below parents o o' same)

only_unknown : (s : SchedulePhase) → is_unknown s ≡ true → s ≡ unknown_phase
only_unknown s h = ground arith

module _ {F : Type 0} (is_minus_one : F → Bool) (minus_one : F) where
  -- An object that is configured has the phase, rank and frequency that it had.
  pub configured_same :
      (o : ClockedObject F) (parents : List (Node F))
      → is_minus_one minus_one ≡ true
      → ((a : F) → is_minus_one a ≡ true → a ≡ minus_one)
      → let o' = on_configuring is_minus_one minus_one o parents in
        (get_phase is_minus_one minus_one o' parents ≡ get_phase is_minus_one minus_one o parents)
        × (get_rank is_minus_one minus_one o' parents ≡ get_rank is_minus_one minus_one o parents)
        × (get_clock_frequency is_minus_one minus_one o' parents
            ≡ get_clock_frequency is_minus_one minus_one o parents)
  unfolding get_phase get_rank get_clock_frequency on_configuring
  configured_same o parents u only = elim (Bool-cases o.clock_domain_set) [
    | inl s ↦ (
      kept_same (λ p. p.phase) is_unknown unknown_phase o _ parents refl only_unknown (rw s)
          (inl (rw s)),
      kept_same (λ p. p.rank) (λ r. r == no_rank) no_rank o _ parents refl (λ r h. ground arith)
          (rw s) (inl (rw s)),
      kept_same (λ p. p.freq) is_minus_one minus_one o _ parents u only (rw s) (inl (rw s)),
    )
    | inr n ↦ (rw n, rw n, rw n)
  ]

  -- Every object below an object that is configured inherits the same phase, rank and frequency as
  -- before, whatever lies between them, if -1 is the only frequency that is tested to be -1.
  pub on_configuring-inherited :
      (x o : ClockedObject F) (below parents : List (Node F))
      → is_minus_one minus_one ≡ true
      → ((a : F) → is_minus_one a ≡ true → a ≡ minus_one)
      → (get_phase is_minus_one minus_one x
            (below ++ clocked (on_configuring is_minus_one minus_one o parents) ∷ parents)
          ≡ get_phase is_minus_one minus_one x (below ++ clocked o ∷ parents))
        × (get_rank is_minus_one minus_one x
              (below ++ clocked (on_configuring is_minus_one minus_one o parents) ∷ parents)
            ≡ get_rank is_minus_one minus_one x (below ++ clocked o ∷ parents))
        × (get_clock_frequency is_minus_one minus_one x
              (below ++ clocked (on_configuring is_minus_one minus_one o parents) ∷ parents)
            ≡ get_clock_frequency is_minus_one minus_one x (below ++ clocked o ∷ parents))
  unfolding get_phase get_rank get_clock_frequency
  on_configuring-inherited x o below parents u only =
      let (phase, rank, freq) = configured_same o parents u only in
      let o' = on_configuring is_minus_one minus_one o parents in
      (
        below-inherited (λ p. p.phase) is_unknown unknown_phase x o o' below parents phase,
        below-inherited (λ p. p.rank) (λ r. r == no_rank) no_rank x o o' below parents rank,
        below-inherited (λ p. p.freq) is_minus_one minus_one x o o' below parents freq,
      )
