-- ===== src/Sys/Configure/Alike.antt =====
-- Trees whose nodes have the same domains have the same members.
use arch_xplore.Base.{
  ℕ, List, [], ◌∷◌, ◌++◌, Bool, true, Order, All, ◌≡◌, inl, inr, refl, sym, ◌∙◌, subst, Bool-cases,
}
use arch_xplore.Clock.{SchedulePhase}
use arch_xplore.Sys.Domains.Laws.{HasDomains}
use arch_xplore.Sys.Configure.{Tree, is_set, phase_at, rank_of, lands, members}
use arch_xplore.Sys.Configure.Lines.{IsAlike}
use arch_xplore.Sys.Configure.Adds.{IsRanked}

module _ {F : Type 0} (is_minus_one : F → Bool) (minus_one : F) where
  -- A node that can be configured: if it sets a domain, its phase has domains, and rank 0 if it is the
  -- schedule phase.
  pub record IsPlaceable (t : Tree F) (i : ℕ) : Type 0 where
    pub has : is_set (t.node i) ≡ true → HasDomains (phase_at is_minus_one minus_one t i)
    pub ranked :
        is_set (t.node i) ≡ true
        → IsRanked (phase_at is_minus_one minus_one t i) (rank_of is_minus_one minus_one t i)

  pub unchanged : (t : Tree F) → IsAlike is_minus_one minus_one t t
  unchanged t = record {
    parents = refl;
    set = λ j. refl;
    phases = λ j. refl;
    ranks = λ j. refl;
    freqs = λ j. refl;
  }

  pub IsAlike-trans :
      (t t' t'' : Tree F)
      → IsAlike is_minus_one minus_one t t'
      → IsAlike is_minus_one minus_one t' t''
      → IsAlike is_minus_one minus_one t t''
  IsAlike-trans t t' t'' a b = record {
    parents = b.parents ∙ a.parents;
    set = λ j. b.set j ∙ a.set j;
    phases = λ j. b.phases j ∙ a.phases j;
    ranks = λ j. b.ranks j ∙ a.ranks j;
    freqs = λ j. b.freqs j ∙ a.freqs j;
  }

  pub All-alike :
      (ids : List ℕ) (t t' : Tree F)
      → IsAlike is_minus_one minus_one t t'
      → All (IsPlaceable t) ids
      → All (IsPlaceable t') ids
  All-alike [] t t' a placed = tt
  All-alike (i ∷ ids) t t' a (place, placed) = (
    record {
      has = λ s. subst HasDomains (sym (a.phases i)) (place.has (sym (a.set i) ∙ s));
      ranked = λ s e. a.ranks i ∙ place.ranked (sym (a.set i) ∙ s) (sym (a.phases i) ∙ e);
    },
    All-alike ids t t' a placed,
  )

module _ {F : Type 0} (is_minus_one : F → Bool) (minus_one : F) (ord : Order F) where
  lands_alike :
      (t t' : Tree F) (phase : SchedulePhase) (rank : ℕ) (freq : F) (i : ℕ)
      → IsAlike is_minus_one minus_one t t'
      → lands is_minus_one minus_one ord t' phase rank freq i
        ≡ lands is_minus_one minus_one ord t phase rank freq i
  lands_alike t t' phase rank freq i a = rw (a.set i, a.phases i, a.ranks i, a.freqs i)

  pub members_alike :
      (t t' : Tree F) (phase : SchedulePhase) (rank : ℕ) (freq : F) (ids : List ℕ)
      → IsAlike is_minus_one minus_one t t'
      → members is_minus_one minus_one ord t' phase rank freq ids
        ≡ members is_minus_one minus_one ord t phase rank freq ids
  unfolding members
  members_alike t t' phase rank freq [] a = refl
  members_alike t t' phase rank freq (i ∷ ids) a =
      rw (lands_alike t t' phase rank freq i a, members_alike t t' phase rank freq ids a)

  pub members-cons :
      (i : ℕ) (ids : List ℕ) (t : Tree F) (phase : SchedulePhase) (rank : ℕ) (freq : F)
      → members is_minus_one minus_one ord t phase rank freq (i ∷ [])
          ++ members is_minus_one minus_one ord t phase rank freq ids
        ≡ members is_minus_one minus_one ord t phase rank freq (i ∷ ids)
  unfolding members
  members-cons i ids t phase rank freq =
      elim (Bool-cases (lands is_minus_one minus_one ord t phase rank freq i)) [
        | inl here ↦ rw here
        | inr away ↦ rw away
      ]
