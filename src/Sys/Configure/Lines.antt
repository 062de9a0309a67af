-- ===== src/Sys/Configure/Lines.antt =====
-- Configuring a node leaves every node of the tree the phase, the rank and the frequency that it has.
use arch_xplore.Base.{
  ℕ, List, [], ◌∷◌, Bool, true, ◌||◌, not, ◌==◌, if◌then◌else◌, ◌≡◌, inl, inr, refl, sym, ap, ◌∙◌,
  arith, Bool-cases,
}
use arch_xplore.Clock.{
  unknown_phase, ClockedObject, no_rank, is_unknown, Node, plain, clocked, from_parents, inherited,
  get_phase, get_rank, get_clock_frequency, on_configuring,
}
use arch_xplore.Clock.Inheritance.{configured_same}
use arch_xplore.Sys.Configure.{Tree, set_node, nodes, is_set, phase_at, rank_of, freq_at}

-- A list of nodes each of which has the rest of the list as its parents.
abbrev pub IsLine : (ℕ → List ℕ) → List ℕ → Type 0
IsLine parents [] = Unit
IsLine parents (k ∷ ks) = (ks ≡ parents k) × IsLine parents ks

abbrev pub IsTree : {F : Type 0} → Tree F → Type 0
IsTree t = (i : ℕ) → IsLine t.parents (t.parents i)

module _ {F A : Type 0} (read : ClockedObject F → A) (is_unset : A → Bool) (unset : A) where
  from : List (Node F) → A
  from ns = from_parents read is_unset unset ns

  from-rest :
      (n : Node F) (ms ns : List (Node F)) → from ms ≡ from ns → from (n ∷ ms) ≡ from (n ∷ ns)
  unfolding from from_parents
  from-rest plain ms ns same = same
  from-rest (clocked p) ms ns same =
      ap (λ a. if p.is_configured || not (is_unset (read p)) then read p else a) same

  -- A line has what it had, if the node that is set passes on what it passed on.
  pub line_same :
      (t : Tree F) (i : ℕ) (o o' : ClockedObject F) (ks : List ℕ)
      → t.node i ≡ clocked o
      → inherited read is_unset unset o' (nodes t (t.parents i))
        ≡ inherited read is_unset unset o (nodes t (t.parents i))
      → IsLine t.parents ks
      → from_parents read is_unset unset (nodes (set_node i o' t) ks)
        ≡ from_parents read is_unset unset (nodes t ks)
  unfolding from from_parents inherited
  line_same t i o o' [] here same line = refl
  line_same t i o o' (k ∷ ks) here same (up, line) =
      let rest = line_same t i o o' ks here same line in
      elim (Bool-cases (k == i)) [
        | inl at_it ↦
            let k_is_i : k ≡ i = ground arith in
            let parents : ks ≡ t.parents i = up ∙ ap t.parents k_is_i in
            let before : t.node k ≡ clocked o = ap t.node k_is_i ∙ here in
            rw (at_it, before)
              (from-rest (clocked o') (nodes (set_node i o' t) ks) (nodes t ks) rest
                ∙ ap (λ ps. from (clocked o' ∷ nodes t ps)) parents
                ∙ same
                ∙ ap (λ ps. from (clocked o ∷ nodes t ps)) (sym parents))
        | inr away ↦ rw away (from-rest (t.node k) (nodes (set_node i o' t) ks) (nodes t ks) rest)
      ]

module _ {F : Type 0} (is_minus_one : F → Bool) (minus_one : F) where
  -- Two trees whose nodes have the same domains, and set one alike.
  pub record IsAlike (t t' : Tree F) : Type 0 where
    pub parents : t'.parents ≡ t.parents
    pub set : (j : ℕ) → is_set (t'.node j) ≡ is_set (t.node j)
    pub phases :
        (j : ℕ) → phase_at is_minus_one minus_one t' j ≡ phase_at is_minus_one minus_one t j
    pub ranks : (j : ℕ) → rank_of is_minus_one minus_one t' j ≡ rank_of is_minus_one minus_one t j
    pub freqs : (j : ℕ) → freq_at is_minus_one minus_one t' j ≡ freq_at is_minus_one minus_one t j

  configured_set :
      (o : ClockedObject F) (ps : List (Node F))
      → (on_configuring is_minus_one minus_one o ps).clock_domain_set ≡ o.clock_domain_set
  unfolding on_configuring
  configured_set o ps = elim (Bool-cases o.clock_domain_set) [ inl s ↦ rw s | inr n ↦ rw n ]

  pub set_node-IsAlike :
      (t : Tree F) (i : ℕ) (o : ClockedObject F)
      → is_minus_one minus_one ≡ true
      → ((a : F) → is_minus_one a ≡ true → a ≡ minus_one)
      → IsTree t
      → t.node i ≡ clocked o
      → IsAlike t (set_node i (on_configuring is_minus_one minus_one o (nodes t (t.parents i))) t)
  unfolding get_phase get_rank get_clock_frequency
  set_node-IsAlike t i o u only tree here =
      let ps = nodes t (t.parents i) in
      let o' = on_configuring is_minus_one minus_one o ps in
      let (phase, rank, freq) = configured_same is_minus_one minus_one o ps u only in
      record {
        parents = refl;
        set = λ j. elim (Bool-cases (j == i)) [
          | inl at_it ↦
              let j_is_i : j ≡ i = ground arith in rw (at_it, j_is_i, here) (configured_set o ps)
          | inr away ↦ rw away
        ];
        phases = λ j.
            line_same (λ p. p.phase) is_unknown unknown_phase t i o o' (j ∷ t.parents j) here phase
              (refl, tree j);
        ranks = λ j.
            line_same (λ p. p.rank) (λ r. r == no_rank) no_rank t i o o' (j ∷ t.parents j) here rank
              (refl, tree j);
        freqs = λ j.
            line_same (λ p. p.freq) is_minus_one minus_one t i o o' (j ∷ t.parents j) here freq
              (refl, tree j);
      }
