-- ===== src/Sys/Configure/Tests.antt =====
-- Tests of configuring a tree; frequencies are numbers, and 0 stands for -1.
use arch_xplore.Base.{
  ℕ, zero, suc, ◌*◌, List, [], ◌∷◌, ◌++◌, Bool, true, ◌==◌, ◌≡◌, refl, arith, All, native_order,
  done, find,
}
use arch_xplore.Clock.{
  bound_phase, Node, plain, clocked, set_clock_domain, set_rank, set_phase, from_parents,
}
use arch_xplore.Sys.Domains.{Domains, nodes_of}
use arch_xplore.Sys.Clocks.Laws.{IsBuilt}
use arch_xplore.Sys.Configure.{Tree, construct, new_object, configure_all, members}
use arch_xplore.Sys.Configure.Lines.{IsTree, IsAlike}
use arch_xplore.Sys.Configure.Adds.{IsTotal}
use arch_xplore.Sys.Configure.Alike.{IsPlaceable}
use arch_xplore.Sys.Configure.Laws.{configure_all_lem}
use arch_xplore.Sys.Configure.Built.{configure_all-IsBuilt}

abbrev is_zero : ℕ → Bool
is_zero n = n == 0

only_zero : (a : ℕ) → is_zero a ≡ true → a ≡ 0
only_zero a h = ground arith

total : IsTotal native_order
total a b g h = ground arith

-- Node 0 is the root of the tree, which is not a clocked object; 1 is the system, 2 a core in the bound
-- phase, and 3 a cache of the core that sets its rank only.
abbrev node : ℕ → Node ℕ
node zero = plain
node (suc zero) = clocked (construct {S = ℕ} {M = ℕ} {X = ℕ} 0 (λ f. 1000 * f) 1000 0 0).0
node (suc (suc zero)) = clocked (set_phase bound_phase (set_rank 3 (new_object 0)))
node (suc (suc (suc zero))) = clocked (set_rank 4 (new_object 0))
node _ = plain

abbrev parents : ℕ → List ℕ
parents (suc zero) = 0 ∷ []
parents (suc (suc zero)) = 1 ∷ 0 ∷ []
parents (suc (suc (suc zero))) = 2 ∷ 1 ∷ 0 ∷ []
parents _ = []

abbrev tree : Tree ℕ
tree = record { node = node; parents = parents }

tree-IsTree : IsTree tree
tree-IsTree zero = tt
tree-IsTree (suc zero) = (refl, tt)
tree-IsTree (suc (suc zero)) = (refl, (refl, tt))
tree-IsTree (suc (suc (suc zero))) = (refl, (refl, (refl, tt)))
tree-IsTree (suc (suc (suc (suc i)))) = tt

-- The cache is configured before the core.
abbrev ids : List ℕ
ids = 0 ∷ 3 ∷ 1 ∷ 2 ∷ []

placed : All (IsPlaceable is_zero 0 tree) ids
unfolding from_parents construct set_rank set_phase set_clock_domain
placed = (
  record { has = λ s. absurd (ground arith); ranked = λ s. absurd (ground arith) },
  (
    record { has = λ s. tt; ranked = λ s e. absurd (ground arith) },
    (
      record { has = λ s. tt; ranked = λ s e. refl },
      (record { has = λ s. tt; ranked = λ s e. absurd (ground arith) }, tt),
    ),
  ),
)

abbrev no_domains : Domains ℕ ℕ
no_domains = record {
  schedule_phase_domain = record { name = []; domains = [] };
  bound_phase_domains = [];
  weave_phase_domains = [];
}

configure_all_lem_example :
    (t' : Tree ℕ) × (d' : Domains ℕ ℕ) × (configure_all is_zero 0 native_order ids
        (tree, no_domains)
      ≡ done (t', d'))
    × IsAlike is_zero 0 tree t'
    × (nodes_of native_order d' bound_phase 4 1000 ≡ 3 ∷ [])
unfolding from_parents construct set_rank set_phase set_clock_domain members nodes_of find
configure_all_lem_example =
    configure_all_lem is_zero 0 native_order refl only_zero total ids tree no_domains bound_phase 4
      1000 tree-IsTree placed (λ e. absurd (ground arith))

configure_all-IsBuilt_example :
    (t' : Tree ℕ) × (d' : Domains ℕ ℕ) × (configure_all is_zero 0 native_order ids
        (tree, no_domains)
      ≡ done (t', d'))
    × IsBuilt native_order
        (λ name. name)
        (λ name parent freq. parent ++ name)
        (λ freq. freq)
        500
        bound_phase
        4
        1000
        3
        d'
unfolding from_parents construct set_rank set_phase set_clock_domain
configure_all-IsBuilt_example =
    configure_all-IsBuilt is_zero 0 native_order (λ name. name) (λ name parent freq. parent ++ name)
      (λ freq. freq) 500 3 ids tree no_domains refl only_zero total tree-IsTree placed refl
      (1, refl)
