-- ===== src/Program/Laws.antt =====
-- How the program ends, and in which order the units of the script's module are bound.
use arch_xplore.Base.{
  ℕ, zero, suc, ◌+◌, ◌≤◌, ◌<◌, List, [], ◌∷◌, ◌++◌, Text, Option, none, length, get_elem?, drop,
  ltb, Outcome, done, ◌≡◌, inl, inr, refl, sym, ap, ◌∙◌, arith, true, false, append_assoc,
  append-nil, drop_cases,
}
use arch_xplore.Sys.Boot.{QemuSystem}
use arch_xplore.Sys.CleanUp.{IsNumbered, Signalled, is_running_at, clean_up_lem, clean_up_early}
use arch_xplore.Program.{
  System, pseudo, qemu, exits, terminates, append_arguments, clean_up_any, system_clean_up, main,
  get_func_pool, embedded_module, execute_functions, arch_xplore_module,
}

-- The loop appends the arguments from `i` on.
append_arguments_lem :
    (fuel i : ℕ) (argv out : List Text)
    → i ≤ length argv
    → length argv < fuel + i
    → append_arguments fuel i argv out ≡ out ++ drop i argv
unfolding append_arguments
append_arguments_lem zero i argv out le enough = absurd (omega arith)
append_arguments_lem (suc fuel) i argv out le enough = elim (drop_cases argv i le) [
  | inl (e, gone) ↦ rw (get_elem?-end argv i e, gone, append_arguments) (sym (append-nil out))
  | inr (a, there, lt, next) ↦
      rw (there, next, append_arguments)
        (append_arguments_lem fuel (i + 1) argv (out ++ a ∷ []) (omega arith) (omega arith)
          ∙ append_assoc out (a ∷ []) (drop (i + 1) argv))
]
  where
    get_elem?-end : (xs : List Text) (j : ℕ) → j ≡ length xs → get_elem? xs j ≡ none
    get_elem?-end [] j e = refl
    get_elem?-end (x ∷ xs) zero e = absurd (omega arith)
    get_elem?-end (x ∷ xs) (suc j) e = get_elem?-end xs j (omega arith)

module _ {E Q H : Type 0} (kill : ℕ → H → H)
    (eval_file : Text → List Text → System E Q H → Outcome (System E Q H)) where
  -- A script gets its name and the arguments behind it; when it returns, the system is cleaned up.
  main_evaluates :
      (program script : Text) (args : List Text) (s : System E Q H)
      → eval_file script (script ∷ args) pseudo ≡ done s
      → main kill eval_file (program ∷ script ∷ args) ≡ system_clean_up kill 0 s
  unfolding main
  main_evaluates program script args s ran =
      let argv =
        append_arguments_lem (length (program ∷ script ∷ args)) 1 (program ∷ script ∷ args) []
          (omega arith) (omega arith) in
      let enough : ltb (length (program ∷ script ∷ args)) 2 ≡ false = ground arith in
      rw (argv, ran, enough, main)

  -- If the script returns with a system whose processes are numbered and have subprocesses, the program
  -- exits with code 0, and has sent the signal 0 to the subprocesses of the processes that are not
  -- completed, once to each, and to no other.
  pub main_lem :
      (program script : Text) (args : List Text) (s : QemuSystem E Q H)
      → eval_file script (script ∷ args) pseudo ≡ done (qemu s)
      → IsNumbered 0 s.processes
      → length s.processes ≤ length s.subprocesses
      → (s' : QemuSystem E Q H) × (main kill eval_file (program ∷ script ∷ args)
          ≡ exits 0 (qemu s'))
        × (s'.processes ≡ s.processes)
        × Signalled kill 0 s.processes s.subprocesses s'.subprocesses
  unfolding system_clean_up clean_up_any
  main_lem program script args s ran num booted =
      let (s', cleaned, same, sent) = clean_up_lem kill s num booted in
      (
        s',
        main_evaluates program script args (qemu s) ran
            ∙ rw (cleaned, system_clean_up, clean_up_any),
        same,
        sent,
      )

  -- If the script returns with a system that was not booted, one of whose processes is not completed,
  -- the program is terminated: the clean-up throws, and must not.
  pub main-terminates :
      (program script : Text) (args : List Text) (s : QemuSystem E Q H) (j : ℕ)
      → eval_file script (script ∷ args) pseudo ≡ done (qemu s)
      → s.subprocesses ≡ []
      → is_running_at 0 s.processes j ≡ true
      → main kill eval_file (program ∷ script ∷ args) ≡ terminates
  unfolding system_clean_up clean_up_any
  main-terminates program script args s j ran unbooted runs =
      main_evaluates program script args (qemu s) ran
      ∙ rw (clean_up_early kill s j unbooted runs, system_clean_up, clean_up_any)

module _ {M : Type 0} where
  -- The units in the order in which their static objects are constructed.
  abbrev pub embedded_modules : List (M → M) → Option (List (M → M)) → Option (List (M → M))
  embedded_modules [] pool = pool
  embedded_modules (func ∷ funcs) pool = embedded_modules funcs (embedded_module func pool)

  get_func_pool-embedded_modules :
      (funcs : List (M → M)) (pool : Option (List (M → M)))
      → get_func_pool (embedded_modules funcs pool) ≡ get_func_pool pool ++ funcs
  unfolding embedded_module get_func_pool
  get_func_pool-embedded_modules [] pool = sym (append-nil (get_func_pool pool))
  get_func_pool-embedded_modules (func ∷ funcs) pool =
      get_func_pool-embedded_modules funcs (embedded_module func pool)
      ∙ append_assoc (get_func_pool pool) (func ∷ []) funcs

  -- The script's module binds sparta's classes, the common ones, and then the units in the order in
  -- which they were constructed, whichever comes first.
  pub arch_xplore_module_lem :
      (bind_sparta_modules bind_common_modules : M → M) (funcs : List (M → M)) (m : M)
      → arch_xplore_module bind_sparta_modules bind_common_modules (embedded_modules funcs none) m
        ≡ execute_functions (bind_sparta_modules ∷ bind_common_modules ∷ funcs) m
  unfolding arch_xplore_module execute_functions get_func_pool
  arch_xplore_module_lem bind_sparta_modules bind_common_modules funcs m =
      ap (λ pool. execute_functions pool (bind_common_modules (bind_sparta_modules m)))
        (get_func_pool-embedded_modules funcs none)
