-- ===== src/Program.antt =====
-- src/python/ArchXplorePy.cpp: the program around the interpreter, which runs a script and cleans up;
-- and src/python/EmbeddedModule.cpp with the pool of include/python/EmbeddedModule.hpp, which the
-- script's module is made of. The interpreter is not part of this repository.
pub mod Laws
mod Tests
use arch_xplore.Base.{
  ℕ, zero, suc, ◌+◌, List, [], ◌∷◌, ◌++◌, Bool, true, false, Text, Option, some, none, length,
  get_elem?, ltb, ◌==◌, if◌then◌else◌, Outcome, done, throws, blocked, assertion, ◌>>=◌, thrown,
  ◌≡◌, refl,
}
use arch_xplore.Hart.State.{Hart, QemuIss}
use arch_xplore.Sys.Boot.{QemuSystem, register_cpu, clean_up}
use arch_xplore.Sys.Register.{create_iss}

-- What the system pointer points to: the pseudo system, until a script makes another.
pub data System (E Q H : Type 0) : Type 0 where
  pseudo : System E Q H
  qemu : QemuSystem E Q H → System E Q H

-- `getSystemPtr` of AbstractSystem, of the member that points to the system.
unfoldable pub get_system_ptr : {E Q H : Type 0} → Option (System E Q H) → Outcome (System E Q H)
get_system_ptr (some s) = done s
get_system_ptr none = throws assertion

-- `getSystemPtr` of AbstractCPU asserts it once more.
unfoldable pub cpu_system_ptr : {E Q H : Type 0} → Option (System E Q H) → Outcome (System E Q H)
cpu_system_ptr p = do s ← get_system_ptr p; get_system_ptr (some s)

-- How the program ends: with a code, and the system as it is then; by `std::terminate`; or never.
pub data Exit (E Q H : Type 0) : Type 0 where
  exits : ℕ → System E Q H → Exit E Q H
  terminates : Exit E Q H
  runs_on : Exit E Q H

-- for (int i = 1; i < argc; i++) py_argv.append(argv[i]); beyond the last argument there is none.
unfoldable pub append_arguments : ℕ → ℕ → List Text → List Text → List Text
append_arguments zero i argv out = out
append_arguments (suc fuel) i argv out =
    let one_more = λ (a : Text). append_arguments fuel (i + 1) argv (out ++ a ∷ []) in
    elim (get_elem? argv i) [ some a ↦ one_more a | none ↦ out ]

module _ {E Q H : Type 0} where
  -- `bootSystem` of the two systems; that of the other one is a parameter.
  unfoldable pub boot :
      (QemuSystem E Q H → Outcome (QemuSystem E Q H)) → System E Q H → Outcome (System E Q H)
  boot boot_qemu pseudo = throws thrown
  boot boot_qemu (qemu s) = do s' ← boot_qemu s; done (qemu s')

  -- Nor does the pseudo system make simulators, and it keeps no processors.
  unfoldable pub create_iss_any : System E Q H → Q → Outcome (QemuIss Q)
  create_iss_any pseudo q = throws thrown
  create_iss_any (qemu s) q = done (create_iss q)

  unfoldable pub register_cpu_any : Hart E Q → System E Q H → System E Q H
  register_cpu_any h pseudo = pseudo
  register_cpu_any h (qemu s) = qemu (register_cpu h s)

module _ {E Q H : Type 0} (kill : ℕ → H → H) where
  -- `cleanUp`, which the pseudo system inherits from the abstract one.
  unfoldable pub clean_up_any : System E Q H → Outcome (System E Q H)
  clean_up_any pseudo = done pseudo
  clean_up_any (qemu s) = do s' ← clean_up kill s; done (qemu s')

  -- `systemCleanUp` must not throw. With a signal it exits, and without one the program goes on, which
  -- then is at its end.
  unfoldable pub system_clean_up : ℕ → System E Q H → Exit E Q H
  system_clean_up signum s = elim (clean_up_any s) [
    | done s' ↦ if signum == 0 then exits 0 s' else exits signum s'
    | throws e ↦ terminates
    | blocked ↦ runs_on
  ]

  -- `eval_file` runs a script, with the arguments that it finds in `sys.argv`, on the system that there
  -- is. Nothing catches what it throws.
  unfoldable pub main :
      (Text → List Text → System E Q H → Outcome (System E Q H)) → List Text → Exit E Q H
  main eval_file argv =
      let argc = length argv in
      let run : Text → Exit E Q H = λ script.
        elim (eval_file script (append_arguments argc 1 argv []) pseudo) [
          | done s ↦ system_clean_up 0 s
          | throws e ↦ terminates
          | blocked ↦ runs_on
        ] in
      if ltb argc 2
      then exits 1 pseudo
      else elim (get_elem? argv 1) [ some script ↦ run script | none ↦ terminates ]

module _ {M : Type 0} where
  -- `getFuncPool`: a pool that is not there yet is made.
  unfoldable pub get_func_pool : Option (List (M → M)) → List (M → M)
  get_func_pool none = []
  get_func_pool (some pool) = pool

  -- The constructor of an embedded module, which a static object of each unit calls.
  unfoldable pub embedded_module : (M → M) → Option (List (M → M)) → Option (List (M → M))
  embedded_module func pool = some (get_func_pool pool ++ func ∷ [])

  unfoldable pub execute_functions : List (M → M) → M → M
  execute_functions [] m = m
  execute_functions (func ∷ pool) m = execute_functions pool (func m)

  -- The initialisation of the module `archXplore`.
  unfoldable pub arch_xplore_module : (M → M) → (M → M) → Option (List (M → M)) → M → M
  arch_xplore_module bind_sparta_modules bind_common_modules pool m =
      execute_functions (get_func_pool pool) (bind_common_modules (bind_sparta_modules m))
