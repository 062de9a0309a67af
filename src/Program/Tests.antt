-- ===== src/Program/Tests.antt =====
-- The program with a script that registers processes.
use arch_xplore.Base.{
  ℕ, suc, List, [], ◌∷◌, Bool, true, false, Text, codes, done, Outcome, ◌≡◌, refl, arith,
}
use arch_xplore.Sys.Processes
use arch_xplore.Sys.Boot.{QemuSystem}
use arch_xplore.Sys.CleanUp.{Signalled, is_running_at}
use arch_xplore.Program.{System, pseudo, qemu, exits, terminates, main}
use arch_xplore.Program.Laws.{main_lem, main-terminates}

abbrev Board : Type 0
Board = QemuSystem Unit Unit ℕ

-- A handle counts the signals it was sent.
abbrev add_signal : ℕ → ℕ → ℕ
add_signal sig h = suc h

-- Two processes, the first of which is completed.
abbrev app : ℕ → Bool → Processes.Process
app pid is_completed = record (Processes.new_process pid (codes "app") (codes "app") [] 0) {
  is_completed = is_completed;
}

abbrev left : List ℕ → Board
left hs = record {
  app_name = codes "app";
  executable_path = codes "bin";
  processes = app 0 true ∷ app 1 false ∷ [];
  cpus = [];
  subprocesses = hs;
}

abbrev script : List ℕ → Text → List Text → System Unit Unit ℕ → Outcome (System Unit Unit ℕ)
script hs file args s = done (qemu (left hs))

main_lem_example :
    (s' : Board) × (main add_signal
        (script (0 ∷ 0 ∷ []))
        (codes "main" ∷ codes "run.py" ∷ codes "-v" ∷ [])
      ≡ exits 0 (qemu s'))
    × (s'.processes ≡ (left []).processes)
    × Signalled add_signal 0 (left []).processes (0 ∷ 0 ∷ []) s'.subprocesses
main_lem_example =
    main_lem add_signal (script (0 ∷ 0 ∷ [])) (codes "main") (codes "run.py") (codes "-v" ∷ [])
      (left (0 ∷ 0 ∷ [])) refl (refl, (refl, tt)) (omega arith)

process_runs : is_running_at 0 (left []).processes 1 ≡ true
unfolding is_running_at
process_runs = refl

main-terminates_example :
    main add_signal (script []) (codes "main" ∷ codes "run.py" ∷ []) ≡ terminates
main-terminates_example =
    main-terminates add_signal (script []) (codes "main") (codes "run.py") [] (left []) 1 refl refl
      process_runs

main_usage : main add_signal (script []) (codes "main" ∷ []) ≡ exits 1 pseudo
unfolding main
main_usage = refl
