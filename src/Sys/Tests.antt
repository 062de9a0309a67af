-- ===== src/Sys/Tests.antt =====
-- Tests of registering, booting and cleaning up at concrete states.
use arch_xplore.Base.{
  ℕ, ◌+◌, List, [], ◌∷◌, Bool, true, false, Text, codes, length, Outcome, done, throws, assertion,
  ◌≡◌, refl, arith,
}
use arch_xplore.Cpu.Status.{inactive}
use arch_xplore.Iss.Examples.{Inbox}
use arch_xplore.Iss.Subscriber.{EventSubscriber}
use arch_xplore.Hart.Examples.{flag, queue, hart}
use arch_xplore.Sys.Processes
use arch_xplore.Sys.Boot.{QemuSystem, boot_system, clean_up}
use arch_xplore.Sys.BootLaws.{place, Owned, boot_system_lem}
use arch_xplore.Sys.BootErrors.{boot_system_throws}
use arch_xplore.Sys.CleanUp.{Signalled, clean_up_lem}

abbrev app : ℕ → ℕ → Bool → Processes.Process
app pid harts is_completed = record (Processes.new_process pid (codes "app") (codes "app") [] 0) {
  max_harts = harts;
  is_completed = is_completed;
}

-- Two processes, of two harts and of one, on four harts; a subprocess is its command line.
abbrev board : List (List Text) → QemuSystem Bool (EventSubscriber Inbox) (List Text)
board hs = record {
  app_name = codes "app";
  executable_path = codes "bin";
  processes = app 0 2 true ∷ app 1 1 false ∷ [];
  cpus =
      hart 0 inactive false false 0 [] []
      ∷ hart 1 inactive false false 0 [] []
      ∷ hart 2 inactive false false 0 [] []
      ∷ hart 3 inactive false false 0 [] []
      ∷ [];
  subprocesses = hs;
}

-- A subprocess is known by its command.
abbrev popen : List Text → Outcome (List Text)
popen args = done args

starts : (args : List Text) → (h : List Text) × (popen args ≡ done h)
starts args = (args, refl)

boot_system_lem_example :
    (s' : QemuSystem Bool (EventSubscriber Inbox) (List Text)) × (boot_system flag queue popen
        (board [])
      ≡ done s')
    × (s'.processes ≡ place 0 (board []).processes)
    × (length s'.subprocesses ≡ 0 + 2)
    × Owned flag queue popen starts 0 (board []).processes (board []).cpus s'.cpus
boot_system_lem_example =
    boot_system_lem flag queue popen starts (board []) (omega arith) (omega arith)

clean_up_lem_example :
    (s' : QemuSystem Bool (EventSubscriber Inbox) (List Text)) × (clean_up
        (λ sig h. [])
        (board ((codes "a" ∷ []) ∷ (codes "b" ∷ []) ∷ []))
      ≡ done s')
    × (s'.processes ≡ (board []).processes)
    × Signalled
        (λ sig h. [])
        0
        (board []).processes
        ((codes "a" ∷ []) ∷ (codes "b" ∷ []) ∷ [])
        s'.subprocesses
clean_up_lem_example =
    clean_up_lem (λ sig h. []) (board ((codes "a" ∷ []) ∷ (codes "b" ∷ []) ∷ [])) (refl, (refl, tt))
      (omega arith)

-- The two processes on two harts only.
abbrev small_board : QemuSystem Bool (EventSubscriber Inbox) (List Text)
small_board = record (board []) {
  cpus = hart 0 inactive false false 0 [] [] ∷ hart 1 inactive false false 0 [] [] ∷ [];
}

boot_system_throws_example : boot_system flag queue popen small_board ≡ throws assertion
boot_system_throws_example =
    boot_system_throws flag queue popen starts small_board (omega arith) (omega arith)
