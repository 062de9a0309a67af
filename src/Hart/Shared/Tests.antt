-- ===== src/Hart/Shared/Tests.antt =====
-- Tests of the harts of one process at concrete states.
use arch_xplore.Base.{
  Bool, ℕ, zero, suc, List, [], ◌∷◌, ◌++◌, true, All, length, map, get_elem?, some, done, ◌≡◌, refl,
  subst, arith,
}
use arch_xplore.Cpu.Status.{completed}
use arch_xplore.Iss.Examples.{Inbox}
use arch_xplore.Iss.Subscriber.{EventSubscriber}
use arch_xplore.Iss.Queue.{subscriber_queue}
use arch_xplore.Hart.Examples.{flag, queue, first_message, last_message, H, running}
use arch_xplore.Hart.Spec.{insts}
use arch_xplore.Hart.TickLaws.{program}
use arch_xplore.Hart.Shared.{ProcessHarts, fire_harts}
use arch_xplore.Hart.Shared.Phases.{IsDormant, Phase, before_thread, in_thread}
use arch_xplore.Hart.Shared.Interleaving.{fire_harts_lem}
use arch_xplore.Hart.Shared.Ending.{IsDue, process_ends}
use arch_xplore.Hart.RunTests.{running-IsRunning}
use arch_xplore.Hart.Worker.Examples.{sleeper, sleeper-IsReady, sleeper-IsThread}

-- The boot hart in its thread, hart 1 before one.
abbrev both : ProcessHarts Bool (EventSubscriber Inbox)
both = record { process = running.process; harts = running ∷ sleeper ∷ [] }

sleeper-IsDormant : IsDormant flag queue sleeper
unfolding subscriber_queue
sleeper-IsDormant = record {
  ready = sleeper-IsReady;
  status = refl;
  at_end = refl;
  no_tick = refl;
  watching = refl;
}

both-Phase : All (Phase flag queue) both.harts
unfolding subscriber_queue
both-Phase =
    (in_thread running-IsRunning, (before_thread sleeper-IsDormant refl sleeper-IsThread, tt))

fire_harts_lem_example :
    (m' : ProcessHarts Bool (EventSubscriber Inbox)) × (fire_harts flag queue
        (1 ∷ 0 ∷ 1 ∷ 1 ∷ 0 ∷ [])
        both
      ≡ done m')
    × All (Phase flag queue) m'.harts
    × (map (program flag queue) m'.harts
        ≡ insts (first_message ++ last_message) ∷ insts (first_message ++ last_message) ∷ [])
    × (m'.process.boot_hart ≡ 0)
    × (length m'.harts ≡ 2)
unfolding subscriber_queue
fire_harts_lem_example =
    fire_harts_lem flag queue (1 ∷ 0 ∷ 1 ∷ 1 ∷ 0 ∷ []) both
      (omega arith, (omega arith, (omega arith, (omega arith, (omega arith, tt))))) both-Phase

both-IsDue :
    (j : ℕ) (k : H)
    → get_elem? both.harts j ≡ some k
    → IsDue flag queue 0 both.process.boot_hart j k
unfolding subscriber_queue
both-IsDue zero k there =
    let same : running ≡ k = ground arith in
    subst (IsDue flag queue 0 0 0) same
      (record { phase = in_thread running-IsRunning; going = λ e. cc; id = refl })
both-IsDue (suc zero) k there =
    let same : sleeper ≡ k = ground arith in
    subst (IsDue flag queue 0 0 1) same (record {
      phase = before_thread sleeper-IsDormant refl sleeper-IsThread;
      going = λ e. cc;
      id = refl;
    })
both-IsDue (suc (suc j)) k there = absurd (ground arith)

process_ends_example :
    (order : List ℕ) × (m' : ProcessHarts Bool (EventSubscriber Inbox)) × (fire_harts flag queue
        order both
      ≡ done m')
    × (m'.process.is_completed ≡ true)
    × All (λ k. k.cpu.status ≡ completed) m'.harts
    × (map (λ k. k.trace ++ k.cpu.inst_buffer) m'.harts
        ≡ insts (first_message ++ last_message) ∷ insts (first_message ++ last_message) ∷ [])
unfolding subscriber_queue
process_ends_example = process_ends flag queue 0 running both refl running-IsRunning refl both-IsDue
