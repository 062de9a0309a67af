-- ===== src/Hart/Worker/Tests.antt =====
-- Tests of a hart between its threads at a concrete state.
use arch_xplore.Base.{ℕ, [], ◌++◌, true, false, done, ◌≡◌, refl}
use arch_xplore.Cpu.Status.{inactive}
use arch_xplore.Iss.Examples.{inbox}
use arch_xplore.Iss.Subscriber.{stream}
use arch_xplore.Iss.Queue.{subscriber_queue}
use arch_xplore.Hart.Examples.{flag, queue, first_message, last_message, H}
use arch_xplore.Hart.Spec.{insts}
use arch_xplore.Hart.Running.{run_events}
use arch_xplore.Hart.Worker.Cycle.{worker_lem}
use arch_xplore.Hart.Worker.Examples.{sleeper, sleeper-IsAsleep, sleeper-IsThread}

worker_lem_example :
    (n : ℕ) × (h' : H) × (run_events flag queue n sleeper ≡ done h')
    × (h'.cpu.status ≡ inactive)
    × (h'.cpu.tick_event ≡ false)
    × (h'.cpu.wakeup_monitor_event ≡ true)
    × (stream inbox h'.iss.event_queue ≡ [])
    × (h'.trace ++ h'.cpu.inst_buffer ≡ [] ++ insts (first_message ++ last_message))
unfolding subscriber_queue
worker_lem_example = worker_lem flag queue sleeper sleeper-IsAsleep refl sleeper-IsThread
