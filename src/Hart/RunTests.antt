-- ===== src/Hart/RunTests.antt =====
-- Tests of running a thread at concrete states.
use arch_xplore.Base.{ℕ, [], ◌∷◌, ◌++◌, true, false, some, done, ◌≡◌, ◌⊎◌, inl, refl, arith, add64}
use arch_xplore.Cpu.Status.{active}
use arch_xplore.Iss.Examples.{inbox, inst_at, last_event_at}
use arch_xplore.Iss.Subscriber.{stream, front, deref, poll, take, pop_front}
use arch_xplore.Iss.Queue.{subscriber_queue}
use arch_xplore.Cpu.Core.{schedule_next_tick_event}
use arch_xplore.Hart.Examples.{
  flag, queue, hart, first_message, last_message, H, running, running-IsReady,
}
use arch_xplore.Hart.Spec.{insts, Fetched, fetch, fetch_head}
use arch_xplore.Hart.Fetch.{
  generate_fetch_request, fetch_loop, fetch_event, pop_event, process_fetch_response,
  handle_syscall_api, handle_thread_api,
}
use arch_xplore.Hart.TickLaws.{IsReady}
use arch_xplore.Hart.Tick.{tick, next_pc_of, execute, push_instructions, handle_tick_event}
use arch_xplore.Hart.Running.{IsRunning, HasCompleted, run_events, fire, take_tick}
use arch_xplore.Hart.Reach.{here, ticks, Reaches-program}
use arch_xplore.Hart.Completion.{run_events-HasCompleted}
use arch_xplore.Hart.Leftover.{tick-leaves}

pub running-IsRunning : IsRunning flag queue running
unfolding subscriber_queue insts next_pc_of
running-IsRunning = record {
  ready = running-IsReady;
  links = (
    refl,
    (omega arith, omega arith, omega arith),
    (
      refl,
      (omega arith, omega arith, omega arith),
      (
        refl,
        (omega arith, omega arith, omega arith),
        (refl, (omega arith, omega arith, omega arith), tt),
      ),
    ),
  );
  ends = (refl, (refl, (refl, (refl, (refl, (inst_at 76, refl))))));
  scheduled = refl;
  waits = inl refl;
}

run_events-HasCompleted_example :
    (n : ℕ) × (h' : H) × (run_events flag queue n running ≡ done h')
    × HasCompleted flag queue h'
    × (h'.trace ++ h'.cpu.inst_buffer ≡ [] ++ ([] ++ insts (first_message ++ last_message)))
unfolding subscriber_queue
run_events-HasCompleted_example = run_events-HasCompleted flag queue running running-IsRunning refl

-- A fetch of two instructions that takes the end of the thread.
abbrev ending : H
ending = hart 0 active true false 72 last_message []

ending-IsReady : IsReady flag queue ending
unfolding subscriber_queue
ending-IsReady = record {
  valid = record { within = omega arith; rest = (refl, tt); batches = tt };
  events = (tt, (tt, tt));
  idle = refl;
}

abbrev both_instructions : Fetched
both_instructions = record {
  group = inst_at 72 ∷ inst_at 76 ∷ [];
  rest = [];
  ended = some (last_event_at 4 76);
}

fetched_end : fetch 72 (add64 72 8) (stream inbox ending.iss.event_queue) ≡ some both_instructions
unfolding fetch fetch_head
fetched_end = refl

tick-leaves_example :
    (h' : H) × (tick flag queue ending ≡ done h')
    × (h'.trace ≡ [] ++ inst_at 72 ∷ [])
    × (h'.cpu.inst_buffer ≡ inst_at 76 ∷ [])
    × (h'.cpu.tick_event ≡ false)
unfolding subscriber_queue
tick-leaves_example =
    tick-leaves flag queue ending both_instructions (last_event_at 4 76) (inst_at 72) (inst_at 76)
      [] ending-IsReady fetched_end refl refl refl

-- Behind its first tick.
abbrev ticked : H
ticked = record running {
  cpu = record running.cpu {
    core = record running.cpu.core { cycle = 1; instret = 1 };
    next_pc = 68;
    inst_buffer = inst_at 68 ∷ [];
  };
  iss = record { fetch_buffer = []; event_queue = record running.iss.event_queue { header = 2 } };
  trace = inst_at 64 ∷ [];
}

running_ticks : handle_tick_event flag queue (take_tick flag queue running) ≡ done ticked
unfolding handle_tick_event subscriber_queue front deref poll take pop_front tick
    generate_fetch_request fetch_loop fetch_event pop_event process_fetch_response
    schedule_next_tick_event execute push_instructions handle_syscall_api handle_thread_api
    next_pc_of
running_ticks = refl

Reaches-program_example :
    (ticked.trace ++ (ticked.cpu.inst_buffer ++ insts (stream inbox ticked.iss.event_queue))
      ≡ [] ++ ([] ++ insts (first_message ++ last_message)))
    × (HasCompleted flag queue ticked
        ⊎ (IsRunning flag queue ticked × ((k' : H) × (fire flag queue ticked ≡ done k'))))
unfolding subscriber_queue
Reaches-program_example =
    Reaches-program flag queue running ticked running-IsRunning refl
      (ticks running ticked here refl running_ticks)
