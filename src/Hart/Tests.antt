-- ===== src/Hart/Tests.antt =====
-- Tests of the processor at concrete states.
use arch_xplore.Base.{
  ◌+◌, ◌≤◌, List, [], ◌∷◌, ◌++◌, true, false, none, some, done, blocked, ◌≡◌, ◌⊎◌, inl, inr, refl,
  arith, add64, All,
}
use arch_xplore.Cpu.Insts.{StaticInst}
use arch_xplore.Cpu.Status.{inactive, active, blocked_syscall}
use arch_xplore.Iss.Config.{Message}
use arch_xplore.Iss.Examples.{inbox, inst_at, last_event_at, call_event}
use arch_xplore.Iss.Subscriber.{stream, front, try_take, deref, poll, take, pop_front}
use arch_xplore.Iss.Queue.{subscriber_queue}
use arch_xplore.Cpu.Core.{
  schedule_next_tick_event, cancel_next_tick_event, schedule_wake_up_monitor_event,
}
use arch_xplore.Iss.Subscriber.Laws
use arch_xplore.Hart.Examples.{
  flag, queue, hart, first_message, last_message, H, running, running-IsValid, running-events,
  running-IsReady,
}
use arch_xplore.Hart.Spec.{insts, Fetched, fetch, fetch_head, HasLast}
use arch_xplore.Hart.Takes.{IsRun}
use arch_xplore.Hart.Fetch.{
  generate_fetch_request, set_queue, init_cpu_state, fetch_loop, fetch_event, pop_event,
  process_fetch_response, finish_thread, handle_syscall_api, handle_thread_api,
}
use arch_xplore.Hart.Loops.{Fetches}
use arch_xplore.Hart.FetchLaws.{IsOver, generate_fetch_request_lem}
use arch_xplore.Hart.Runs.{generate_fetch_request-IsRun}
use arch_xplore.Hart.TickLaws.{IsReady, program, tick-program, tick_retires}
use arch_xplore.Hart.Tick.{
  tick, next_pc_of, reset, execute, push_instructions, handle_tick_event,
  handle_wake_up_monitor_event, start_up,
}
use arch_xplore.Hart.Scheduling.{IsScheduled, handle_tick_event_lem}
use arch_xplore.Hart.Waking.{wake_forgets_end}

abbrev two_instructions : Fetched
two_instructions = record {
  group = inst_at 64 ∷ inst_at 68 ∷ [];
  rest = call_event 2 ∷ last_message;
  ended = none;
}

fetched : fetch 64 (add64 64 8) (stream inbox running.iss.event_queue) ≡ some two_instructions
unfolding fetch fetch_head
fetched = refl

running-HasLast : HasLast (stream inbox running.iss.event_queue)
running-HasLast = inr (inr (inr (inr (inl refl))))

generate_fetch_request_lem_example :
    (h' : H) × (generate_fetch_request flag queue 64 8 running
      ≡ done (record h' {
        iss = record h'.iss { fetch_buffer = (inst_at 64 ∷ inst_at 68 ∷ []) ∷ [] };
      }))
    × Fetches flag queue two_instructions running h'
unfolding subscriber_queue
generate_fetch_request_lem_example =
    generate_fetch_request_lem flag queue 64 8 running two_instructions running-IsValid
      running-events fetched

generate_fetch_request-IsRun_example :
    (r : Fetched) × (h' : H) × (generate_fetch_request flag queue 64 8 running
      ≡ done (record h' { iss = record h'.iss { fetch_buffer = r.group ∷ [] } }))
    × IsRun 64 r.group
    × All (λ i. add64 i.pc i.len ≤ add64 64 8) r.group
    × (insts (first_message ++ last_message) ≡ r.group ++ insts (stream inbox h'.iss.event_queue))
unfolding subscriber_queue
generate_fetch_request-IsRun_example =
    generate_fetch_request-IsRun flag queue 64 8 running running-IsValid running-events
      running-HasLast

tick-program_example :
    (h' : H) × (tick flag queue running ≡ done h')
    × IsReady flag queue h'
    × (program flag queue h' ≡ program flag queue running)
    × (HasLast (stream inbox h'.iss.event_queue) ⊎ IsOver flag queue h')
unfolding subscriber_queue
tick-program_example = tick-program flag queue running running-IsReady running-HasLast

tick_retires_example :
    (h' : H) × (i : StaticInst) × (is : List StaticInst) × (tick flag queue running ≡ done h')
    × (running.cpu.inst_buffer ++ insts (stream inbox running.iss.event_queue) ≡ i ∷ is)
    × (h'.cpu.inst_buffer ++ insts (stream inbox h'.iss.event_queue) ≡ is)
    × (h'.trace ≡ [] ++ i ∷ [])
    × (h'.cpu.instret ≡ 0 + 1)
    × (h'.cpu.next_pc ≡ next_pc_of i)
unfolding subscriber_queue
tick_retires_example =
    tick_retires flag queue running running-IsReady running-HasLast
      (inr (inst_at 64, refl, refl, refl, refl))

handle_tick_event_lem_example :
    (h' : H) × (handle_tick_event flag queue running ≡ done h')
    × IsReady flag queue h'
    × IsScheduled flag queue h'
    × (program flag queue h' ≡ program flag queue running)
unfolding subscriber_queue
handle_tick_event_lem_example =
    handle_tick_event_lem flag queue running running-IsReady running-HasLast refl

-- A hart that waits in a system call, and one that has no work.
abbrev in_call : H
in_call = hart 0 blocked_syscall false true 72 [] (last_message ∷ [])

abbrev asleep : List Message → H
asleep coming = hart 1 inactive false true 0 [] coming

nothing_taken : (queue.try_take (asleep []).iss.event_queue).0 ≡ false
unfolding subscriber_queue try_take
nothing_taken = refl

-- One that gets a thread of one instruction: it is over with its first fetch.
abbrev woken : H
woken = asleep ((last_event_at 0 64 ∷ []) ∷ [])

message_taken : (queue.try_take woken.iss.event_queue).0 ≡ true
unfolding subscriber_queue try_take
message_taken = refl

abbrev at_start : H
at_start = set_queue woken (queue.try_take woken.iss.event_queue).1

abbrev started : H
started = record (hart 1 inactive false true 68 (last_event_at 0 64 ∷ []) []) {
  cpu = record woken.cpu {
    core = record woken.cpu.core { boot_pc = 64; instret = 1 };
    next_pc = 68;
  };
  iss = record {
    fetch_buffer = [];
    event_queue = record woken.iss.event_queue {
      port = record { messages = []; delay = 0 };
      event_buffer = last_event_at 0 64 ∷ [];
      header = 1;
    };
  };
  trace = inst_at 64 ∷ [];
}

starts : start_up flag queue at_start ≡ done started
unfolding start_up init_cpu_state subscriber_queue front try_take deref poll take pop_front tick
    generate_fetch_request fetch_loop reset fetch_event pop_event process_fetch_response
    finish_thread schedule_next_tick_event execute push_instructions cancel_next_tick_event
    schedule_wake_up_monitor_event handle_syscall_api handle_thread_api next_pc_of
starts = refl

started-IsValid : Laws.IsValid inbox started.iss.event_queue
started-IsValid = record { within = omega arith; rest = tt; batches = tt }

wake_forgets_end_example :
    (h' : H) × (handle_wake_up_monitor_event flag queue woken ≡ done h')
    × (h'.cpu.status ≡ active)
    × (handle_tick_event flag queue h' ≡ blocked)
unfolding schedule_wake_up_monitor_event subscriber_queue
wake_forgets_end_example =
    wake_forgets_end flag queue woken started refl message_taken starts started-IsValid refl refl
