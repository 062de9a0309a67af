-- ===== src/Hart/Guest/Tests.antt =====
-- A thread of three instructions and a system call, from the guest to the processor.
use arch_xplore.Base.{
  ℕ, List, [], ◌∷◌, ◌++◌, Bool, true, false, map, some, done, ◌≡◌, inr, refl, arith, codes,
}
use arch_xplore.Cpu.Insts.{StaticInst, zero_inst}
use arch_xplore.Cpu.Events.{insn_event}
use arch_xplore.Cpu.Status.{inactive}
use arch_xplore.Iss.Config.{Message}
use arch_xplore.Iss.Examples.{Outbox, outbox, Inbox, inbox}
use arch_xplore.Iss.Publisher.{EventPublisher, publish, send}
use arch_xplore.Iss.Subscriber.{EventSubscriber}
use arch_xplore.Iss.Queue.{subscriber_queue}
use arch_xplore.Iss.Cache.{InstCacheEntry}
use arch_xplore.Iss.Plugin.{Vcpu, next_inst, link, execute_entry, publish_event}
use arch_xplore.Iss.Plugin.Publishing.{IsLive, IsFlushed, events}
use arch_xplore.Iss.Plugin.Threads.{
  Action, executes, accesses, calls, call_event, exit_event, with_access, thread_events, act,
  run_thread, run_thread_lem,
}
use arch_xplore.Hart.State.{Hart}
use arch_xplore.Hart.Examples.{flag, hart}
use arch_xplore.Hart.Tick.{start_up}
use arch_xplore.Hart.Running.{HasCompleted, run_events}
use arch_xplore.Hart.Guest.{IsFresh, IsNew, guest_lem}

abbrev entry_at : ℕ → InstCacheEntry
entry_at pc = record { pc = pc; opcode = 19; len = 4 }

abbrev actions : List Action
actions = executes (entry_at 68) ∷ accesses 4096 2 true ∷ calls ∷ executes (entry_at 72) ∷ []

-- The channel refuses a message now and then.
abbrev opened : EventPublisher Outbox
opened = record {
  app_name = codes "app";
  hart_id = 0;
  port = record { messages = []; refusals = 1; lonely = 0 };
  event_buffer = [];
}

abbrev at_first : Vcpu Outbox
at_first = record {
  inst_counter = 0;
  event_counter = 0;
  last_inst = zero_inst;
  publisher = some opened;
}

at_first-IsFresh : IsFresh outbox at_first
at_first-IsFresh = record {
  live = (opened, refl, record { room = omega arith; quiet = tt; batches = tt });
  nothing = refl;
  no_insts = refl;
}

run_thread_lem_example :
    (v' : Vcpu Outbox) × (run_thread outbox 2 (executes (entry_at 64) ∷ actions) at_first ≡ done v')
    × IsLive outbox v'
    × IsFlushed outbox v'
    × (events outbox v' ≡ [] ++ thread_events 2 0 0 zero_inst (executes (entry_at 64) ∷ actions))
run_thread_lem_example =
    run_thread_lem outbox 2 (executes (entry_at 64) ∷ actions) at_first at_first-IsFresh.live

-- Its instructions as they are published, and the messages.
abbrev inst0 : StaticInst
inst0 = link (next_inst zero_inst 0 (entry_at 64)) (entry_at 68)

abbrev inst1 : StaticInst
inst1 = link (with_access (next_inst inst0 1 (entry_at 68)) 4096 2 true) (entry_at 72)

abbrev inst2 : StaticInst
inst2 = next_inst inst1 2 (entry_at 72)

abbrev messages : List Message
messages =
    (insn_event 0 inst0 ∷ call_event 1 ∷ []) ∷ (insn_event 2 inst1 ∷ exit_event 3 inst2 ∷ []) ∷ []

abbrev closed : EventPublisher Outbox
closed = record opened { port = record { messages = messages; refusals = 0; lonely = 0 } }

abbrev at_exit : Vcpu Outbox
at_exit = record { inst_counter = 3; event_counter = 4; last_inst = inst2; publisher = some closed }

exits : run_thread outbox 2 (executes (entry_at 64) ∷ actions) at_first ≡ done at_exit
unfolding run_thread act execute_entry publish_event publish send link next_inst
exits = refl

-- The boot hart, to which the messages come.
abbrev new_hart : Hart Bool (EventSubscriber Inbox)
new_hart = hart 0 inactive false false 0 [] messages

new_hart-IsNew : IsNew new_hart
new_hart-IsNew = record {
  trace = refl;
  buffer = refl;
  idle = refl;
  in_hand = refl;
  header = refl;
  is_boot = refl;
}

guest_lem_example :
    (h1 h2 : Hart Bool (EventSubscriber Inbox)) × (n : ℕ) × (start_up flag
        (subscriber_queue inbox)
        new_hart
      ≡ done h1)
    × (run_events flag (subscriber_queue inbox) n h1 ≡ done h2)
    × HasCompleted flag (subscriber_queue inbox) h2
    × (map (λ i. i.pc) (h2.trace ++ h2.cpu.inst_buffer) ≡ 64 ∷ 68 ∷ 72 ∷ [])
guest_lem_example =
    guest_lem outbox inbox flag 2 (entry_at 64) actions at_first at_exit closed new_hart
      at_first-IsFresh exits refl (omega arith)
      (
        (omega arith, omega arith, omega arith),
        ((omega arith, omega arith, omega arith), ((omega arith, omega arith, omega arith), tt)),
      )
      (inr (ground arith)) tt new_hart-IsNew refl
