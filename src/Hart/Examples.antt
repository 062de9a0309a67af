-- ===== src/Hart/Examples.antt =====
-- Harts at concrete states, for the tests.
use arch_xplore.Base.{List, [], ◌∷◌, Bool, true, false, Addr, HartId, refl, codes, All, arith}
use arch_xplore.Cpu.Status.{CpuStatus, active}
use arch_xplore.Cpu.Core.{UniqueEvent, construct}
use arch_xplore.Iss.Config.{Message}
use arch_xplore.Iss.Examples.{Inbox, inbox, event_at, last_event_at, call_event}
use arch_xplore.Iss.Subscriber.{EventSubscriber, stream}
use arch_xplore.Iss.Subscriber.Laws
use arch_xplore.Iss.Queue.{EventQueue, subscriber_queue}
use arch_xplore.Sys.Processes
use arch_xplore.Hart.State.{Hart, new_simple_cpu}
use arch_xplore.Hart.Spec.{IsEvent}
use arch_xplore.Hart.TickLaws.{IsReady}

-- An event of the scheduler that is there or is not.
abbrev pub flag : UniqueEvent Bool
flag = record {
  schedule = λ b. true;
  cancel = λ b. false;
  fire = λ b. false;
  is_scheduled = λ b. b;
  scheduled = λ b. refl;
  cancelled = λ b. refl;
  fired = λ b. refl;
}

abbrev pub queue : EventQueue (EventSubscriber Inbox) (Laws.IsValid inbox)
queue = subscriber_queue inbox

-- A hart of process 0, whose boot hart is hart 0, with messages to read and one in hand.
abbrev pub hart :
    HartId
    → CpuStatus
    → Bool
    → Bool
    → Addr
    → Message
    → List Message
    → Hart Bool (EventSubscriber Inbox)
hart id status ticks watches pc in_hand coming = record {
  cpu =
      new_simple_cpu
        (record (construct false pc id) {
          status = status;
          tick_event = ticks;
          wakeup_monitor_event = watches;
        })
        8 pc;
  iss = record {
    fetch_buffer = [];
    event_queue = record {
      app_name = codes "app";
      hart_id = id;
      port = record { messages = coming; delay = 0 };
      event_buffer = in_hand;
      header = 0;
    };
  };
  process = Processes.new_process 0 (codes "app") (codes "app") [] 0;
  trace = [];
}

-- Two instructions and a system call; the rest of the thread in a message of its own.
abbrev pub first_message : Message
first_message = event_at 0 64 ∷ event_at 1 68 ∷ call_event 2 ∷ []

abbrev pub last_message : Message
last_message = event_at 3 72 ∷ last_event_at 4 76 ∷ []

abbrev pub H : Type 0
H = Hart Bool (EventSubscriber Inbox)

-- An active boot hart before its first instruction.
abbrev pub running : H
running = hart 0 active true false 64 first_message (last_message ∷ [])

pub running-IsValid : Laws.IsValid inbox running.iss.event_queue
running-IsValid = record {
  within = omega arith;
  rest = (refl, (refl, tt));
  batches = ((refl, tt), tt);
}

pub running-events : All IsEvent (stream inbox running.iss.event_queue)
running-events = (tt, (tt, (tt, (tt, (tt, tt)))))

pub running-IsReady : IsReady flag queue running
unfolding subscriber_queue
running-IsReady = record { valid = running-IsValid; events = running-events; idle = refl }
