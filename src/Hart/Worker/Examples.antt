-- ===== src/Hart/Worker/Examples.antt =====
-- A hart that sleeps and is to get a thread, for the tests.
use arch_xplore.Base.{[], ◌∷◌, true, false, none, refl, arith}
use arch_xplore.Cpu.Status.{inactive}
use arch_xplore.Iss.Examples.{inbox, inst_at, event_at, call_event}
use arch_xplore.Iss.Subscriber.{stream}
use arch_xplore.Iss.Queue.{subscriber_queue}
use arch_xplore.Hart.Examples.{flag, queue, hart, first_message, last_message, H}
use arch_xplore.Hart.Spec.{insts, Fetched, fetch, fetch_head}
use arch_xplore.Hart.TickLaws.{IsReady}
use arch_xplore.Hart.Tick.{next_pc_of}
use arch_xplore.Hart.Worker.{IsThread, IsAsleep}

-- Hart 1, whose two messages are not there for three polls.
abbrev pub sleeper : H
sleeper =
    let h = hart 1 inactive false true 0 [] (first_message ∷ last_message ∷ []) in
    record h {
      iss = record h.iss {
        event_queue = record h.iss.event_queue {
          port = record { messages = first_message ∷ last_message ∷ []; delay = 3 };
        };
      };
    }

pub sleeper-IsReady : IsReady flag queue sleeper
unfolding subscriber_queue
sleeper-IsReady = record {
  valid = record {
    within = omega arith;
    rest = tt;
    batches = ((refl, (refl, tt)), ((refl, tt), tt));
  };
  events = (tt, (tt, (tt, (tt, (tt, tt)))));
  idle = refl;
}

pub sleeper-IsAsleep : IsAsleep flag queue sleeper
unfolding subscriber_queue
sleeper-IsAsleep = record {
  ready = sleeper-IsReady;
  status = refl;
  buffer = refl;
  at_end = refl;
  no_tick = refl;
  watching = refl;
  goes_on = refl;
}

abbrev first_fetch : Fetched
first_fetch = record {
  group = inst_at 64 ∷ inst_at 68 ∷ [];
  rest = call_event 2 ∷ last_message;
  ended = none;
}

pub sleeper-IsThread : IsThread 8 (stream inbox sleeper.iss.event_queue)
unfolding insts fetch fetch_head next_pc_of
sleeper-IsThread = record {
  head = event_at 0 64;
  tail = event_at 1 68 ∷ call_event 2 ∷ last_message;
  first = inst_at 64;
  fetched = first_fetch;
  split = refl;
  tag = refl;
  payload = refl;
  ends = (refl, (refl, (refl, (refl, (refl, (inst_at 76, refl))))));
  linked = (
    refl,
    (omega arith, omega arith, omega arith),
    (
      refl,
      (omega arith, omega arith, omega arith),
      (
        refl,
        (omega arith, omega arith, omega arith),
        (refl, (omega arith, omega arith, omega arith), tt),
      ),
    ),
  );
  fetches = refl;
  left = λ e. cc;
}
