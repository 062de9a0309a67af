-- ===== src/Iss/Channel/Tests.antt =====
-- Tests of the two ends of a channel, over a queue that is a list and fails a given number of times.
use arch_xplore.Base.{
  ℕ, zero, suc, ◌<◌, List, [], ◌∷◌, ◌++◌, Bool, true, false, Option, none, some, length, map, ◌≡◌,
  ◌⊎◌, inl, refl, arith,
}
use arch_xplore.Cpu.Events.{ThreadEvent}
use arch_xplore.Iss.Config.{Message, message_buffer_size, message_vector_size}
use arch_xplore.Iss.Examples.{event_at, call_event}
use arch_xplore.Iss.Channel.{
  Medium, was_read, was_dropped, event_of, Channel, new_channel, writer, reader, publish,
  send_refused, send_accepted, take_found, try_take_found, pop_front, Reaches, here, later, to_come,
}
use arch_xplore.Iss.Channel.Order.{channel_order}
use arch_xplore.Iss.Channel.Progress.{channel_delivers}

record Wire : Type 0 where
  messages : List Message
  failing : ℕ

abbrev offer : ℕ → Wire → Message → Bool × Wire
offer zero w m = (true, record w { messages = w.messages ++ m ∷ [] })
offer (suc n) w m = (false, record w { failing = n })

abbrev take_first : List Message → Wire → Option Message × Wire
take_first [] w = (none, w)
take_first (m ∷ ms) w = (some m, record w { messages = ms })

offer_accepted :
    (n : ℕ) (w : Wire) (m : Message)
    → (offer n w m).0 ≡ true
    → (offer n w m).1.messages ≡ w.messages ++ m ∷ []
offer_accepted zero w m h = refl
offer_accepted (suc n) w m h = absurd (ground arith)

offer_refused :
    (n : ℕ) (w : Wire) (m : Message)
    → w.failing ≡ n
    → (offer n w m).0 ≡ false
    → ((offer n w m).1.messages ≡ w.messages) × ((offer n w m).1.failing < w.failing)
offer_refused zero w m e h = absurd (ground arith)
offer_refused (suc n) w m e h = (refl, omega arith)

take_first_took :
    (q : List Message) (w : Wire) (m : Message)
    → (take_first q w).0 ≡ some m
    → q ≡ m ∷ (take_first q w).1.messages
take_first_took [] w m h = absurd (ground arith)
take_first_took (x ∷ q) w m h = ground arith

take_first_missed :
    (q : List Message) (w : Wire)
    → w.messages ≡ q
    → (take_first q w).0 ≡ none
    → (q ≡ []) × ((take_first q w).1.messages ≡ [])
take_first_missed [] w e h = (refl, e)
take_first_missed (x ∷ q) w e h = absurd (ground arith)

abbrev fifo : Medium Wire
fifo = record {
  publish_copy_of = λ w m. offer w.failing w m;
  take_chunk = λ w. take_first w.messages w;
  in_flight = λ w. w.messages;
  failures = λ w. w.failing;
  capacity = message_buffer_size;
  some_capacity = omega arith;
  accepted = λ w m. offer_accepted w.failing w m;
  refused = λ w m. offer_refused w.failing w m refl;
  took = λ w m. take_first_took w.messages w m;
  missed = λ w. take_first_missed w.messages w refl;
}

abbrev first : ThreadEvent
first = event_at 0 64

abbrev second : ThreadEvent
second = call_event 1

abbrev third : ThreadEvent
third = call_event 2

abbrev fourth : ThreadEvent
fourth = event_at 3 68

-- Two events were published, the second of them forced; they were sent at the second attempt and
-- taken, and one was read. A third was sent, and `tryTake` took it: the second is lost. A fourth is
-- being sent.
abbrev midway : Channel Wire
midway = record {
  writer_buffer = fourth ∷ [];
  sending = true;
  medium = record { messages = []; failing = 0 };
  reader_buffer = third ∷ [];
  header = 0;
  published = first ∷ second ∷ third ∷ fourth ∷ [];
  passed = was_read first ∷ was_dropped second ∷ [];
}

abbrev wire : Wire
wire = record { messages = []; failing = 1 }

abbrev half_read : Channel Wire
half_read = record {
  writer_buffer = [];
  sending = false;
  medium = record { messages = []; failing = 0 };
  reader_buffer = first ∷ second ∷ [];
  header = 1;
  published = first ∷ second ∷ [];
  passed = was_read first ∷ [];
}

half_read_run : Reaches fifo (new_channel fifo wire) half_read
half_read_run =
    later
      (later
        (later
          (later
            (later (later here (writer (publish false first refl)))
              (writer (publish true second refl)))
            (writer (send_refused refl (omega arith) refl)))
          (writer (send_accepted refl (omega arith) refl)))
        (reader (take_found (first ∷ second ∷ []) refl refl)))
      (reader (pop_front first refl))

midway_run : Reaches fifo (new_channel fifo wire) midway
midway_run =
    later
      (later
        (later (later half_read_run (writer (publish true third refl)))
          (writer (send_accepted refl (omega arith) refl)))
        (reader (try_take_found (third ∷ []) refl)))
      (writer (publish true fourth refl))

channel_order_example :
    (midway.published ≡ (first ∷ second ∷ []) ++ (third ∷ fourth ∷ []))
    × ((midway.sending ≡ true) ⊎ (length midway.writer_buffer < message_vector_size))
channel_order_example = channel_order fifo wire midway refl midway_run

channel_delivers_example :
    (d : Channel Wire) × Reaches fifo midway d
    × (to_come fifo d ≡ [])
    × (d.published ≡ first ∷ second ∷ third ∷ fourth ∷ [])
    × (d.passed ≡ (was_read first ∷ was_dropped second ∷ []) ++ map was_read (third ∷ fourth ∷ []))
    × (d.published ≡ map event_of d.passed)
channel_delivers_example = channel_delivers fifo wire midway refl midway_run (inl refl)
