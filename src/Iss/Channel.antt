-- ===== src/Iss/Channel.antt =====
-- The two ends of an event channel together: the publisher in the emulator and the subscriber in the
-- simulator (include/iss/EventPublisher.hpp, include/iss/EventSubscriber.hpp) run in two processes and
-- share a queue of iceoryx. A step is one access of one end to the queue or to its own buffer, and the
-- steps of the two ends come in any order.
pub mod Order
pub mod Progress
mod Tests
use arch_xplore.Base.{
  ℕ, ◌+◌, ◌<◌, List, [], ◌∷◌, ◌++◌, Bool, true, false, ◌||◌, ◌==◌, Option, none, some, length,
  concat, drop, map, get_elem?, ◌≡◌,
}
use arch_xplore.Cpu.Events.{ThreadEvent}
use arch_xplore.Iss.Config.{Message, message_vector_size}
use arch_xplore.Iss.Publisher.{emplace_back}

-- The queue of iceoryx between a publisher that waits for its consumer and a subscriber that blocks
-- its producer. `in_flight` is what has been sent and not been taken. A call of publishCopyOf waits until
-- the queue has room; then it sends the message, or fails because no chunk of shared memory is free.
-- `failures` bounds how often it fails before one is free again.
pub record Medium (M : Type 0) : Type 0 where
  pub publish_copy_of : M → Message → Bool × M
  pub take_chunk : M → Option Message × M
  pub in_flight : M → List Message
  pub failures : M → ℕ
  pub capacity : ℕ
  pub some_capacity : 0 < capacity
  -- A message that is sent is the last of the queue; one that is not leaves the queue as it is.
  pub accepted :
      (m : M) (msg : Message)
      → (publish_copy_of m msg).0 ≡ true
      → in_flight (publish_copy_of m msg).1 ≡ in_flight m ++ msg ∷ []
  pub refused :
      (m : M) (msg : Message)
      → (publish_copy_of m msg).0 ≡ false
      → (in_flight (publish_copy_of m msg).1 ≡ in_flight m)
        × (failures (publish_copy_of m msg).1 < failures m)
  -- The first message is taken; none is taken only if the queue is empty.
  pub took :
      (m : M) (msg : Message)
      → (take_chunk m).0 ≡ some msg
      → in_flight m ≡ msg ∷ in_flight (take_chunk m).1
  pub missed :
      (m : M) → (take_chunk m).0 ≡ none → (in_flight m ≡ []) × (in_flight (take_chunk m).1 ≡ [])

-- An event that has left the subscriber: it was read and popped, or it was still unread when `tryTake`
-- put another message in the place of its own.
pub data Passage : Type 0 where
  was_read : ThreadEvent → Passage
  was_dropped : ThreadEvent → Passage

abbrev pub event_of : Passage → ThreadEvent
event_of (was_read e) = e
event_of (was_dropped e) = e

-- The members of the two ends and the queue between them. `sending`: the publisher is in its loop of
-- publishCopyOf. `published` and `passed` are not state of the program but its history: the events that
-- were given to `publish`, and what became of those that have left the subscriber.
pub record Channel (M : Type 0) : Type 0 where
  pub writer_buffer : Message
  pub sending : Bool
  pub medium : M
  pub reader_buffer : Message
  pub header : ℕ
  pub published : List ThreadEvent
  pub passed : List Passage

-- The test of `publish`, behind `emplace_back`.
abbrev pub is_sent_now : Bool → Message → Bool
is_sent_now force_publish buffer = length buffer == message_vector_size || force_publish

module _ {M : Type 0} (api : Medium M) where
  open api use {publish_copy_of, take_chunk, in_flight}

  -- A new channel, with nothing in its queue.
  abbrev pub new_channel : M → Channel M
  new_channel m = record {
    writer_buffer = [];
    sending = false;
    medium = m;
    reader_buffer = [];
    header = 0;
    published = [];
    passed = [];
  }

  abbrev pub collect : Bool → ThreadEvent → Channel M → Channel M
  collect force_publish e c =
      let buffer = emplace_back c.writer_buffer e in
      record c {
        writer_buffer = buffer;
        sending = is_sent_now force_publish buffer;
        published = c.published ++ e ∷ [];
      }

  -- What the publisher does to the channel.
  pub data WriterStep (c : Channel M) : Channel M → Type 0 where
    -- `publish`, up to its loop.
    publish :
        (force_publish : Bool) (e : ThreadEvent)
        → c.sending ≡ false
        → WriterStep c (collect force_publish e c)
    -- A round of the loop of `publish`: the call returns once the queue has room.
    send_refused :
        c.sending ≡ true
        → length (in_flight c.medium) < api.capacity
        → (publish_copy_of c.medium c.writer_buffer).0 ≡ false
        → WriterStep c (record c { medium = (publish_copy_of c.medium c.writer_buffer).1 })
    send_accepted :
        c.sending ≡ true
        → length (in_flight c.medium) < api.capacity
        → (publish_copy_of c.medium c.writer_buffer).0 ≡ true
        → WriterStep c (record c {
          medium = (publish_copy_of c.medium c.writer_buffer).1;
          writer_buffer = [];
          sending = false;
        })

  -- What the subscriber does to the channel.
  pub data ReaderStep (c : Channel M) : Channel M → Type 0 where
    -- `front` and `popFront`, where the message in hand is not at its end.
    pop_front :
        (e : ThreadEvent)
        → get_elem? c.reader_buffer c.header ≡ some e
        → ReaderStep c (record c { header = c.header + 1; passed = c.passed ++ was_read e ∷ [] })
    -- A round of the loop of `take`, which `front` calls at the end of the message in hand.
    take_found :
        (m : Message)
        → c.header ≡ length c.reader_buffer
        → (take_chunk c.medium).0 ≡ some m
        → ReaderStep c
            (record c { medium = (take_chunk c.medium).1; reader_buffer = m; header = 0 })
    take_missed :
        c.header ≡ length c.reader_buffer
        → (take_chunk c.medium).0 ≡ none
        → ReaderStep c (record c { medium = (take_chunk c.medium).1 })
    -- `tryTake`, wherever the message in hand is: what is unread of it is lost.
    try_take_found :
        (m : Message)
        → (take_chunk c.medium).0 ≡ some m
        → ReaderStep c (record c {
          medium = (take_chunk c.medium).1;
          reader_buffer = m;
          header = 0;
          passed = c.passed ++ map was_dropped (drop c.header c.reader_buffer);
        })
    try_take_missed :
        (take_chunk c.medium).0 ≡ none
        → ReaderStep c (record c { medium = (take_chunk c.medium).1 })

  pub data Step (c d : Channel M) : Type 0 where
    writer : WriterStep c d → Step c d
    reader : ReaderStep c d → Step c d

  pub data Reaches (c : Channel M) : Channel M → Type 0 where
    here : Reaches c c
    later : {d d' : Channel M} → Reaches c d → Step d d' → Reaches c d'

  -- What is still to be read, in order.
  abbrev pub to_come : Channel M → List ThreadEvent
  to_come c = drop c.header c.reader_buffer ++ (concat (in_flight c.medium) ++ c.writer_buffer)
