-- ===== src/Iss/Subscriber.antt =====
-- include/iss/EventSubscriber.hpp: the reader of the event channel.
pub mod Laws
use arch_xplore.Base.{
  ℕ, zero, suc, ◌+◌, List, [], ◌++◌, Bool, true, false, Text, HartId, Option, none, some, length,
  concat, drop, get_elem?, ◌==◌, if◌then◌else◌, Outcome, done, throws, blocked, undefined_behaviour,
  or_throw, ◌>>=◌,
}
use arch_xplore.Cpu.Events.{ThreadEvent}
use arch_xplore.Iss.Config.{Message}
use arch_xplore.Iss.Ports.{SubscriberPort}

-- The iterator `m_event_buffer_header` is an index into the buffer.
pub record EventSubscriber (S : Type 0) : Type 0 where
  pub app_name : Text
  pub hart_id : HartId
  pub port : S
  pub event_buffer : Message
  pub header : ℕ

module _ {S : Type 0} (api : SubscriberPort S) where
  open api use {take_chunk, unsubscribe, incoming, delay}

  -- The loop of `take`: poll until a message is there.
  unfoldable pub poll : ℕ → S → Outcome (Message × S)
  poll zero s = blocked
  poll (suc fuel) s =
      let again = poll fuel (take_chunk s).1 in
      elim (take_chunk s).0 [ some m ↦ done (m, (take_chunk s).1) | none ↦ again ]

  -- Polling as often as the port can miss, and once more.
  unfoldable pub take : EventSubscriber S → Outcome (EventSubscriber S)
  take q = do
    (m, s) ← poll (suc (delay q.port)) q.port
    done (record q { port = s; event_buffer = m; header = 0 })

  unfoldable pub try_take : EventSubscriber S → Bool × EventSubscriber S
  try_take q = elim (take_chunk q.port).0 [
    | some m ↦ (true, record q { port = (take_chunk q.port).1; event_buffer = m; header = 0 })
    | none ↦ (false, record q { port = (take_chunk q.port).1 })
  ]

  -- `*m_event_buffer_header`, which must not be the end.
  unfoldable pub deref : EventSubscriber S → Outcome (ThreadEvent × EventSubscriber S)
  deref q = do e ← or_throw (get_elem? q.event_buffer q.header) undefined_behaviour; done (e, q)

  unfoldable pub front : EventSubscriber S → Outcome (ThreadEvent × EventSubscriber S)
  front q = if q.header == length q.event_buffer then (do q' ← take q; deref q') else deref q

  unfoldable pub pop_front : EventSubscriber S → EventSubscriber S
  pop_front q = record q { header = q.header + 1 }

  unfoldable pub shutdown : EventSubscriber S → EventSubscriber S
  shutdown q = record q { port = unsubscribe q.port }

  -- The destructor.
  unfoldable pub destroy : EventSubscriber S → EventSubscriber S
  destroy q = shutdown q

  -- What is left of the message in hand, and everything that is still to be read.
  abbrev pub unread : EventSubscriber S → List ThreadEvent
  unread q = drop q.header q.event_buffer

  abbrev pub stream : EventSubscriber S → List ThreadEvent
  stream q = unread q ++ concat (incoming q.port)

  -- while (m_subscriber->getSubscriptionState() != SUBSCRIBED) sleep; for as many polls as are given.
  unfoldable pub wait_until_subscribed : ℕ → S → Outcome S
  wait_until_subscribed zero s = blocked
  wait_until_subscribed (suc polls) s =
      let (there, s') = api.subscribed s in
      let again = wait_until_subscribed polls s' in if there then done s' else again

  -- The constructor, which ends in `init`.
  unfoldable pub construct : ℕ → Text → HartId → S → Outcome (EventSubscriber S)
  construct polls app hart s = do
    s' ← wait_until_subscribed polls s
    done (record { app_name = app; hart_id = hart; port = s'; event_buffer = []; header = 0 })
