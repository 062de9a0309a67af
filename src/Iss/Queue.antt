-- ===== src/Iss/Queue.antt =====
-- The interface between the channel and the simulator: a queue of events with the laws that a
-- reader relies on. The subscriber of this program is one.
use arch_xplore.Base.{ℕ, ◌<◌, List, [], ◌∷◌, Bool, true, false, Outcome, done, blocked, ◌≡◌, ◌≢◌}
use arch_xplore.Cpu.Events.{ThreadEvent}
use arch_xplore.Iss.Batches.{is_sync}
use arch_xplore.Iss.Ports.{SubscriberPort}
use arch_xplore.Iss.Subscriber.{EventSubscriber, front, pop_front, try_take, stream, unread}
use arch_xplore.Iss.Subscriber.Laws

pub record EventQueue (Q : Type 0) (IsValid : Q → Type 0) : Type 0 where
  pub front : Q → Outcome (ThreadEvent × Q)
  pub pop_front : Q → Q
  pub try_take : Q → Bool × Q
  -- All events that are still to be read, and those of them that are at hand.
  pub stream : Q → List ThreadEvent
  pub unread : Q → List ThreadEvent
  -- Where the stream has a head, `front` returns it and `pop_front` removes it; behind a sync event
  -- nothing is at hand.
  pub front_lem :
      (q : Q) (e : ThreadEvent) (es : List ThreadEvent)
      → IsValid q
      → stream q ≡ e ∷ es
      → (q' : Q) × (front q ≡ done (e, q'))
        × (stream q' ≡ e ∷ es)
        × IsValid q'
        × (stream (pop_front q') ≡ es)
        × IsValid (pop_front q')
        × (is_sync e ≡ true → unread (pop_front q') ≡ [])
  -- Where the stream is at its end, `front` never returns.
  pub front_blocks : (q : Q) → IsValid q → stream q ≡ [] → front q ≡ blocked
  -- Where nothing is at hand, `try_take` loses nothing.
  pub try_take_lem :
      (q : Q)
      → IsValid q
      → unread q ≡ []
      → IsValid (try_take q).1
        × (stream (try_take q).1 ≡ stream q)
        × ((try_take q).0 ≡ false → unread (try_take q).1 ≡ [])
  -- At the end of the stream nothing is at hand, and `try_take` fails.
  pub unread_none : (q : Q) → IsValid q → stream q ≡ [] → unread q ≡ []
  pub try_take_none : (q : Q) → IsValid q → stream q ≡ [] → (try_take q).0 ≡ false
  -- While an event is to come, `try_take` fails finitely often where nothing is at hand.
  pub delay : Q → ℕ
  pub try_take_waits :
      (q : Q)
      → IsValid q
      → unread q ≡ []
      → stream q ≢ []
      → (try_take q).0 ≡ false
      → delay (try_take q).1 < delay q

module _ {S : Type 0} (api : SubscriberPort S) where
  pub subscriber-front_lem :
      (q : EventSubscriber S) (e : ThreadEvent) (es : List ThreadEvent)
      → Laws.IsValid api q
      → stream api q ≡ e ∷ es
      → (q' : EventSubscriber S) × (front api q ≡ done (e, q'))
        × (stream api q' ≡ e ∷ es)
        × Laws.IsValid api q'
        × (stream api (pop_front api q') ≡ es)
        × Laws.IsValid api (pop_front api q')
        × (is_sync e ≡ true → unread api (pop_front api q') ≡ [])
  subscriber-front_lem q e es v h =
      let (q', returned, r) = Laws.front_lem api q e es v h in
      (q', returned, r.before, r.valid, r.after, r.valid_after, r.at_end)

  -- EventSubscriber is such a queue.
  unfoldable pub subscriber_queue : EventQueue (EventSubscriber S) (Laws.IsValid api)
  subscriber_queue = record {
    front = front api;
    pop_front = pop_front api;
    try_take = try_take api;
    stream = stream api;
    unread = unread api;
    front_blocks = Laws.front_blocks api;
    front_lem = subscriber-front_lem;
    try_take_lem = Laws.try_take_lem api;
    unread_none = λ q v. Laws.unread_none api q;
    try_take_none = Laws.try_take_none api;
    delay = λ q. api.delay q.port;
    try_take_waits = λ q v. Laws.try_take_waits api q;
  }
