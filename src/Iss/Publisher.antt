-- ===== src/Iss/Publisher.antt =====
-- include/iss/EventPublisher.hpp: events are collected, and sent a message at a time.
pub mod Laws
pub mod Framing
use arch_xplore.Base.{
  ℕ, zero, suc, List, [], ◌∷◌, ◌++◌, Bool, true, false, ◌||◌, Text, HartId, length, concat, ltb,
  ◌==◌, if◌then◌else◌, Outcome, done, blocked, ◌>>=◌,
}
use arch_xplore.Cpu.Events.{ThreadEvent}
use arch_xplore.Iss.Config.{Message, message_vector_size}
use arch_xplore.Iss.Ports.{PublisherPort}

pub record EventPublisher (P : Type 0) : Type 0 where
  pub app_name : Text
  pub hart_id : HartId
  pub port : P
  pub event_buffer : Message

-- `emplace_back` of a vector of fixed capacity refuses what does not fit.
abbrev pub emplace_back : Message → ThreadEvent → Message
emplace_back m e = if ltb (length m) message_vector_size then m ++ e ∷ [] else m

module _ {P : Type 0} (api : PublisherPort P) where
  open api use {has_subscribers, publish_copy_of, stop_offer, refusals, lonely}

  -- while (!m_publisher->publishCopyOf(m_event_buffer)) continue;
  unfoldable pub send : ℕ → P → Message → Outcome P
  send zero p m = blocked
  send (suc fuel) p m =
      let (sent_it, p') = publish_copy_of p m in
      let again = send fuel p' m in if sent_it then done p' else again

  -- while (!m_publisher->hasSubscribers()) sleep;
  unfoldable pub wait_for_subscribers : ℕ → P → Outcome P
  wait_for_subscribers zero p = blocked
  wait_for_subscribers (suc fuel) p =
      let (there, p') = has_subscribers p in
      let again = wait_for_subscribers fuel p' in if there then done p' else again

  -- The constructor, which ends in `init`.
  unfoldable pub construct : Text → HartId → P → Outcome (EventPublisher P)
  construct app hart p = do
    p' ← wait_for_subscribers (suc (lonely p)) p
    done (record { app_name = app; hart_id = hart; port = p'; event_buffer = [] })

  -- while (wait_for_subscribers && m_publisher->hasSubscribers()) sleep; for as many polls as are given.
  unfoldable pub wait_until_left : ℕ → P → Outcome P
  wait_until_left zero p = blocked
  wait_until_left (suc polls) p =
      let (there, p') = has_subscribers p in
      let again = wait_until_left polls p' in if there then again else done p'

  -- What waits to be sent is not sent.
  unfoldable pub shutdown : ℕ → Bool → EventPublisher P → Outcome (EventPublisher P)
  shutdown polls wait q = do
    p ← (if wait then wait_until_left polls q.port else done q.port)
    done (record q { port = stop_offer p })

  -- The destructor.
  unfoldable pub destroy : ℕ → EventPublisher P → Outcome (EventPublisher P)
  destroy polls q = shutdown polls true q

  unfoldable pub publish : Bool → ThreadEvent → EventPublisher P → Outcome (EventPublisher P)
  publish force_publish e q =
      let buffer = emplace_back q.event_buffer e in
      if length buffer == message_vector_size || force_publish
      then (do
        p' ← send (suc (refusals q.port)) q.port buffer
        done (record q { port = p'; event_buffer = [] }))
      else done (record q { event_buffer = buffer })

  -- Everything that was published, in order: what was sent, and what waits to be sent.
  abbrev pub published : EventPublisher P → List ThreadEvent
  published q = concat (api.sent q.port) ++ q.event_buffer
