-- ===== src/Iss/Publisher/Laws.antt =====
-- Publishing never blocks for ever, and appends the event to the stream.
use arch_xplore.Base.{
  ℕ, zero, suc, ◌<◌, [], ◌∷◌, ◌++◌, Bool, true, length, length-append, concat-append, append_assoc,
  append-nil, Bool-cases, arith, ◌==◌, ◌||◌, done, false, ◌⊎◌, ◌≡◌, refl, ap, ◌∙◌, inl, inr,
}
use arch_xplore.Cpu.Events.{ThreadEvent}
use arch_xplore.Iss.Config.{Message, message_vector_size}
use arch_xplore.Iss.Ports.{PublisherPort}
use arch_xplore.Iss.Publisher.{
  EventPublisher, send, wait_for_subscribers, publish, published, emplace_back,
}

module _ {P : Type 0} (api : PublisherPort P) where
  open api use {sent, refusals, lonely}

  pub send_lem :
      (fuel : ℕ) (p : P) (m : Message)
      → refusals p < fuel
      → (p' : P) × (send api fuel p m ≡ done p') × (sent p' ≡ sent p ++ m ∷ [])
  unfolding send
  send_lem zero p m h = elim h [ ]
  send_lem (suc fuel) p m h = elim (Bool-cases (api.publish_copy_of p m).0) [
    | inl yes_sent ↦ ((api.publish_copy_of p m).1, rw yes_sent, api.accepted p m yes_sent)
    | inr not_sent ↦
        let (same, less) = api.refused p m not_sent in
        let (p', e, s) = send_lem fuel (api.publish_copy_of p m).1 m (omega arith) in
        (p', rw (not_sent, e), s ∙ ap (λ l. l ++ m ∷ []) same)
  ]

  pub wait_for_subscribers_lem :
      (fuel : ℕ) (p : P)
      → lonely p < fuel
      → (p' : P) × (wait_for_subscribers api fuel p ≡ done p') × (sent p' ≡ sent p)
  unfolding wait_for_subscribers
  wait_for_subscribers_lem zero p h = elim h [ ]
  wait_for_subscribers_lem (suc fuel) p h = elim (Bool-cases (api.has_subscribers p).0) [
    | inl there ↦ ((api.has_subscribers p).1, rw there, (api.polled p).0)
    | inr away ↦
        let less = (api.polled p).1 away in
        let (p', e, s) = wait_for_subscribers_lem fuel (api.has_subscribers p).1 (omega arith) in
        (p', rw (away, e), s ∙ (api.polled p).0)
  ]

  -- `publish` returns. Either the event is collected, or the whole buffer is sent with it.
  pub publish_cases :
      (force : Bool) (e : ThreadEvent) (q : EventPublisher P)
      → length q.event_buffer < message_vector_size
      → (q' : EventPublisher P) × (publish api force e q ≡ done q')
        × (((force ≡ false)
              × (length q'.event_buffer < message_vector_size)
              × (q'.event_buffer ≡ q.event_buffer ++ e ∷ [])
              × (sent q'.port ≡ sent q.port))
            ⊎ ((q'.event_buffer ≡ [])
                × (sent q'.port ≡ sent q.port ++ (q.event_buffer ++ e ∷ []) ∷ [])))
  unfolding publish
  publish_cases force e q h =
      let b = q.event_buffer ++ e ∷ [] in
      let room : emplace_back q.event_buffer e ≡ b = ground arith in
      elim (Bool-cases (length b == message_vector_size || force)) [
        | inl full ↦
            let (p', sending, now_sent) = send_lem (suc (refusals q.port)) q.port b (omega arith) in
            (
              record q { port = p'; event_buffer = [] },
              rw (room, full, sending),
              inr (refl, now_sent),
            )
        | inr open_yet ↦ (
          record q { event_buffer = b },
          rw (room, open_yet),
          inl (ground arith, ground (arith, length-append q.event_buffer (e ∷ [])), refl, refl),
        )
      ]

  -- The stream grows by the event at its end, whichever way it goes; the buffer has room again, and
  -- it is empty if sending was forced.
  pub publish_lem :
      (force : Bool) (e : ThreadEvent) (q : EventPublisher P)
      → length q.event_buffer < message_vector_size
      → (q' : EventPublisher P) × (publish api force e q ≡ done q')
        × (published api q' ≡ published api q ++ e ∷ [])
        × (length q'.event_buffer < message_vector_size)
        × (force ≡ true → q'.event_buffer ≡ [])
  publish_lem force e q h =
      let (q', returned, ways) = publish_cases force e q h in
      elim ways [
        | inl (lazy, room, b, s) ↦
            (q', returned, simp (b, s, append_assoc), room, λ forced. ground arith)
        | inr (b, s) ↦ (
          q',
          returned,
          simp (b, s, concat-append, append_assoc, append-nil),
          rw b (omega arith),
          λ _. b,
        )
      ]
