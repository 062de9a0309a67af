-- ===== src/Iss/Channel/Progress.antt =====
-- While something is to be read or sent, an end of the channel can take a step that leaves less to do.
use arch_xplore.Base.{
  ℕ, zero, suc, ◌+◌, ◌<◌, List, [], ◌∷◌, ◌++◌, true, false, length, concat, drop, map, get_elem?,
  some, length-append, drop_cases, if◌then◌else◌, append_assoc, append-nil, Bool-cases,
  Option-cases, ◌≡◌, ◌⊎◌, inl, inr, refl, sym, ap, ◌∙◌, arith,
}
use arch_xplore.Cpu.Events.{ThreadEvent}
use arch_xplore.Iss.Config.{Message}
use arch_xplore.Iss.Channel.{
  Medium, Passage, was_read, event_of, Channel, new_channel, Step, writer, reader, send_accepted,
  send_refused, pop_front, take_found, Reaches, here, later, to_come,
}
use arch_xplore.Iss.Channel.Order.{
  IsInOrder, Step-IsInOrder, sent_same, taken_same, Reaches-IsInOrder, new_channel-IsInOrder,
  events_of,
}

module _ {M : Type 0} (api : Medium M) where
  open api use {in_flight, publish_copy_of, take_chunk, failures}

  abbrev work : Channel M → ℕ
  work c = length (to_come api c) + length (in_flight c.medium) + (if c.sending then 2 else 0)

  -- What has left the subscriber if all that is to come is read.
  abbrev in_the_end : Channel M → List Passage
  in_the_end c = c.passed ++ map was_read (to_come api c)

  -- Nothing is being sent, and nothing that was sent is left.
  record IsQuiet (c : Channel M) : Type 0 where
    pub idle : c.sending ≡ false
    pub read : drop c.header c.reader_buffer ≡ []
    pub empty : in_flight c.medium ≡ []

  -- What waits in the publisher is being sent.
  abbrev IsFlushed : Channel M → Type 0
  IsFlushed c = (c.sending ≡ true) ⊎ (c.writer_buffer ≡ [])

  record Advances (c d : Channel M) : Type 0 where
    pub step : Step api c d
    pub less : (work d < work c) ⊎ ((work d ≡ work c) × (failures d.medium < failures c.medium))
    pub published : d.published ≡ c.published
    pub passes : in_the_end d ≡ in_the_end c
    pub flushed : IsFlushed d

  -- An event of the message in hand is read.
  reads :
      (c : Channel M) (x : ThreadEvent)
      → get_elem? c.reader_buffer c.header ≡ some x
      → drop c.header c.reader_buffer ≡ x ∷ drop (c.header + 1) c.reader_buffer
      → IsFlushed c
      → (d : Channel M) × Advances c d
  reads c x found rest f =
      let behind = concat (in_flight c.medium) ++ c.writer_buffer in
      let left = drop (c.header + 1) c.reader_buffer ++ behind in
      let ahead : to_come api c ≡ x ∷ left = ap (λ l. l ++ behind) rest in
      let fewer = ap length ahead in
      (
        _,
        record {
          step = reader (pop_front x found);
          less = inl (omega (arith, fewer));
          published = refl;
          passes =
              append_assoc c.passed (was_read x ∷ []) (map was_read left)
              ∙ ap (λ l. c.passed ++ map was_read l) (sym ahead);
          flushed = f;
        },
      )

  -- The next message is taken.
  takes :
      (c : Channel M) (m : Message)
      → IsInOrder api c
      → c.header ≡ length c.reader_buffer
      → (take_chunk c.medium).0 ≡ some m
      → IsFlushed c
      → (d : Channel M) × Advances c d
  takes c m i at_end found f =
      let same = taken_same api c m i.within at_end found in
      let as_long = ap length same in
      let fewer = ap length (api.took c.medium m found) in
      (
        _,
        record {
          step = reader (take_found m at_end found);
          less = inl (omega (arith, as_long, fewer));
          published = refl;
          passes = ap (λ l. c.passed ++ map was_read l) (sym same);
          flushed = f;
        },
      )

  -- The publisher's call of publishCopyOf returns.
  sends :
      (c : Channel M)
      → c.sending ≡ true
      → length (in_flight c.medium) < api.capacity
      → (d : Channel M) × Advances c d
  sends c busy room = elim (Bool-cases (publish_copy_of c.medium c.writer_buffer).0) [
    | inr not_sent ↦
        let (kept, fewer) = api.refused c.medium c.writer_buffer not_sent in
        let same =
          ap (λ ms. drop c.header c.reader_buffer ++ (concat ms ++ c.writer_buffer)) kept in
        let as_long = ap length same in
        let as_many = ap length kept in
        (
          _,
          record {
            step = writer (send_refused busy room not_sent);
            less = inr (omega (arith, as_long, as_many), fewer);
            published = refl;
            passes = ap (λ l. c.passed ++ map was_read l) same;
            flushed = inl busy;
          },
        )
    | inl yes_sent ↦
        let same = ap (λ l. drop c.header c.reader_buffer ++ l) (sent_same api c yes_sent) in
        let as_long = ap length same in
        let one_more =
          ap length (api.accepted c.medium c.writer_buffer yes_sent)
          ∙ length-append (in_flight c.medium) (c.writer_buffer ∷ []) in
        let two = ap {B = ℕ} (λ b. if b then 2 else 0) busy in
        (
          _,
          record {
            step = writer (send_accepted busy room yes_sent);
            less = inl (omega (arith, as_long, one_more, two));
            published = refl;
            passes = ap (λ l. c.passed ++ map was_read l) same;
            flushed = inr refl;
          },
        )
  ]

  advances :
      (c : Channel M) → IsInOrder api c → IsFlushed c → IsQuiet c ⊎ ((d : Channel M) × Advances c d)
  advances c i f = elim (drop_cases c.reader_buffer c.header i.within) [
    | inr (x, found, lt, rest) ↦ inr (reads c x found rest f)
    | inl (at_end, none_left) ↦ elim (Option-cases (take_chunk c.medium).0) [
      | inr (m, found) ↦ inr (takes c m i at_end found f)
      | inl nothing ↦
          let (empty, _) = api.missed c.medium nothing in
          let no_messages = ap length empty in
          let room = api.some_capacity in
          elim (Bool-cases c.sending) [
            | inr idle ↦ inl (record { idle = idle; read = none_left; empty = empty })
            | inl busy ↦ inr (sends c busy (omega arith))
          ]
    ]
  ]

  Reaches-trans : {c d e : Channel M} → Reaches api c d → Reaches api d e → Reaches api c e
  Reaches-trans run here = run
  Reaches-trans run (later more step) = later (Reaches-trans run more) step

  quiet-to_come : (c : Channel M) → IsFlushed c → IsQuiet c → to_come api c ≡ []
  quiet-to_come c (inl busy) q = absurd (ground (arith, q.idle))
  quiet-to_come c (inr flushed) q = simp (q.read, q.empty, flushed)

  abbrev CanDeliver : Channel M → Type 0
  CanDeliver c =
      (d : Channel M) × Reaches api c d
      × (to_come api d ≡ [])
      × (d.published ≡ c.published)
      × (d.passed ≡ in_the_end c)

  deliver_next : (c d : Channel M) → Advances c d → CanDeliver d → CanDeliver c
  deliver_next c d a (e, run, over, same, read) =
      (e, Reaches-trans (later here a.step) run, over, same ∙ a.published, read ∙ a.passes)

  delivers_within :
      (n k : ℕ) (c : Channel M)
      → IsInOrder api c
      → IsFlushed c
      → work c < n
      → failures c.medium < k
      → CanDeliver c
  delivers_within zero k c i f small few = elim small [ ]
  delivers_within (suc n) zero c i f small few = elim few [ ]
  delivers_within (suc n) (suc k) c i f small few = elim (advances c i f) [
    | inl quiet ↦
        let over = quiet-to_come c f quiet in
        (c, here, over, refl, sym (ap (λ l. c.passed ++ map was_read l) over ∙ append-nil c.passed))
    | inr (d, a) ↦
        let j = Step-IsInOrder api c d a.step i in
        elim a.less [
          | inl less ↦ deliver_next c d a (
              delivers_within n (suc (failures d.medium)) d j a.flushed (omega arith) (omega arith))
          | inr (same, fewer) ↦
              deliver_next c d a
                (delivers_within (suc n) k d j a.flushed (omega arith) (omega arith))
        ]
  ]

  -- From every state that a new channel reaches, in whatever order the steps of its two ends came,
  -- and in which what waits in the publisher is being sent, the two ends can go on, without another
  -- event being published, until nothing is to come. What was to come has then been read, in order and
  -- none of it dropped, and what was published is what has left the subscriber. A call of publishCopyOf
  -- returns once the queue has room, and fails finitely often before it sends.
  pub channel_delivers :
      (m : M) (c : Channel M)
      → in_flight m ≡ []
      → Reaches api (new_channel api m) c
      → (c.sending ≡ true) ⊎ (c.writer_buffer ≡ [])
      → (d : Channel M) × Reaches api c d
        × (to_come api d ≡ [])
        × (d.published ≡ c.published)
        × (d.passed ≡ c.passed ++ map was_read (to_come api c))
        × (d.published ≡ map event_of d.passed)
  channel_delivers m c empty run flushed =
      let i = Reaches-IsInOrder api (new_channel api m) c run (new_channel-IsInOrder api m empty) in
      let (d, more, over, same, read) =
        delivers_within (suc (work c)) (suc (failures c.medium)) c i flushed (omega arith)
          (omega arith) in
      let j = Reaches-IsInOrder api c d more i in
      (
        d,
        more,
        over,
        same,
        read,
        j.order ∙ ap (◌++◌ (events_of d.passed)) over ∙ append-nil (events_of d.passed),
      )
