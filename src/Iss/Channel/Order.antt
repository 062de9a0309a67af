-- ===== src/Iss/Channel/Order.antt =====
-- The channel is a queue of events, in every order of the steps of its two ends.
use arch_xplore.Base.{
  ◌+◌, ◌<◌, ◌≤◌, List, [], ◌∷◌, ◌++◌, Bool, true, false, none, some, map, length, length-append,
  concat, concat-append, drop, drop_cases, get_elem?, get_elem?-lt, append_assoc, append-nil,
  list_laws, Bool-cases, ◌≡◌, ◌⊎◌, inl, inr, refl, sym, ap, ◌∙◌, arith,
}
use arch_xplore.Cpu.Events.{ThreadEvent}
use arch_xplore.Iss.Config.{Message, message_vector_size}
use arch_xplore.Iss.Publisher.{emplace_back}
use arch_xplore.Iss.Channel.{
  Medium, Passage, was_read, was_dropped, event_of, Channel, is_sent_now, new_channel, collect,
  WriterStep, publish, send_refused, send_accepted, ReaderStep, pop_front, take_found, take_missed,
  try_take_found, try_take_missed, Step, writer, reader, Reaches, here, later, to_come,
}

-- The events of what has left the subscriber.
abbrev pub events_of : List Passage → List ThreadEvent
events_of ps = map event_of ps

events_of-append : (ps qs : List Passage) → events_of (ps ++ qs) ≡ events_of ps ++ events_of qs
events_of-append [] qs = refl
events_of-append (p ∷ ps) qs = ap (◌∷◌ (event_of p)) (events_of-append ps qs)

events_of-dropped : (es : List ThreadEvent) → events_of (map was_dropped es) ≡ es
events_of-dropped [] = refl
events_of-dropped (e ∷ es) = ap (◌∷◌ e) (events_of-dropped es)

module _ {M : Type 0} (api : Medium M) where
  open api use {in_flight}

  pub record IsInOrder (c : Channel M) : Type 0 where
    -- What was published is what has left the subscriber and what is to come, in order.
    pub order : c.published ≡ events_of c.passed ++ to_come api c
    pub within : c.header ≤ length c.reader_buffer
    pub room : (c.sending ≡ true) ⊎ (length c.writer_buffer < message_vector_size)

  collect-IsInOrder :
      (c : Channel M) (force : Bool) (e : ThreadEvent)
      → c.sending ≡ false
      → IsInOrder c
      → IsInOrder (collect api force e c)
  collect-IsInOrder c force e idle i = elim i.room [
    | inl busy ↦ absurd (ground arith)
    | inr lt ↦
        let b = c.writer_buffer ++ e ∷ [] in
        let room : emplace_back c.writer_buffer e ≡ b = ground arith in
        record {
          order = rw room (ap (λ l. l ++ e ∷ []) i.order ∙ simp list_laws);
          within = i.within;
          room = rw room (elim (Bool-cases (is_sent_now force b)) [
            | inl now ↦ inl now
            | inr not_yet ↦ inr (ground (arith, length-append c.writer_buffer (e ∷ [])))
          ]);
        }
  ]

  pop_front-IsInOrder :
      (c : Channel M) (e : ThreadEvent)
      → get_elem? c.reader_buffer c.header ≡ some e
      → IsInOrder c
      → IsInOrder (record c { header = c.header + 1; passed = c.passed ++ was_read e ∷ [] })
  pop_front-IsInOrder c e found i = elim (drop_cases c.reader_buffer c.header i.within) [
    | inl (at_end, nothing) ↦ absurd (ground (arith, get_elem?-lt c.reader_buffer c.header e found))
    | inr (x, there, lt, rest) ↦
        let same : x ≡ e = ground arith in
        let rest_e = rest ∙ ap (λ y. y ∷ drop (c.header + 1) c.reader_buffer) same in
        record {
          order =
              i.order
              ∙ ap
                  (λ l.
                    events_of c.passed ++ (l ++ (concat (in_flight c.medium) ++ c.writer_buffer)))
                  rest_e
              ∙ sym (append_assoc (events_of c.passed) (e ∷ []) _)
              ∙ ap
                  (λ l.
                    l
                    ++ (drop (c.header + 1) c.reader_buffer
                        ++ (concat (in_flight c.medium) ++ c.writer_buffer)))
                  (sym (events_of-append c.passed (was_read e ∷ [])));
          within = omega arith;
          room = i.room;
        }
  ]

  pub sent_same :
      (c : Channel M)
      → (api.publish_copy_of c.medium c.writer_buffer).0 ≡ true
      → concat (in_flight (api.publish_copy_of c.medium c.writer_buffer).1) ++ []
        ≡ concat (in_flight c.medium) ++ c.writer_buffer
  sent_same c yes_sent =
      simp (api.accepted c.medium c.writer_buffer yes_sent, concat-append, append_assoc, append-nil)

  pub taken_same :
      (c : Channel M) (m : Message)
      → c.header ≤ length c.reader_buffer
      → c.header ≡ length c.reader_buffer
      → (api.take_chunk c.medium).0 ≡ some m
      → to_come api c ≡ m ++ (concat (in_flight (api.take_chunk c.medium).1) ++ c.writer_buffer)
  taken_same c m within at_end found = elim (drop_cases c.reader_buffer c.header within) [
    | inl (_, nothing) ↦ rw (nothing, api.took c.medium m found) (append_assoc m _ c.writer_buffer)
    | inr (x, there, lt, rest) ↦ absurd (omega arith)
  ]

  pub reached_same :
      (c : Channel M) (ms : List Message)
      → IsInOrder c
      → in_flight c.medium ≡ ms
      → c.published
        ≡ events_of c.passed ++ (drop c.header c.reader_buffer ++ (concat ms ++ c.writer_buffer))
  reached_same c ms i same =
      i.order
      ∙ ap
          (λ l.
            events_of c.passed ++ (drop c.header c.reader_buffer ++ (concat l ++ c.writer_buffer)))
          same

  try_take-IsInOrder :
      (c : Channel M) (m : Message)
      → (api.take_chunk c.medium).0 ≡ some m
      → IsInOrder c
      → IsInOrder (record c {
        medium = (api.take_chunk c.medium).1;
        reader_buffer = m;
        header = 0;
        passed = c.passed ++ map was_dropped (drop c.header c.reader_buffer);
      })
  try_take-IsInOrder c m found i =
      let unread = drop c.header c.reader_buffer in
      let rest = m ++ (concat (in_flight (api.take_chunk c.medium).1) ++ c.writer_buffer) in
      let behind : concat (in_flight c.medium) ++ c.writer_buffer ≡ rest =
        ap (λ ms. concat ms ++ c.writer_buffer) (api.took c.medium m found)
        ∙ append_assoc m (concat (in_flight (api.take_chunk c.medium).1)) c.writer_buffer in
      let passed : events_of (c.passed ++ map was_dropped unread) ≡ events_of c.passed ++ unread =
        events_of-append c.passed (map was_dropped unread)
        ∙ ap (◌++◌ (events_of c.passed)) (events_of-dropped unread) in
      record {
        order =
            i.order
            ∙ ap (λ l. events_of c.passed ++ (unread ++ l)) behind
            ∙ sym (append_assoc (events_of c.passed) unread rest)
            ∙ ap (λ l. l ++ rest) (sym passed);
        within = omega arith;
        room = i.room;
      }

  missed-IsInOrder :
      (c : Channel M)
      → (api.take_chunk c.medium).0 ≡ none
      → IsInOrder c
      → IsInOrder (record c { medium = (api.take_chunk c.medium).1 })
  missed-IsInOrder c nothing i = record {
    order =
        reached_same c _ i ((api.missed c.medium nothing).0 ∙ sym (api.missed c.medium nothing).1);
    within = i.within;
    room = i.room;
  }

  WriterStep-IsInOrder : (c d : Channel M) → WriterStep api c d → IsInOrder c → IsInOrder d
  WriterStep-IsInOrder c _ (publish force e idle) i = collect-IsInOrder c force e idle i
  WriterStep-IsInOrder c _ (send_refused busy room not_sent) i = record {
    order = reached_same c _ i (sym (api.refused c.medium c.writer_buffer not_sent).0);
    within = i.within;
    room = i.room;
  }
  WriterStep-IsInOrder c _ (send_accepted busy room yes_sent) i = record {
    order =
        i.order
        ∙ ap (λ l. events_of c.passed ++ (drop c.header c.reader_buffer ++ l))
            (sym (sent_same c yes_sent));
    within = i.within;
    room = inr (omega arith);
  }

  ReaderStep-IsInOrder : (c d : Channel M) → ReaderStep api c d → IsInOrder c → IsInOrder d
  ReaderStep-IsInOrder c _ (pop_front e found) i = pop_front-IsInOrder c e found i
  ReaderStep-IsInOrder c _ (take_found m at_end found) i = record {
    order = i.order ∙ ap (◌++◌ (events_of c.passed)) (taken_same c m i.within at_end found);
    within = omega arith;
    room = i.room;
  }
  ReaderStep-IsInOrder c _ (take_missed at_end nothing) i = missed-IsInOrder c nothing i
  ReaderStep-IsInOrder c _ (try_take_found m found) i = try_take-IsInOrder c m found i
  ReaderStep-IsInOrder c _ (try_take_missed nothing) i = missed-IsInOrder c nothing i

  pub Step-IsInOrder : (c d : Channel M) → Step api c d → IsInOrder c → IsInOrder d
  Step-IsInOrder c d (writer s) i = WriterStep-IsInOrder c d s i
  Step-IsInOrder c d (reader s) i = ReaderStep-IsInOrder c d s i

  pub Reaches-IsInOrder : (c d : Channel M) → Reaches api c d → IsInOrder c → IsInOrder d
  Reaches-IsInOrder c _ here i = i
  Reaches-IsInOrder c d (later {d = b} before step) i =
      Step-IsInOrder b d step (Reaches-IsInOrder c b before i)

  pub new_channel-IsInOrder : (m : M) → in_flight m ≡ [] → IsInOrder (new_channel api m)
  new_channel-IsInOrder m empty = record {
    order = rw empty;
    within = omega arith;
    room = inr (omega arith);
  }

  -- In every state that a new channel reaches, in whatever order the steps of its two ends come, the
  -- events that were published are those that have left the subscriber (read, or dropped by a `tryTake`
  -- that found a message while they were unread) and those that are to come, in order: those left of the
  -- message in hand, those of the messages in the queue, and those in the publisher's buffer; and the
  -- publisher is in its loop, or has room in its buffer.
  pub channel_order :
      (m : M) (c : Channel M)
      → in_flight m ≡ []
      → Reaches api (new_channel api m) c
      → (c.published ≡ events_of c.passed ++ to_come api c)
        × ((c.sending ≡ true) ⊎ (length c.writer_buffer < message_vector_size))
  channel_order m c empty run =
      let i = Reaches-IsInOrder (new_channel api m) c run (new_channel-IsInOrder m empty) in
      (i.order, i.room)
