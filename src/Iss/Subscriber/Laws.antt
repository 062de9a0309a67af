-- ===== src/Iss/Subscriber/Laws.antt =====
-- The subscriber reads the events of its channel in order, and loses none.
use arch_xplore.Base.{
  concat, ℕ, zero, suc, ◌+◌, ◌<◌, ◌≤◌, List, [], ◌∷◌, ◌++◌, true, false, length, All, drop_cases,
  drop, done, blocked, arith, Option-cases, ◌≡◌, ◌≢◌, ◌⊎◌, inl, inr, refl, sym, ap, ◌∙◌,
}
use arch_xplore.Cpu.Events.{ThreadEvent}
use arch_xplore.Iss.Config.{Message}
use arch_xplore.Iss.Batches.{
  is_sync, IsBatch, IsRest, IsRest-tail, IsRest-sync, IsBatch-IsRest, IsBatch-ne, concat-batches,
}
use arch_xplore.Iss.Ports.{SubscriberPort}
use arch_xplore.Iss.Subscriber.{
  EventSubscriber, poll, take, try_take, deref, front, pop_front, unread, stream,
}

append-none : {A : Type 0} (xs ys : List A) → xs ++ ys ≡ [] → xs ≡ []
append-none [] ys h = refl
append-none (x ∷ xs) ys h = absurd (ground arith)

right-none : {A : Type 0} (xs ys : List A) → xs ++ ys ≡ [] → ys ≡ []
right-none [] ys h = h
right-none (x ∷ xs) ys h = absurd (ground arith)

module _ {S : Type 0} (api : SubscriberPort S) where
  open api use {incoming, delay, take_chunk}

  pub record IsValid (q : EventSubscriber S) : Type 0 where
    pub within : q.header ≤ length q.event_buffer
    pub rest : IsRest (unread api q)
    pub batches : All IsBatch (incoming q.port)

  pub poll_lem :
      (fuel : ℕ) (s : S)
      → incoming s ≢ []
      → delay s < fuel
      → (m : Message) × (s' : S) × (poll api fuel s ≡ done (m, s')) × (incoming s ≡ m ∷ incoming s')
  unfolding poll
  poll_lem zero s some_more h = elim h [ ]
  poll_lem (suc fuel) s some_more h = elim (Option-cases (take_chunk s).0) [
    | inl nothing ↦
        let (same, less) = api.missed s nothing in
        let (m, s', e, i) =
          poll_lem fuel (take_chunk s).1 (λ e. some_more (sym same ∙ e))
            (omega (arith, less some_more)) in
        (m, s', rw (nothing, poll) e, sym same ∙ i)
    | inr (m, found) ↦ (m, (take_chunk s).1, rw (found, poll), api.took s m found)
  ]

  -- A poll never returns a message where none is to come.
  pub poll_none : (fuel : ℕ) (s : S) → incoming s ≡ [] → poll api fuel s ≡ blocked
  unfolding poll
  poll_none zero s e = refl
  poll_none (suc fuel) s e = elim (Option-cases (take_chunk s).0) [
    | inl nothing ↦
        rw (nothing, poll) (poll_none fuel (take_chunk s).1 ((api.missed s nothing).0 ∙ e))
    | inr (m, found) ↦ absurd (ground (arith, api.took s m found))
  ]

  -- What reading the head of the stream gives: the event, and a subscriber that stands before it;
  -- behind a sync event the message is at its end.
  pub record Reads (e : ThreadEvent) (es : List ThreadEvent) (q : EventSubscriber S) : Type 0 where
    pub before : stream api q ≡ e ∷ es
    pub valid : IsValid q
    pub after : stream api (pop_front api q) ≡ es
    pub valid_after : IsValid (pop_front api q)
    pub at_end : is_sync e ≡ true → unread api (pop_front api q) ≡ []

  deref-Reads :
      (q : EventSubscriber S) (e : ThreadEvent) (es : List ThreadEvent)
      → IsValid q
      → stream api q ≡ e ∷ es
      → unread api q ≢ []
      → (deref api q ≡ done (e, q)) × Reads e es q
  unfolding deref pop_front
  deref-Reads q e es v h more = elim (drop_cases q.event_buffer q.header v.within) [
    | inl (_, nothing) ↦ absurd (more nothing)
    | inr (x, here, lt, rest) ↦
        let same : x ≡ e = ground arith in
        let left : IsRest (x ∷ drop (q.header + 1) q.event_buffer) = rw rest at v.rest in
        (
          rw (here, same),
          record {
            before = h;
            valid = v;
            after = ground arith;
            valid_after = record {
              within = omega arith;
              rest = IsRest-tail x _ left;
              batches = v.batches;
            };
            at_end = λ s. IsRest-sync x _ left (rw same s);
          },
        )
  ]

  -- Once a message is taken, it is at hand whole.
  take_lem :
      (q : EventSubscriber S)
      → IsValid q
      → unread api q ≡ []
      → incoming q.port ≢ []
      → (q' : EventSubscriber S) × (take api q ≡ done q')
        × IsValid q'
        × (stream api q' ≡ stream api q)
        × (unread api q' ≢ [])
  unfolding take
  take_lem q v empty more =
      let (m, s', e, i) = poll_lem (suc (delay q.port)) q.port more (omega arith) in
      let b : IsBatch m × All IsBatch (incoming s') = rw i at v.batches in
      (
        record q { port = s'; event_buffer = m; header = 0 },
        rw e,
        record { within = omega arith; rest = IsBatch-IsRest m b.0; batches = b.1 },
        rw (empty, i),
        λ none_left. IsBatch-ne m b.0 none_left,
      )

  -- `front` of a valid subscriber returns the head of the stream whenever there is one. The subscriber
  -- stays valid and stands before that event; `popFront` then removes it from the stream, and behind a
  -- sync event the message in hand is read to its end.
  pub front_lem :
      (q : EventSubscriber S) (e : ThreadEvent) (es : List ThreadEvent)
      → IsValid q
      → stream api q ≡ e ∷ es
      → (q' : EventSubscriber S) × (front api q ≡ done (e, q')) × Reads e es q'
  unfolding front
  front_lem q e es v h = elim (drop_cases q.event_buffer q.header v.within) [
    | inl (at_end, nothing) ↦
        let (q', taken, v', same, some_more) = take_lem q v nothing (λ none_left. ground arith) in
        let (returned, reads) = deref-Reads q' e es v' (same ∙ h) some_more in
        (q', ground (arith, taken, returned), reads)
    | inr (x, here, lt, rest) ↦
        let (returned, reads) = deref-Reads q e es v h (λ none_left. ground arith) in
        (q, ground (arith, returned), reads)
  ]

  -- At the end of the stream `front` of a valid subscriber never returns.
  pub front_blocks : (q : EventSubscriber S) → IsValid q → stream api q ≡ [] → front api q ≡ blocked
  unfolding front take
  front_blocks q v h = elim (drop_cases q.event_buffer q.header v.within) [
    | inl (at_end, nothing) ↦
        let quiet : incoming q.port ≡ [] =
          concat-batches (incoming q.port) v.batches (rw nothing at h) in
        ground (arith, poll_none (suc (delay q.port)) q.port quiet)
    | inr (x, here, lt, rest) ↦ absurd (ground arith)
  ]

  -- `tryTake` that succeeds drops exactly what was left unread of the message in hand; one that
  -- fails drops nothing.
  pub try_take_skips :
      (q : EventSubscriber S)
      → (((try_take api q).0 ≡ true)
          × (stream api q ≡ unread api q ++ stream api (try_take api q).1))
        ⊎ (((try_take api q).0 ≡ false) × (stream api (try_take api q).1 ≡ stream api q))
  unfolding try_take
  try_take_skips q = elim (Option-cases (take_chunk q.port).0) [
    | inl nothing ↦
        inr (rw (nothing, try_take), rw (nothing, try_take, (api.missed q.port nothing).0))
    | inr (m, found) ↦ inl (rw (found, try_take), rw (found, try_take, api.took q.port m found))
  ]

  -- Where the message in hand is read to its end, `tryTake` keeps the subscriber valid and loses
  -- nothing; if it fails, nothing is at hand.
  pub try_take_lem :
      (q : EventSubscriber S)
      → IsValid q
      → unread api q ≡ []
      → IsValid (try_take api q).1
        × (stream api (try_take api q).1 ≡ stream api q)
        × ((try_take api q).0 ≡ false → unread api (try_take api q).1 ≡ [])
  unfolding try_take
  try_take_lem q v empty = elim (Option-cases (take_chunk q.port).0) [
    | inl nothing ↦
        let same = (api.missed q.port nothing).0 in
        (
          rw (nothing, try_take)
              (record { within = v.within; rest = v.rest; batches = rw same v.batches }),
          rw (nothing, try_take, same),
          rw (nothing, try_take) (λ _. empty),
        )
    | inr (m, found) ↦
        let i = api.took q.port m found in
        let b : IsBatch m × All IsBatch (incoming (take_chunk q.port).1) = rw i at v.batches in
        (
          rw (found, try_take)
              (record { within = omega arith; rest = IsBatch-IsRest m b.0; batches = b.1 }),
          rw (found, try_take, empty, i),
          rw (found, try_take) (λ e. cc),
        )
  ]

  -- A vain poll brings the next message closer.
  pub try_take_waits :
      (q : EventSubscriber S)
      → unread api q ≡ []
      → stream api q ≢ []
      → (try_take api q).0 ≡ false
      → delay (try_take api q).1.port < delay q.port
  unfolding try_take
  try_take_waits q empty more failed = elim (Option-cases (take_chunk q.port).0) [
    | inl nothing ↦
        let coming : incoming q.port ≢ [] = λ e. more (rw (empty, e)) in
        rw (nothing, try_take) ((api.missed q.port nothing).1 coming)
    | inr (m, found) ↦ absurd (ground arith)
  ]

  pub unread_none : (q : EventSubscriber S) → stream api q ≡ [] → unread api q ≡ []
  unread_none q none_left = append-none (unread api q) (concat (incoming q.port)) none_left

  -- At the end of the stream `tryTake` of a valid subscriber fails, since no message is empty.
  pub try_take_none :
      (q : EventSubscriber S) → IsValid q → stream api q ≡ [] → (try_take api q).0 ≡ false
  unfolding try_take
  try_take_none q v none_left = elim (Option-cases (take_chunk q.port).0) [
    | inl nothing ↦ rw (nothing, try_take)
    | inr (m, found) ↦
        let ahead = api.took q.port m found in
        let (b, _) : IsBatch m × All IsBatch (incoming (take_chunk q.port).1) =
          rw ahead at v.batches in
        let rest : concat (incoming q.port) ≡ [] = right-none (unread api q) _ none_left in
        absurd (
          IsBatch-ne m b (
            append-none m (concat (incoming (take_chunk q.port).1)) (ap concat (sym ahead) ∙ rest)))
  ]
