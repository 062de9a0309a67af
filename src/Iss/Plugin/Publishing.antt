-- ===== src/Iss/Plugin/Publishing.antt =====
-- What the callbacks of a virtual processor publish.
use arch_xplore.Base.{
  List, [], ◌∷◌, ◌++◌, Bool, true, false, Option, none, some, ◌==◌, add64, done, ◌≡◌, refl, sym, ap,
  ◌∙◌, arith,
}
use arch_xplore.Cpu.Events.{ThreadEvent, insn_event}
use arch_xplore.Iss.Batches.{IsQuiet}
use arch_xplore.Iss.Ports.{PublisherPort}
use arch_xplore.Iss.Publisher.{EventPublisher, published}
use arch_xplore.Iss.Publisher.Laws.{publish_lem}
use arch_xplore.Iss.Publisher.Framing.{IsFramed, publish-IsFramed}
use arch_xplore.Iss.Cache.{InstCacheEntry}
use arch_xplore.Iss.Plugin.{Vcpu, publish_event, execute_entry, link, next_inst}

module _ {P : Type 0} (api : PublisherPort P) where
  -- All events that the virtual processor has published.
  abbrev pub events_of : Option (EventPublisher P) → List ThreadEvent
  events_of none = []
  events_of (some q) = published api q

  abbrev pub events : Vcpu P → List ThreadEvent
  events v = events_of v.publisher

  -- A virtual processor with a publisher whose messages are framed.
  abbrev pub IsLive : Vcpu P → Type 0
  IsLive v = (q : EventPublisher P) × (v.publisher ≡ some q) × IsFramed api q

  -- Nothing waits to be sent.
  abbrev pub IsFlushed : Vcpu P → Type 0
  IsFlushed v = (q : EventPublisher P) × (v.publisher ≡ some q) × (q.event_buffer ≡ [])

  pub record Publishes (force : Bool) (e : ThreadEvent) (v v' : Vcpu P) : Type 0 where
    pub live : IsLive v'
    pub appended : events v' ≡ events v ++ e ∷ []
    pub insts_same : v'.inst_counter ≡ v.inst_counter
    pub counted : v'.event_counter ≡ add64 v.event_counter 1
    pub last_same : v'.last_inst ≡ v.last_inst
    pub flushed : force ≡ true → IsFlushed v'

  -- Publishing from a live virtual processor, forced if the event is a sync event, returns; the event
  -- is appended and counted, the virtual processor stays live with its last instruction and its
  -- number of instructions, and if it was forced nothing waits to be sent.
  pub publish_event_lem :
      (force : Bool) (e : ThreadEvent) (v : Vcpu P)
      → IsLive v
      → (force ≡ false → IsQuiet e)
      → (v' : Vcpu P) × (publish_event api force e v ≡ done v') × Publishes force e v v'
  unfolding publish_event
  publish_event_lem force e v (q, there, framed) quiet =
      let (q', returned, grown, room, empty) = publish_lem api force e q framed.room in
      let v' = record v { event_counter = add64 v.event_counter 1; publisher = some q' } in
      (
        v',
        rw (there, returned),
        record {
          live = (q', refl, publish-IsFramed api force e q q' framed quiet returned);
          appended = grown ∙ ap (λ o. events_of o ++ e ∷ []) (sym there);
          insts_same = refl;
          counted = refl;
          last_same = refl;
          flushed = λ forced. (q', refl, empty forced);
        },
      )

  -- The first instruction of a virtual processor publishes nothing.
  pub execute_entry_first :
      (x : InstCacheEntry) (v : Vcpu P)
      → v.inst_counter ≡ 0
      → execute_entry api x v
        ≡ done (record v {
          inst_counter = add64 v.inst_counter 1;
          last_inst = next_inst v.last_inst v.inst_counter x;
        })
  unfolding execute_entry
  execute_entry_first x v first = ground arith

  -- On a live virtual processor every instruction but the first publishes the one before it, linked
  -- to this one, which is the last instruction then; both counters go up by one.
  pub execute_entry_next :
      (x : InstCacheEntry) (v : Vcpu P)
      → IsLive v
      → (v.inst_counter == 0) ≡ false
      → (v' : Vcpu P) × (execute_entry api x v ≡ done v')
        × IsLive v'
        × (events v' ≡ events v ++ insn_event v.event_counter (link v.last_inst x) ∷ [])
        × (v'.inst_counter ≡ add64 v.inst_counter 1)
        × (v'.event_counter ≡ add64 v.event_counter 1)
        × (v'.last_inst ≡ next_inst (link v.last_inst x) v.inst_counter x)
  unfolding execute_entry
  execute_entry_next x v live later =
      let l = link v.last_inst x in
      let v0 = record v { last_inst = l } in
      let (w, returned, p) =
        publish_event_lem false (insn_event v.event_counter l) v0 live (λ _. refl) in
      (
        record w {
          inst_counter = add64 w.inst_counter 1;
          last_inst = next_inst w.last_inst w.inst_counter x;
        },
        rw (later, returned),
        p.live,
        p.appended,
        ap (λ n. add64 n 1) p.insts_same,
        p.counted,
        rw (p.last_same, p.insts_same),
      )
