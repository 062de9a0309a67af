-- ===== src/Hart/Guest.antt =====
-- The whole way of a thread: the guest's callbacks, the channel, and the boot hart that executes what
-- it reads from it.
mod Tests
use arch_xplore.Base.{
  ℕ, suc, ◌<◌, ◌^◌, List, [], ◌∷◌, ◌++◌, true, map, concat, some, Addr, EventId, length, ◌==◌,
  add64, ◌≡◌, ◌⊎◌, inl, inr, refl, sym, ap, ◌∙◌, arith, subst, All, done, append-nil,
}
use arch_xplore.Cpu.Insts.{StaticInst}
use arch_xplore.Cpu.Events.{ThreadEvent, insn_event, as_inst}
use arch_xplore.Cpu.Core.{UniqueEvent}
use arch_xplore.Iss.Batches.{IsBatch, IsRest}
use arch_xplore.Iss.Ports.{PublisherPort, SubscriberPort}
use arch_xplore.Iss.Publisher.{EventPublisher}
use arch_xplore.Iss.Publisher.Framing.{IsFramed}
use arch_xplore.Iss.Subscriber.{EventSubscriber, stream, unread}
use arch_xplore.Iss.Subscriber.Laws
use arch_xplore.Iss.Queue.{subscriber_queue}
use arch_xplore.Iss.Cache.{InstCacheEntry}
use arch_xplore.Iss.Plugin.{Vcpu, next_inst, link}
use arch_xplore.Iss.Plugin.Publishing.{IsLive, events, events_of}
use arch_xplore.Iss.Plugin.Threads.{
  Action, executes, accesses, calls, with_access, thread_events, run_thread, run_thread_lem,
}
use arch_xplore.Iss.Plugin.Threads.Links.{
  executed, AllFetchable, StartsAway, Reads, thread_events-Reads,
}
use arch_xplore.Hart.State.{Hart}
use arch_xplore.Hart.Spec.{insts, IsEvent}
use arch_xplore.Hart.Fetch.{is_instruction}
use arch_xplore.Hart.Links.{IsLinked, EndsLast}
use arch_xplore.Hart.TickLaws.{IsReady}
use arch_xplore.Hart.Tick.{start_up}
use arch_xplore.Hart.Running.{HasCompleted, HasEnded-HasCompleted, run_events, start_up-Runs}
use arch_xplore.Hart.Completion.{run_events-HasCompleted, ended-program, same_boot}

-- No system call before the second instruction: the first one has not been published by then.
abbrev pub CallsLater : List Action → Type 0
CallsLater [] = Unit
CallsLater (executes x ∷ as_) = Unit
CallsLater (accesses vaddr size_shift is_store ∷ as_) = CallsLater as_
CallsLater (calls ∷ as_) = ⊥

-- Such a thread is read from an instruction on.
abbrev StartsWith : Addr → List ThreadEvent → Type 0
StartsWith pc es =
    (e : ThreadEvent) × (rest : List ThreadEvent) × (i : StaticInst) × (es ≡ e ∷ rest)
    × (is_instruction e.tag ≡ true)
    × (as_inst e.payload ≡ some i)
    × (i.pc ≡ pc)

thread_events-StartsWith :
    (max_harts : ℕ) (id uid : EventId) (last : StaticInst) (as_ : List Action)
    → 0 < uid
    → CallsLater as_
    → StartsWith last.pc (thread_events max_harts id uid last as_)
unfolding thread_events link
thread_events-StartsWith max_harts id uid last [] pos later = (_, _, last, refl, refl, refl, refl)
thread_events-StartsWith max_harts id uid last (accesses vaddr size_shift is_store ∷ as_) pos
      later =
    thread_events-StartsWith max_harts id uid (with_access last vaddr size_shift is_store) as_ pos
      later
thread_events-StartsWith max_harts id uid last (calls ∷ as_) pos later = absurd later
thread_events-StartsWith max_harts id uid last (executes x ∷ as_) pos later = (
  insn_event id (link last x),
  thread_events max_harts (add64 id 1) (add64 uid 1) (next_inst (link last x) uid x) as_,
  link last x,
  ground arith,
  refl,
  refl,
  refl,
)

-- The whole thread, from the first instruction of a virtual processor on.
abbrev FromStart : ℕ → ℕ → InstCacheEntry → List Action → EventId → StaticInst → Type 0
FromStart width max_harts x as_ id last =
    Reads width (x.pc ∷ executed as_) x.pc (thread_events max_harts id 0 last (executes x ∷ as_))
    × StartsWith x.pc (thread_events max_harts id 0 last (executes x ∷ as_))

from_start :
    (width max_harts : ℕ) (id : EventId) (last : StaticInst) (x : InstCacheEntry)
    (as_ : List Action)
    → suc (length as_) < 2 ^ 64
    → AllFetchable width (executes x ∷ as_)
    → (last.br_info.redirect ≡ true) ⊎ StartsAway x.pc as_
    → CallsLater as_
    → FromStart width max_harts x as_ id last
unfolding next_inst thread_events
from_start width max_harts id last x as_ room all away later = (
  thread_events-Reads width max_harts id 1 (next_inst last 0 x) as_ (omega arith) (omega arith)
      all.0 all.1 away,
  thread_events-StartsWith max_harts id 1 (next_inst last 0 x) as_ (omega arith) later,
)

-- A hart that has not started: it has executed nothing, and has no message in hand.
pub record IsNew {E S : Type 0} (h : Hart E (EventSubscriber S)) : Type 0 where
  pub trace : h.trace ≡ []
  pub buffer : h.cpu.inst_buffer ≡ []
  pub idle : h.iss.fetch_buffer ≡ []
  pub in_hand : h.iss.event_queue.event_buffer ≡ []
  pub header : h.iss.event_queue.header ≡ 0
  pub is_boot : (h.cpu.hart_id == h.process.boot_hart) ≡ true

module _ {P : Type 0} (api : PublisherPort P) where
  -- A virtual processor that has published nothing yet.
  pub record IsFresh (v : Vcpu P) : Type 0 where
    pub live : IsLive api v
    pub nothing : events api v ≡ []
    pub no_insts : v.inst_counter ≡ 0

module _ {P : Type 0} (api : PublisherPort P) (max_harts : ℕ) where
  -- What the thread has sent when it is over: its events, in batches.
  sent_lem :
      (as_ : List Action) (v v' : Vcpu P) (q : EventPublisher P)
      → IsFresh api v
      → run_thread api max_harts as_ v ≡ done v'
      → v'.publisher ≡ some q
      → (concat (api.sent q.port) ≡ thread_events max_harts v.event_counter 0 v.last_inst as_)
        × All IsBatch (api.sent q.port)
  sent_lem as_ v v' q fresh ran there =
      let (w, ran', (l, l_there, framed), (f, f_there, flushed), ev_all) =
        run_thread_lem api max_harts as_ v fresh.live in
      let same : w ≡ v' = ground arith in
      let l_same : l ≡ q = ground arith in
      let f_same : f ≡ q = ground arith in
      let q_flushed : q.event_buffer ≡ [] = subst (λ p. p.event_buffer ≡ []) f_same flushed in
      let q_framed : IsFramed api q = subst (IsFramed api) l_same framed in
      (
        sym (append-nil (concat (api.sent q.port)))
            ∙ ap (λ b. concat (api.sent q.port) ++ b) (sym q_flushed)
            ∙ ap (events_of api) (sym (ap (λ u. u.publisher) same ∙ there))
            ∙ ev_all
            ∙ ap
                (λ es. es ++ thread_events max_harts v.event_counter v.inst_counter v.last_inst as_)
                fresh.nothing
            ∙ ap (λ n. thread_events max_harts v.event_counter n v.last_inst as_) fresh.no_insts,
        q_framed.batches,
      )

module _ {P S E : Type 0} (api : PublisherPort P) (port : SubscriberPort S)
    (ev : UniqueEvent E) where
  -- The hart that the message channel leads to: what it reads is what was sent.
  new_stream :
      (h : Hart E (EventSubscriber S)) (q : EventPublisher P) (es : List ThreadEvent)
      → IsNew h
      → port.incoming h.iss.event_queue.port ≡ api.sent q.port
      → concat (api.sent q.port) ≡ es
      → All IsBatch (api.sent q.port)
      → (stream port h.iss.event_queue ≡ es) × Laws.IsValid port h.iss.event_queue
  new_stream h q es new arrives all_sent batches =
      let none_unread : unread port h.iss.event_queue ≡ [] = rw (new.in_hand, new.header) in
      (
        ap (λ u. u ++ concat (port.incoming h.iss.event_queue.port)) none_unread
            ∙ ap concat arrives
            ∙ all_sent,
        record {
          within = omega (arith, new.header);
          rest = subst IsRest (sym none_unread) tt;
          batches = subst (All IsBatch) (sym arrives) batches;
        },
      )

  abbrev Executes : Hart E (EventSubscriber S) → List Addr → Type 0
  Executes h pcs =
      (h1 h2 : Hart E (EventSubscriber S)) × (n : ℕ) × (start_up ev (subscriber_queue port) h
        ≡ done h1)
      × (run_events ev (subscriber_queue port) n h1 ≡ done h2)
      × HasCompleted ev (subscriber_queue port) h2
      × (map (λ i. i.pc) (h2.trace ++ h2.cpu.inst_buffer) ≡ pcs)

  -- What the boot hart makes of a stream that it can read.
  new_runs :
      (h : Hart E (EventSubscriber S)) (pc : Addr) (pcs : List Addr) (es : List ThreadEvent)
      → IsNew h
      → stream port h.iss.event_queue ≡ es
      → Laws.IsValid port h.iss.event_queue
      → Reads h.cpu.fetch_width pcs pc es
      → StartsWith pc es
      → Executes h pcs
  unfolding subscriber_queue run_events
  new_runs h pc pcs es new ahead valid reads (e, rest, i, at_head, tag, payload, at_pc) =
      let eq = subscriber_queue port in
      let ready : IsReady ev eq h = record {
        valid = valid;
        events = subst (All IsEvent) (sym ahead) reads.events;
        idle = new.idle;
      } in
      let links : IsLinked h.cpu.fetch_width i.pc (h.cpu.inst_buffer ++ insts (e ∷ rest)) =
        subst (λ b. IsLinked h.cpu.fetch_width i.pc (b ++ insts (e ∷ rest))) (sym new.buffer)
          (subst (λ l. IsLinked h.cpu.fetch_width i.pc (insts l)) at_head
            (subst (λ a. IsLinked h.cpu.fetch_width a (insts es)) (sym at_pc) reads.linked)) in
      let (h1, started, prog, who, next) =
        start_up-Runs ev eq h e rest i ready (ahead ∙ at_head) tag payload
          (subst EndsLast at_head reads.ends) links in
      let whole : h.trace ++ (h.cpu.inst_buffer ++ insts (e ∷ rest)) ≡ insts es =
        ap (λ t. t ++ (h.cpu.inst_buffer ++ insts (e ∷ rest))) new.trace
        ∙ ap (λ b. b ++ insts (e ∷ rest)) new.buffer
        ∙ ap insts (sym at_head) in
      let boot = same_boot ev eq h h1 who new.is_boot in
      elim next [
        | inl run ↦
            let (n, h2, ran, over, same) = run_events-HasCompleted ev eq h1 run boot in
            (
              h1,
              h2,
              n,
              started,
              ran,
              over,
              ap (map (λ i. i.pc)) (same ∙ prog ∙ whole) ∙ reads.addresses,
            )
        | inr over ↦ (
          h1,
          h1,
          0,
          started,
          refl,
          HasEnded-HasCompleted ev eq h1 over boot,
          ap (map (λ i. i.pc)) (sym (ended-program ev eq h1 over) ∙ prog ∙ whole) ∙ reads.addresses,
        )
      ]

  -- The processor executes what the guest executed. If a fresh virtual processor runs a thread (an
  -- instruction first, no system call before the second one, each instruction within a fetch, the
  -- second one does not end where the first begins, fewer than 2 ^ 64 callbacks) and a new boot hart's channel
  -- brings what it has sent, then the hart starts up, completes after finitely many events of its
  -- scheduler, and the addresses that it has executed, with those left in its buffer, are those of the
  -- guest, in order.
  pub guest_lem :
      (max_harts : ℕ) (x : InstCacheEntry) (as_ : List Action) (v v' : Vcpu P)
      (q : EventPublisher P) (h : Hart E (EventSubscriber S))
      → IsFresh api v
      → run_thread api max_harts (executes x ∷ as_) v ≡ done v'
      → v'.publisher ≡ some q
      → suc (length as_) < 2 ^ 64
      → AllFetchable h.cpu.fetch_width (executes x ∷ as_)
      → (v.last_inst.br_info.redirect ≡ true) ⊎ StartsAway x.pc as_
      → CallsLater as_
      → IsNew h
      → port.incoming h.iss.event_queue.port ≡ api.sent q.port
      → (h1 h2 : Hart E (EventSubscriber S)) × (n : ℕ) × (start_up ev (subscriber_queue port) h
          ≡ done h1)
        × (run_events ev (subscriber_queue port) n h1 ≡ done h2)
        × HasCompleted ev (subscriber_queue port) h2
        × (map (λ i. i.pc) (h2.trace ++ h2.cpu.inst_buffer) ≡ x.pc ∷ executed as_)
  guest_lem max_harts x as_ v v' q h fresh ran there room all away later new arrives =
      let (all_sent, batches) = sent_lem api max_harts (executes x ∷ as_) v v' q fresh ran there in
      let (ahead, valid) = new_stream h q _ new arrives all_sent batches in
      let (reads, starts) =
        from_start h.cpu.fetch_width max_harts v.event_counter v.last_inst x as_ room all away
          later in
      new_runs h x.pc (x.pc ∷ executed as_) _ new ahead valid reads starts
