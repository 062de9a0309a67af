-- ===== src/Hart/Shared/Phases.antt =====
-- What an event makes of a hart that shares its process.
use arch_xplore.Base.{
  [], true, false, All, done, ◌≡◌, ◌⊎◌, inl, inr, refl, sym, ap, ◌∙◌, subst, arith, Bool-cases,
}
use arch_xplore.Cpu.Status.{inactive, completed}
use arch_xplore.Cpu.Core.{
  UniqueEvent, AbstractCpu, schedule_wake_up_monitor_event, cancel_wake_up_monitor_event,
}
use arch_xplore.Sys.Processes.{Process}
use arch_xplore.Iss.Queue.{EventQueue}
use arch_xplore.Hart.State.{Hart}
use arch_xplore.Hart.Spec.{IsEvent}
use arch_xplore.Hart.Fetch.{set_core}
use arch_xplore.Hart.Tick.{handle_wake_up_monitor_event, wake_up_monitor, wake_inactive}
use arch_xplore.Hart.TickLaws.{IsReady}
use arch_xplore.Hart.Waking.{cancel_monitor}
use arch_xplore.Hart.Running.{take_monitor, fire, IsRunning}
use arch_xplore.Hart.Completion.{changed}
use arch_xplore.Hart.Worker.{IsThread}
use arch_xplore.Hart.Worker.Waking.{asleep_step, pair_eq}
use arch_xplore.Hart.Shared.{share}

module _ {E Q : Type 0} {V : Q → Type 0} (ev : UniqueEvent E) (eq : EventQueue Q V) where
  open eq use {stream, unread, try_take}

  -- A hart that sleeps: no message is at hand, and it watches for one.
  pub record IsDormant (h : Hart E Q) : Type 0 where
    pub ready : IsReady ev eq h
    pub status : h.cpu.status ≡ inactive
    pub at_end : unread h.iss.event_queue ≡ []
    pub no_tick : ev.is_scheduled h.cpu.tick_event ≡ false
    pub watching : ev.is_scheduled h.cpu.wakeup_monitor_event ≡ true

  -- It sleeps and a thread is to come, or it runs one, or it sleeps and nothing is to come, or it is
  -- completed.
  pub data Phase (h : Hart E Q) : Type 0 where
    before_thread :
        IsDormant h
        → h.cpu.inst_buffer ≡ []
        → IsThread h.cpu.fetch_width (stream h.iss.event_queue)
        → Phase h
    in_thread : IsRunning ev eq h → Phase h
    behind_thread : IsDormant h → stream h.iss.event_queue ≡ [] → Phase h
    finished : h.cpu.status ≡ completed → ev.is_scheduled h.cpu.tick_event ≡ false → Phase h

  pub share-IsDormant : (p : Process) (h : Hart E Q) → IsDormant h → IsDormant (share p h)
  share-IsDormant p h d = record {
    ready = record { valid = d.ready.valid; events = d.ready.events; idle = d.ready.idle };
    status = d.status;
    at_end = d.at_end;
    no_tick = d.no_tick;
    watching = d.watching;
  }

  pub share-IsRunning :
      (p : Process) (h : Hart E Q) → IsRunning ev eq h → IsRunning ev eq (share p h)
  share-IsRunning p h r = record {
    ready = record { valid = r.ready.valid; events = r.ready.events; idle = r.ready.idle };
    links = r.links;
    ends = r.ends;
    scheduled = r.scheduled;
    waits = r.waits;
  }

  -- No phase depends on the process.
  pub share-Phase : (p : Process) (h : Hart E Q) → Phase h → Phase (share p h)
  share-Phase p h (before_thread d b t) = before_thread (share-IsDormant p h d) b t
  share-Phase p h (in_thread r) = in_thread (share-IsRunning p h r)
  share-Phase p h (behind_thread d e) = behind_thread (share-IsDormant p h d) e
  share-Phase p h (finished s n) = finished s n

  -- A sleeping hart without a message, of a process that is completed.
  completing_step :
      (h : Hart E Q) (q : Q)
      → h.cpu.status ≡ inactive
      → h.process.is_completed ≡ true
      → try_take h.iss.event_queue ≡ (false, q)
      → handle_wake_up_monitor_event ev eq h
        ≡ done (
            changed ev eq h
              (cancel_wake_up_monitor_event ev
                (record (schedule_wake_up_monitor_event ev h.cpu.core) { status = completed }))
              q)
  unfolding handle_wake_up_monitor_event wake_up_monitor wake_inactive
      schedule_wake_up_monitor_event
  completing_step h q s over nothing =
      ap
        (λ st. wake_up_monitor ev eq st (set_core h (schedule_wake_up_monitor_event ev h.cpu.core)))
        s
      ∙ rw (nothing, over)

  cancel-hart_id : (c : AbstractCpu E) → (cancel_wake_up_monitor_event ev c).hart_id ≡ c.hart_id
  unfolding cancel_wake_up_monitor_event
  cancel-hart_id c = ground arith

  -- What the monitor makes of a sleeping hart that gets no message: the hart is completed if its
  -- process is, and sleeps on otherwise; nothing else changes.
  pub record Waited (h h' : Hart E Q) : Type 0 where
    pub trace : h'.trace ≡ h.trace
    pub buffer : h'.cpu.inst_buffer ≡ h.cpu.inst_buffer
    pub width : h'.cpu.fetch_width ≡ h.cpu.fetch_width
    pub queue : h'.iss.event_queue ≡ (try_take h.iss.event_queue).1
    pub stream_same : stream h'.iss.event_queue ≡ stream h.iss.event_queue
    pub process : h'.process ≡ h.process
    pub hart_id : h'.cpu.hart_id ≡ h.cpu.hart_id
    pub now :
        ((h.process.is_completed ≡ true)
          × (h'.cpu.status ≡ completed)
          × (ev.is_scheduled h'.cpu.tick_event ≡ false))
        ⊎ ((h.process.is_completed ≡ false) × IsDormant h')

  pub fire-Waited :
      (h : Hart E Q)
      → IsDormant h
      → (try_take h.iss.event_queue).0 ≡ false
      → (h' : Hart E Q) × (fire ev eq h ≡ done h') × Waited h h'
  unfolding fire schedule_wake_up_monitor_event
  fire-Waited h d nothing =
      let q = (try_take h.iss.event_queue).1 in
      let (v, same, hand) = eq.try_take_lem h.iss.event_queue d.ready.valid d.at_end in
      let k = take_monitor ev eq h in
      let core = schedule_wake_up_monitor_event ev k.cpu.core in
      elim (Bool-cases h.process.is_completed) [
        | inl over ↦
            let core' = cancel_wake_up_monitor_event ev (record core { status = completed }) in
            let (_, tick_same, now) = cancel_monitor ev eq (record core { status = completed }) in
            (
              changed ev eq k core' q,
              rw (d.no_tick, d.watching)
                  (completing_step k q d.status over (pair_eq _ false nothing)),
              record {
                trace = refl;
                buffer = refl;
                width = refl;
                queue = refl;
                stream_same = same;
                process = refl;
                hart_id = cancel-hart_id (record core { status = completed });
                now = inl (over, now, ap ev.is_scheduled tick_same ∙ d.no_tick);
              },
            )
        | inr goes_on ↦ (
          changed ev eq k core q,
          rw (d.no_tick, d.watching)
              (asleep_step ev eq k q d.status goes_on (pair_eq _ false nothing)),
          record {
            trace = refl;
            buffer = refl;
            width = refl;
            queue = refl;
            stream_same = same;
            process = refl;
            hart_id = refl;
            now = inr (
              goes_on,
              record {
                ready = record {
                  valid = v;
                  events = subst (All IsEvent) (sym same) d.ready.events;
                  idle = d.ready.idle;
                };
                status = d.status;
                at_end = hand nothing;
                no_tick = d.no_tick;
                watching = ev.scheduled _;
              },
            );
          },
        )
      ]
