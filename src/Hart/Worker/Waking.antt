-- ===== src/Hart/Worker/Waking.antt =====
-- A firing of the monitor of a hart that sleeps.
use arch_xplore.Base.{
  ◌<◌, List, [], ◌∷◌, ◌++◌, Bool, true, false, done, ◌≡◌, ◌⊎◌, inl, inr, refl, sym, ap, ◌∙◌, subst,
  Bool-cases, All,
}
use arch_xplore.Cpu.Events.{ThreadEvent}
use arch_xplore.Cpu.Status.{inactive}
use arch_xplore.Cpu.Core.{UniqueEvent, schedule_wake_up_monitor_event}
use arch_xplore.Iss.Queue.{EventQueue}
use arch_xplore.Hart.State.{Hart}
use arch_xplore.Hart.Spec.{insts, IsEvent}
use arch_xplore.Hart.Fetch.{set_core}
use arch_xplore.Hart.TickLaws.{program, IsReady}
use arch_xplore.Hart.Effects.{IsSameHart}
use arch_xplore.Hart.Tick.{
  start_up, resume, handle_wake_up_monitor_event, wake_up_monitor, wake_inactive,
}
use arch_xplore.Hart.Running.{take_monitor, fire, IsRunning}
use arch_xplore.Hart.Completion.{changed}
use arch_xplore.Hart.Worker.{IsThread, IsAsleep}
use arch_xplore.Hart.Worker.Starting.{begins}

pub pair_eq : {A : Type 0} (b : Bool × A) (x : Bool) → b.0 ≡ x → b ≡ (x, b.1)
pair_eq b x e = ap (λ y. (y, b.1)) e

module _ {E Q : Type 0} {V : Q → Type 0} (ev : UniqueEvent E) (eq : EventQueue Q V) where
  open eq use {stream, unread, try_take, delay}

  -- The handler of the monitor, for a hart that sleeps.
  pub asleep_step :
      (h : Hart E Q) (q : Q)
      → h.cpu.status ≡ inactive
      → h.process.is_completed ≡ false
      → try_take h.iss.event_queue ≡ (false, q)
      → handle_wake_up_monitor_event ev eq h
        ≡ done (changed ev eq h (schedule_wake_up_monitor_event ev h.cpu.core) q)
  unfolding handle_wake_up_monitor_event wake_up_monitor wake_inactive
      schedule_wake_up_monitor_event
  asleep_step h q s goes_on nothing =
      ap
        (λ st. wake_up_monitor ev eq st (set_core h (schedule_wake_up_monitor_event ev h.cpu.core)))
        s
      ∙ rw (nothing, goes_on)

  pub woken_step :
      (h h1 : Hart E Q) (q : Q)
      → h.cpu.status ≡ inactive
      → try_take h.iss.event_queue ≡ (true, q)
      → start_up ev eq (changed ev eq h (schedule_wake_up_monitor_event ev h.cpu.core) q) ≡ done h1
      → handle_wake_up_monitor_event ev eq h
        ≡ done (changed ev eq h1 (resume ev eq h1).cpu.core h1.iss.event_queue)
  unfolding handle_wake_up_monitor_event wake_up_monitor wake_inactive
      schedule_wake_up_monitor_event resume
  woken_step h h1 q s some_more started =
      ap
        (λ st. wake_up_monitor ev eq st (set_core h (schedule_wake_up_monitor_event ev h.cpu.core)))
        s
      ∙ rw (some_more, started)

  -- A step of the hart: it goes on to sleep, and the message is closer, or it has begun its thread.
  abbrev pub Wakes : Hart E Q → Hart E Q → Type 0
  Wakes h h' =
      (program ev eq h' ≡ program ev eq h)
      × IsSameHart h h'
      × (IsRunning ev eq h'
          ⊎ (IsAsleep ev eq h'
              × IsThread h'.cpu.fetch_width (stream h'.iss.event_queue)
              × (delay h'.iss.event_queue < delay h.iss.event_queue)))

  -- The event that wakes up a hart whose thread has come.
  pub fire_woken :
      (h : Hart E Q)
      → IsReady ev eq h
      → h.cpu.status ≡ inactive
      → h.cpu.inst_buffer ≡ []
      → unread h.iss.event_queue ≡ []
      → ev.is_scheduled h.cpu.tick_event ≡ false
      → ev.is_scheduled h.cpu.wakeup_monitor_event ≡ true
      → IsThread h.cpu.fetch_width (stream h.iss.event_queue)
      → (try_take h.iss.event_queue).0 ≡ true
      → (h' : Hart E Q) × (fire ev eq h ≡ done h')
        × (program ev eq h' ≡ program ev eq h)
        × IsSameHart h h'
        × IsRunning ev eq h'
  unfolding fire schedule_wake_up_monitor_event
  fire_woken h ready sleeps buffer at_end no_tick watching t some_more =
      let q = (try_take h.iss.event_queue).1 in
      let (v, same, hand) = eq.try_take_lem h.iss.event_queue ready.valid at_end in
      let k = take_monitor ev eq h in
      let h0 = changed ev eq k (schedule_wake_up_monitor_event ev k.cpu.core) q in
      let ready0 : IsReady ev eq h0 = record {
        valid = v;
        events = subst (All IsEvent) (sym same) ready.events;
        idle = ready.idle;
      } in
      let t0 : IsThread h.cpu.fetch_width (stream q) =
        subst (IsThread h.cpu.fetch_width) (sym same) t in
      let prog0 = ap (λ es. h.trace ++ (h.cpu.inst_buffer ++ insts es)) same in
      let (h1, started, prog, who, run) = begins ev eq h0 ready0 buffer t0 in
      (
        changed ev eq h1 (resume ev eq h1).cpu.core h1.iss.event_queue,
        rw (no_tick, watching) (woken_step k h1 q sleeps (pair_eq _ true some_more) started),
        prog ∙ prog0,
        record { boot = who.boot; hart_id = who.hart_id; worker = who.worker },
        run,
      )

  pub fire-Wakes :
      (h : Hart E Q)
      → IsAsleep ev eq h
      → IsThread h.cpu.fetch_width (stream h.iss.event_queue)
      → (h' : Hart E Q) × (fire ev eq h ≡ done h') × Wakes h h'
  unfolding fire schedule_wake_up_monitor_event
  fire-Wakes h a t =
      let q = (try_take h.iss.event_queue).1 in
      let (v, same, hand) = eq.try_take_lem h.iss.event_queue a.ready.valid a.at_end in
      let k = take_monitor ev eq h in
      let h0 = changed ev eq k (schedule_wake_up_monitor_event ev k.cpu.core) q in
      let ready0 : IsReady ev eq h0 = record {
        valid = v;
        events = subst (All IsEvent) (sym same) a.ready.events;
        idle = a.ready.idle;
      } in
      let t0 : IsThread h.cpu.fetch_width (stream q) =
        subst (IsThread h.cpu.fetch_width) (sym same) t in
      let prog0 = ap (λ es. h.trace ++ (h.cpu.inst_buffer ++ insts es)) same in
      elim (Bool-cases (try_take h.iss.event_queue).0) [
        | inl some_more ↦
            let (h', fired, prog, who, run) =
              fire_woken h a.ready a.status a.buffer a.at_end a.no_tick a.watching t some_more in
            (h', fired, (prog, who, inl run))
        | inr nothing ↦ (
          h0,
          rw (a.no_tick, a.watching) (asleep_step k q a.status a.goes_on (pair_eq _ false nothing)),
          (
            prog0,
            record { boot = refl; hart_id = refl; worker = λ n. refl },
            inr (
              record {
                ready = ready0;
                status = a.status;
                buffer = a.buffer;
                at_end = hand nothing;
                no_tick = a.no_tick;
                watching = ev.scheduled _;
                goes_on = a.goes_on;
              },
              t0,
              eq.try_take_waits h.iss.event_queue a.ready.valid a.at_end
                  (λ e. cons_ne (sym t.split ∙ e)) nothing,
            ),
          ),
        )
      ]
    where
      cons_ne : {x : ThreadEvent} {xs : List ThreadEvent} → x ∷ xs ≡ [] → ⊥
      cons_ne e = cc
