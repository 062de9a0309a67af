-- ===== src/Hart/Running.antt =====
-- A hart in the middle of its thread, the events of its scheduler, and what a tick makes of it.
-- The scheduler is the order of steps that it gives: as long as one of the hart's events is scheduled
-- it takes it out and calls its handler, the tick first (the handler of the monitor does nothing for a
-- hart that is active).
use arch_xplore.Base.{
  ℕ, zero, suc, ◌+◌, ◌*◌, ◌≤◌, ◌<◌, List, [], ◌∷◌, ◌++◌, true, false, ◌==◌, if◌then◌else◌, Outcome,
  done, ◌>>=◌, ◌≡◌, ◌⊎◌, inl, inr, refl, sym, ap, ◌∙◌, arith, subst, All, some,
}
use arch_xplore.Cpu.Insts.{StaticInst}
use arch_xplore.Cpu.Events.{ThreadEvent, as_inst}
use arch_xplore.Cpu.Status.{CpuStatus, active, blocked_syscall, completed}
use arch_xplore.Cpu.Core.{UniqueEvent, schedule_next_tick_event}
use arch_xplore.Iss.Queue.{EventQueue}
use arch_xplore.Hart.State.{Hart}
use arch_xplore.Hart.Spec.{insts, IsEvent}
use arch_xplore.Hart.Fetch.{set_core, set_queue, init_cpu_state, is_instruction}
use arch_xplore.Hart.FetchLaws.{IsOver}
use arch_xplore.Hart.TickLaws.{IsReady, program}
use arch_xplore.Hart.Links.{IsLinked, EndsLast, EndsLast-HasLast}
use arch_xplore.Hart.Effects.{IsSameHart}
use arch_xplore.Hart.Advance.{HasLinks, pending, tick-Advances}
use arch_xplore.Hart.Scheduling.{Scheduling, IsScheduled, tick-IsScheduled}
use arch_xplore.Hart.Tick.{start_up, reset, tick, handle_tick_event, handle_wake_up_monitor_event}

-- Waiting in a system call is a step more than being active.
abbrev pub waiting_weight : CpuStatus → ℕ
waiting_weight blocked_syscall = 1
waiting_weight _ = 0

pub waiting_weight-le :
    (s : CpuStatus) → (s ≡ active) ⊎ (s ≡ blocked_syscall) → waiting_weight s ≤ 1
waiting_weight-le s (inl a) = rw a (omega arith)
waiting_weight-le s (inr b) = rw b (omega arith)

module _ {E Q : Type 0} {V : Q → Type 0} (ev : UniqueEvent E) (eq : EventQueue Q V) where
  open eq use {stream, unread, try_take, delay}

  abbrev pub take_tick : Hart E Q → Hart E Q
  take_tick h = set_core h (record h.cpu.core { tick_event = ev.fire h.cpu.tick_event })

  abbrev pub take_monitor : Hart E Q → Hart E Q
  take_monitor h =
      set_core h (record h.cpu.core { wakeup_monitor_event = ev.fire h.cpu.wakeup_monitor_event })

  unfoldable pub fire : Hart E Q → Outcome (Hart E Q)
  fire h =
      if ev.is_scheduled h.cpu.tick_event
      then handle_tick_event ev eq (take_tick h)
      else if ev.is_scheduled h.cpu.wakeup_monitor_event
      then handle_wake_up_monitor_event ev eq (take_monitor h)
      else done h

  unfoldable pub run_events : ℕ → Hart E Q → Outcome (Hart E Q)
  run_events zero h = done h
  run_events (suc n) h = do h' ← fire h; run_events n h'

  -- A hart in the middle of its thread: active, or waiting in a system call with no message at
  -- hand.
  pub record IsRunning (h : Hart E Q) : Type 0 where
    pub ready : IsReady ev eq h
    pub links : HasLinks ev eq h
    pub ends : EndsLast (stream h.iss.event_queue)
    pub scheduled : IsScheduled ev eq h
    pub waits :
        (h.cpu.status ≡ active)
        ⊎ ((h.cpu.status ≡ blocked_syscall) × (unread h.iss.event_queue ≡ []))

  -- One behind its thread.
  pub record HasEnded (h : Hart E Q) : Type 0 where
    pub ready : IsReady ev eq h
    pub nothing_left : stream h.iss.event_queue ≡ []
    pub over : IsOver ev eq h

  -- A boot hart behind its thread: completed with its process, nothing left to be read, no tick scheduled.
  pub record HasCompleted (h : Hart E Q) : Type 0 where
    pub nothing_left : stream h.iss.event_queue ≡ []
    pub status : h.cpu.status ≡ completed
    pub process : h.process.is_completed ≡ true
    pub no_tick : ev.is_scheduled h.cpu.tick_event ≡ false

  abbrev pub weight : Hart E Q → ℕ
  weight h = 2 * pending ev eq h + waiting_weight h.cpu.status

  -- An event's handler brings a running hart forward: it has less to do, or the next message is closer.
  abbrev pub IsCloser : Hart E Q → Hart E Q → Type 0
  IsCloser h h' =
      (weight h' < weight h)
      ⊎ ((weight h' ≡ weight h) × (delay h'.iss.event_queue < delay h.iss.event_queue))

  abbrev pub Proceeds : Hart E Q → Hart E Q → Type 0
  Proceeds h h' =
      (program ev eq h' ≡ program ev eq h)
      × IsSameHart h h'
      × ((IsRunning h' × IsCloser h h') ⊎ HasEnded h')

  pub HasEnded-HasCompleted :
      (h : Hart E Q) → HasEnded h → (h.cpu.hart_id == h.process.boot_hart) ≡ true → HasCompleted h
  HasEnded-HasCompleted h end boot = elim end.over.rest [
    | inl (st, pr, b) ↦ record {
      nothing_left = end.nothing_left;
      status = st;
      process = pr;
      no_tick = end.over.no_tick;
    }
    | inr (st, mon, b) ↦ absurd (ground arith)
  ]

  -- A tick of an active hart in the middle of its thread goes on or ends it.
  pub tick-Runs :
      (h : Hart E Q)
      → IsReady ev eq h
      → EndsLast (stream h.iss.event_queue)
      → HasLinks ev eq h
      → h.cpu.status ≡ active
      → ev.is_scheduled h.cpu.tick_event ≡ true
      → (h' : Hart E Q) × (tick ev eq h ≡ done h')
        × (program ev eq h' ≡ program ev eq h)
        × IsSameHart h h'
        × ((IsRunning h' × (pending ev eq h' < pending ev eq h)) ⊎ HasEnded h')
  tick-Runs h ready ends links a ticks =
      let s0 : IsScheduled ev eq h =
        subst (λ st. Scheduling ev eq st h.cpu.tick_event h.cpu.wakeup_monitor_event) (sym a)
          ticks in
      let (h', returned, adv) = tick-Advances ev eq h ready ends links in
      (
        h',
        returned,
        adv.same,
        adv.same_hart,
        elim adv.outcome [
          | inl on ↦ inl (
            record {
              ready = adv.ready;
              links = adv.links;
              ends = on.ends;
              scheduled = tick-IsScheduled ev eq h h' ready (EndsLast-HasLast _ ends) s0 returned;
              waits = on.status a;
            },
            adv.less,
          )
          | inr (none_left, over) ↦
              inr (record { ready = adv.ready; nothing_left = none_left; over = over })
        ],
      )

  waits-le : (h : Hart E Q) → IsRunning h → waiting_weight h.cpu.status ≤ 1
  waits-le h r = waiting_weight-le h.cpu.status (elim r.waits [ inl x ↦ inl x | inr y ↦ inr y.0 ])

  pub tick-Proceeds :
      (h : Hart E Q)
      → IsRunning h
      → h.cpu.status ≡ active
      → (h' : Hart E Q) × (handle_tick_event ev eq (take_tick h) ≡ done h') × Proceeds h h'
  unfolding handle_tick_event schedule_next_tick_event
  tick-Proceeds h r a =
      let h0 = set_core h (record h.cpu.core {
        tick_event = ev.schedule (ev.fire h.cpu.tick_event);
        cycle = h.cpu.cycle + 1;
      }) in
      let ready0 : IsReady ev eq h0 = record {
        valid = r.ready.valid;
        events = r.ready.events;
        idle = r.ready.idle;
      } in
      let (h', returned, same, who, next) =
        tick-Runs h0 ready0 r.ends r.links a (ev.scheduled (ev.fire h.cpu.tick_event)) in
      (
        h',
        returned,
        (
          same,
          record { boot = who.boot; hart_id = who.hart_id; worker = who.worker },
          elim next [
            | inl (run, less) ↦ inl (run, inl (omega (arith, waits-le h' run)))
            | inr over ↦ inr over
          ],
        ),
      )

  -- Starting up a hart at the head of its thread.
  pub start_up-Runs :
      (h : Hart E Q) (e : ThreadEvent) (es : List ThreadEvent) (i : StaticInst)
      → IsReady ev eq h
      → stream h.iss.event_queue ≡ e ∷ es
      → is_instruction e.tag ≡ true
      → as_inst e.payload ≡ some i
      → EndsLast (e ∷ es)
      → IsLinked h.cpu.fetch_width i.pc (h.cpu.inst_buffer ++ insts (e ∷ es))
      → (h' : Hart E Q) × (start_up ev eq h ≡ done h')
        × (program ev eq h' ≡ h.trace ++ (h.cpu.inst_buffer ++ insts (e ∷ es)))
        × IsSameHart h h'
        × (IsRunning h' ⊎ HasEnded h')
  unfolding start_up init_cpu_state reset schedule_next_tick_event
  start_up-Runs h e es i ready ahead tag payload ends links =
      let (q, returned, same, v, _, _, _) = eq.front_lem h.iss.event_queue e es ready.valid ahead in
      let h1 = set_core (set_queue h q) (record h.cpu.core {
        boot_pc = i.pc;
        status = active;
        tick_event = ev.schedule h.cpu.tick_event;
      }) in
      let h2 = record h1 { cpu = record h1.cpu { next_pc = i.pc } } in
      let ready2 : IsReady ev eq h2 = record {
        valid = v;
        events = subst (All IsEvent) (ahead ∙ sym same) ready.events;
        idle = ready.idle;
      } in
      let (h', ticked, kept, who, next) =
        tick-Runs h2 ready2 (subst EndsLast (sym same) ends)
          (subst (λ l. IsLinked h.cpu.fetch_width i.pc (h.cpu.inst_buffer ++ insts l)) (sym same)
            links)
          refl (ev.scheduled h.cpu.tick_event) in
      (
        h',
        rw (returned, tag, payload) ticked,
        kept ∙ ap (λ l. h.trace ++ (h.cpu.inst_buffer ++ insts l)) same,
        record { boot = who.boot; hart_id = who.hart_id; worker = who.worker },
        elim next [ inl x ↦ inl x.0 | inr over ↦ inr over ],
      )
