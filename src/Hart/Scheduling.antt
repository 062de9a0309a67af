-- ===== src/Hart/Scheduling.antt =====
-- The event handlers: which of the hart's events are scheduled behind each of them.
use arch_xplore.Base.{
  ◌+◌, [], ◌∷◌, Bool, true, false, Option, none, some, ◌==◌, add64, done, ◌≡◌, inl, inr, sym, arith,
  Bool-cases, subst,
}
use arch_xplore.Cpu.Events.{ThreadEvent, Tag, syscall_api}
use arch_xplore.Cpu.Status.{CpuStatus, inactive, active, blocked_syscall, completed}
use arch_xplore.Cpu.Core.{
  UniqueEvent, AbstractCpu, schedule_next_tick_event, cancel_next_tick_event,
  schedule_wake_up_monitor_event,
}
use arch_xplore.Iss.Queue.{EventQueue}
use arch_xplore.Hart.State.{Hart}
use arch_xplore.Hart.Spec.{HasLast, fetch-HasLast}
use arch_xplore.Hart.Fetch.{is_active, set_core, finish_thread, handle_syscall_api}
use arch_xplore.Hart.Rounds.{apply_ended, take_event, end_thread, handle_tag}
use arch_xplore.Hart.TickLaws.{IsReady, tick_lem, program, tick-program}
use arch_xplore.Hart.Tick.{tick, execute, push_instructions, handle_tick_event}

module _ {E Q : Type 0} {V : Q → Type 0} (ev : UniqueEvent E) (eq : EventQueue Q V) where
  open eq use {stream, try_take, front}

  -- An active hart ticks; a blocked or an inactive one does not, and watches for messages; a
  -- completed one does not tick. The other statuses do not occur.
  abbrev pub Scheduling : CpuStatus → E → E → Type 0
  Scheduling active tick monitor = ev.is_scheduled tick ≡ true
  Scheduling inactive tick monitor =
      (ev.is_scheduled tick ≡ false) × (ev.is_scheduled monitor ≡ true)
  Scheduling blocked_syscall tick monitor =
      (ev.is_scheduled tick ≡ false) × (ev.is_scheduled monitor ≡ true)
  Scheduling completed tick monitor = ev.is_scheduled tick ≡ false
  Scheduling _ tick monitor = ⊥

  abbrev pub IsScheduled : Hart E Q → Type 0
  IsScheduled h = Scheduling h.cpu.status h.cpu.tick_event h.cpu.wakeup_monitor_event

  cancel_tick :
      (c : AbstractCpu E) → ev.is_scheduled (cancel_next_tick_event ev c).tick_event ≡ false
  unfolding cancel_next_tick_event
  cancel_tick c = elim (Bool-cases (ev.is_scheduled c.tick_event)) [
    | inl s ↦ ground (arith, ev.cancelled c.tick_event)
    | inr n ↦ ground arith
  ]

  handle_syscall_api-IsScheduled :
      (e : ThreadEvent) (h : Hart E Q) → IsScheduled h → IsScheduled (handle_syscall_api ev eq e h)
  unfolding handle_syscall_api cancel_next_tick_event schedule_wake_up_monitor_event
  handle_syscall_api-IsScheduled e h s = elim (Bool-cases (is_active h.cpu.status)) [
    | inl a ↦ elim (Bool-cases (ev.is_scheduled h.cpu.tick_event)) [
      | inl t ↦
          rw (a, handle_syscall_api, t, cancel_next_tick_event)
            (ev.cancelled h.cpu.tick_event, ev.scheduled h.cpu.wakeup_monitor_event)
      | inr n ↦
          rw (a, handle_syscall_api, n, cancel_next_tick_event)
            (n, ev.scheduled h.cpu.wakeup_monitor_event)
    ]
    | inr n ↦ rw (n, handle_syscall_api) s
  ]

  finish_thread-IsScheduled : (h : Hart E Q) → IsScheduled (finish_thread ev eq h)
  unfolding finish_thread schedule_wake_up_monitor_event
  finish_thread-IsScheduled h = elim (Bool-cases (h.cpu.hart_id == h.process.boot_hart)) [
    | inl b ↦ rw (b, finish_thread) (cancel_tick h.cpu.core)
    | inr o ↦ rw (o, finish_thread) (cancel_tick h.cpu.core, ev.scheduled _)
  ]

  end_thread-IsScheduled :
      (b : Bool) (h : Hart E Q) → IsScheduled h → IsScheduled (end_thread ev eq b h)
  unfolding end_thread
  end_thread-IsScheduled true h s = finish_thread-IsScheduled h
  end_thread-IsScheduled false h s = s

  handle_tag-IsScheduled :
      (t : Tag) (e : ThreadEvent) (h : Hart E Q)
      → IsScheduled h
      → IsScheduled (handle_tag ev eq t e h)
  unfolding handle_tag
  handle_tag-IsScheduled syscall_api e h s = handle_syscall_api-IsScheduled e h s
  handle_tag-IsScheduled _ e h s = s

  apply_ended-IsScheduled :
      (o : Option ThreadEvent) (h : Hart E Q) → IsScheduled h → IsScheduled (apply_ended ev eq o h)
  unfolding apply_ended take_event
  apply_ended-IsScheduled none h s = s
  apply_ended-IsScheduled (some e) h s =
      end_thread-IsScheduled e.is_last (handle_tag ev eq e.tag e h)
        (handle_tag-IsScheduled e.tag e h s)

  execute-IsScheduled : (h : Hart E Q) → IsScheduled h → IsScheduled (execute h)
  unfolding execute
  execute-IsScheduled h s =
      elim h.cpu.inst_buffer
        as (λ b. IsScheduled (execute (record h { cpu = record h.cpu { inst_buffer = b } }))) [
          | [] ↦ s
          | i ∷ is ↦ s
        ]

  pub tick-IsScheduled :
      (h h' : Hart E Q)
      → IsReady ev eq h
      → HasLast (stream h.iss.event_queue)
      → IsScheduled h
      → tick ev eq h ≡ done h'
      → IsScheduled h'
  unfolding push_instructions
  tick-IsScheduled h h' ready ahead s returned =
      let pc = h.cpu.next_pc in
      let limit = add64 pc h.cpu.fetch_width in
      let (r, spec) = fetch-HasLast pc limit (stream h.iss.event_queue) ahead in
      let (h1, does, f) = tick_lem ev eq h r ready.valid ready.events ready.idle spec in
      let same : execute (push_instructions r.group h1) ≡ h' = ground arith in
      subst IsScheduled same (
        execute-IsScheduled (push_instructions r.group h1)
          (subst IsScheduled (sym f.effect) (apply_ended-IsScheduled r.ended h s)))

  -- The tick handler of an active hart returns while the last event of the thread is to come; the
  -- hart is ready again, its program is the same, and the events are scheduled that its new status
  -- asks for.
  pub handle_tick_event_lem :
      (h : Hart E Q)
      → IsReady ev eq h
      → HasLast (stream h.iss.event_queue)
      → h.cpu.status ≡ active
      → (h' : Hart E Q) × (handle_tick_event ev eq h ≡ done h')
        × IsReady ev eq h'
        × IsScheduled h'
        × (program ev eq h' ≡ program ev eq h)
  unfolding handle_tick_event schedule_next_tick_event
  handle_tick_event_lem h ready ahead is_act =
      let h0 = set_core h (record h.cpu.core {
        tick_event = ev.schedule h.cpu.tick_event;
        cycle = h.cpu.cycle + 1;
      }) in
      let ready0 : IsReady ev eq h0 = record {
        valid = ready.valid;
        events = ready.events;
        idle = ready.idle;
      } in
      let s0 : IsScheduled h0 =
        subst (λ st. Scheduling st (ev.schedule h.cpu.tick_event) h.cpu.wakeup_monitor_event)
          (sym is_act) (ev.scheduled h.cpu.tick_event) in
      let (h', returned, ready', same, _) = tick-program ev eq h0 ready0 ahead in
      (h', returned, ready', tick-IsScheduled h0 h' ready0 ahead s0 returned, same)
