-- ===== src/Hart/Waking.antt =====
-- The wake-up monitor: what becomes of a hart that waits.
use arch_xplore.Base.{
  [], true, false, ltb, add64, done, blocked, ◌≡◌, ◌⊎◌, inl, inr, refl, sym, ap, ◌∙◌, arith,
  Bool-cases, subst,
}
use arch_xplore.Cpu.Status.{inactive, active, blocked_syscall, completed}
use arch_xplore.Cpu.Core.{
  UniqueEvent, AbstractCpu, schedule_next_tick_event, schedule_wake_up_monitor_event,
  cancel_wake_up_monitor_event,
}
use arch_xplore.Iss.Queue.{EventQueue}
use arch_xplore.Hart.State.{Hart}
use arch_xplore.Hart.Fetch.{set_core, set_queue, fetch_loop, generate_fetch_request}
use arch_xplore.Hart.Tick.{
  tick, start_up, handle_tick_event, resume, wake_inactive, wake_blocked, wake_up_monitor,
  handle_wake_up_monitor_event,
}
use arch_xplore.Hart.Scheduling.{Scheduling, IsScheduled}

module _ {E Q : Type 0} {V : Q → Type 0} (ev : UniqueEvent E) (eq : EventQueue Q V) where
  open eq use {stream, try_take, front}

  pub cancel_monitor :
      (c : AbstractCpu E)
      → (ev.is_scheduled (cancel_wake_up_monitor_event ev c).wakeup_monitor_event ≡ false)
        × ((cancel_wake_up_monitor_event ev c).tick_event ≡ c.tick_event)
        × ((cancel_wake_up_monitor_event ev c).status ≡ c.status)
  unfolding cancel_wake_up_monitor_event
  cancel_monitor c = elim (Bool-cases (ev.is_scheduled c.wakeup_monitor_event)) [
    | inl s ↦ ground (arith, ev.cancelled c.wakeup_monitor_event)
    | inr n ↦ ground arith
  ]

  -- Waking: active, ticking, and no longer watching.
  pub resume_lem :
      (h : Hart E Q)
      → ((resume ev eq h).cpu.status ≡ active)
        × (ev.is_scheduled (resume ev eq h).cpu.tick_event ≡ true)
        × (ev.is_scheduled (resume ev eq h).cpu.wakeup_monitor_event ≡ false)
        × ((resume ev eq h).iss ≡ h.iss)
        × ((resume ev eq h).cpu.next_pc ≡ h.cpu.next_pc)
        × ((resume ev eq h).cpu.fetch_width ≡ h.cpu.fetch_width)
  unfolding resume schedule_next_tick_event
  resume_lem h =
      let (off, tick_same, status_same) = cancel_monitor (record h.cpu.core { status = active }) in
      (status_same, ev.scheduled _, off, refl, refl, refl)

  -- The monitor's handler of a hart that is blocked in a system call: with a message it wakes up
  -- and ticks, without one it stays blocked and watches on.
  pub wake_blocked_lem :
      (h : Hart E Q)
      → h.cpu.status ≡ blocked_syscall
      → ev.is_scheduled h.cpu.tick_event ≡ false
      → (h' : Hart E Q) × (handle_wake_up_monitor_event ev eq h ≡ done h')
        × IsScheduled ev eq h'
        × (h'.iss.event_queue ≡ (try_take h.iss.event_queue).1)
        × (((try_take h.iss.event_queue).0 ≡ true) × (h'.cpu.status ≡ active)
            ⊎ ((try_take h.iss.event_queue).0 ≡ false) × (h'.cpu.status ≡ blocked_syscall))
  unfolding handle_wake_up_monitor_event schedule_wake_up_monitor_event wake_up_monitor wake_blocked
  wake_blocked_lem h waits no_tick =
      let q = (try_take h.iss.event_queue).1 in
      let h1 = set_queue (set_core h (schedule_wake_up_monitor_event ev h.cpu.core)) q in
      elim (Bool-cases (try_take h.iss.event_queue).0) [
        | inl some_more ↦
            let (now_active, ticks, off, same, _, _) = resume_lem h1 in
            (
              resume ev eq h1,
              rw (waits, wake_up_monitor, some_more),
              subst
                  (λ st.
                    Scheduling ev eq st (resume ev eq h1).cpu.tick_event
                      (resume ev eq h1).cpu.wakeup_monitor_event)
                  (sym now_active) ticks,
              ap (λ i. i.event_queue) same,
              inl (some_more, now_active),
            )
        | inr nothing ↦ (
          h1,
          rw (waits, wake_up_monitor, nothing),
          subst
              (λ st. Scheduling ev eq st h.cpu.tick_event (ev.schedule h.cpu.wakeup_monitor_event))
              (sym waits) (no_tick, ev.scheduled h.cpu.wakeup_monitor_event),
          refl,
          inr (nothing, waits),
        )
      ]

  -- The monitor's handler of an inactive hart that gets no message: it is completed, and watches no
  -- longer, once its process is completed; else it watches on.
  pub wake_inactive_idle :
      (h : Hart E Q)
      → h.cpu.status ≡ inactive
      → ev.is_scheduled h.cpu.tick_event ≡ false
      → (try_take h.iss.event_queue).0 ≡ false
      → (h' : Hart E Q) × (handle_wake_up_monitor_event ev eq h ≡ done h')
        × IsScheduled ev eq h'
        × (((h.process.is_completed ≡ true)
              × (h'.cpu.status ≡ completed)
              × (ev.is_scheduled h'.cpu.wakeup_monitor_event ≡ false))
            ⊎ ((h.process.is_completed ≡ false) × (h'.cpu.status ≡ inactive)))
  unfolding handle_wake_up_monitor_event schedule_wake_up_monitor_event wake_up_monitor
      wake_inactive
  wake_inactive_idle h sleeps no_tick nothing =
      let q = (try_take h.iss.event_queue).1 in
      let h1 = set_queue (set_core h (schedule_wake_up_monitor_event ev h.cpu.core)) q in
      elim (Bool-cases h.process.is_completed) [
        | inl over ↦
            let (off, tick_same, now_done) =
              cancel_monitor (record h1.cpu.core { status = completed }) in
            let h2 =
              set_core h1
                (cancel_wake_up_monitor_event ev (record h1.cpu.core { status = completed })) in
            (
              h2,
              rw (sleeps, wake_up_monitor, nothing, over),
              subst (λ st. Scheduling ev eq st h2.cpu.tick_event h2.cpu.wakeup_monitor_event)
                  (sym now_done) (ap ev.is_scheduled tick_same ∙ no_tick),
              inl (over, now_done, off),
            )
        | inr going ↦ (
          h1,
          rw (sleeps, wake_up_monitor, nothing, going),
          subst
              (λ st. Scheduling ev eq st h.cpu.tick_event (ev.schedule h.cpu.wakeup_monitor_event))
              (sym sleeps) (no_tick, ev.scheduled h.cpu.wakeup_monitor_event),
          inr (going, sleeps),
        )
      ]

  -- An inactive hart that gets a message starts up, and if that returns it is then active and ticking and watches no
  -- longer, whatever status its first tick has set.
  pub wake_inactive_starts :
      (h h1 : Hart E Q)
      → h.cpu.status ≡ inactive
      → (try_take h.iss.event_queue).0 ≡ true
      → start_up ev eq (
          set_queue
            (set_core h (schedule_wake_up_monitor_event ev h.cpu.core))
            (try_take h.iss.event_queue).1)
        ≡ done h1
      → (h' : Hart E Q) × (handle_wake_up_monitor_event ev eq h ≡ done h')
        × (h'.cpu.status ≡ active)
        × (ev.is_scheduled h'.cpu.tick_event ≡ true)
        × (ev.is_scheduled h'.cpu.wakeup_monitor_event ≡ false)
        × (h'.iss ≡ h1.iss)
        × (h'.cpu.next_pc ≡ h1.cpu.next_pc)
        × (h'.cpu.fetch_width ≡ h1.cpu.fetch_width)
  unfolding handle_wake_up_monitor_event schedule_wake_up_monitor_event wake_up_monitor
      wake_inactive
  wake_inactive_starts h h1 sleeps some_more started =
      let (now_active, ticks, off, same, pc, width) = resume_lem h1 in
      (
        resume ev eq h1,
        ap
              (λ st.
                wake_up_monitor ev eq st
                  (set_core h (schedule_wake_up_monitor_event ev h.cpu.core)))
              sleeps
            ∙ rw (some_more, started),
        now_active,
        ticks,
        off,
        same,
        pc,
        width,
      )

  -- A tick with no events left never returns, if the processor has an address to fetch from.
  pub tick_blocks :
      (h : Hart E Q)
      → V h.iss.event_queue
      → stream h.iss.event_queue ≡ []
      → ltb h.cpu.next_pc (add64 h.cpu.next_pc h.cpu.fetch_width) ≡ true
      → tick ev eq h ≡ blocked
  unfolding tick generate_fetch_request fetch_loop
  tick_blocks h v none_left below = rw (below, eq.front_blocks h.iss.event_queue v none_left)

  -- If an inactive hart gets a message, and starting up leaves no event to be read but an address to
  -- fetch from, then the monitor's handler returns with the hart active, and the handler of its next
  -- tick never returns.
  pub wake_forgets_end :
      (h h1 : Hart E Q)
      → h.cpu.status ≡ inactive
      → (try_take h.iss.event_queue).0 ≡ true
      → start_up ev eq (
          set_queue
            (set_core h (schedule_wake_up_monitor_event ev h.cpu.core))
            (try_take h.iss.event_queue).1)
        ≡ done h1
      → V h1.iss.event_queue
      → stream h1.iss.event_queue ≡ []
      → ltb h1.cpu.next_pc (add64 h1.cpu.next_pc h1.cpu.fetch_width) ≡ true
      → (h' : Hart E Q) × (handle_wake_up_monitor_event ev eq h ≡ done h')
        × (h'.cpu.status ≡ active)
        × (handle_tick_event ev eq h' ≡ blocked)
  unfolding handle_tick_event schedule_next_tick_event
  wake_forgets_end h h1 sleeps some_more started v none_left below =
      let (h', returned, now_active, _, _, same, pc, width) =
        wake_inactive_starts h h1 sleeps some_more started in
      (
        h',
        returned,
        now_active,
        tick_blocks _ (subst (λ i. V i.event_queue) (sym same) v)
            (ap (λ i. stream i.event_queue) same ∙ none_left) (rw (pc, width) below),
      )
