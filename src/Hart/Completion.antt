-- ===== src/Hart/Completion.antt =====
-- A hart runs its thread to the end.
use arch_xplore.Base.{
  ℕ, zero, suc, ◌+◌, ◌≤◌, ◌<◌, List, [], ◌∷◌, ◌++◌, true, false, length, ◌==◌, if◌then◌else◌, done,
  ◌>>=◌, ◌≡◌, ◌≢◌, ◌⊎◌, inl, inr, refl, sym, ap, ◌∙◌, arith, subst, Bool-cases, All, append-nil,
}
use arch_xplore.Cpu.Events.{ThreadEvent}
use arch_xplore.Cpu.Status.{active, blocked_syscall}
use arch_xplore.Cpu.Core.{
  UniqueEvent, AbstractCpu, schedule_next_tick_event, schedule_wake_up_monitor_event,
  cancel_wake_up_monitor_event,
}
use arch_xplore.Iss.Queue.{EventQueue}
use arch_xplore.Hart.State.{Hart}
use arch_xplore.Hart.Spec.{insts, IsEvent}
use arch_xplore.Hart.Fetch.{set_core, set_queue}
use arch_xplore.Hart.TickLaws.{program}
use arch_xplore.Hart.Links.{IsLinked, EndsLast}
use arch_xplore.Hart.Effects.{IsSameHart, IsSameHart-trans}
use arch_xplore.Hart.Advance.{pending}
use arch_xplore.Hart.Waking.{resume_lem}
use arch_xplore.Hart.Scheduling.{Scheduling}
use arch_xplore.Hart.Tick.{handle_wake_up_monitor_event, wake_up_monitor, wake_blocked, resume}
use arch_xplore.Hart.Running.{
  take_monitor, fire, run_events, IsRunning, HasEnded, HasCompleted, HasEnded-HasCompleted,
  waiting_weight, weight, Proceeds, tick-Proceeds,
}

module _ {E Q : Type 0} {V : Q → Type 0} (ev : UniqueEvent E) (eq : EventQueue Q V) where
  open eq use {stream, unread, try_take, delay}

  -- The handler of the monitor, for a hart that waits in a system call.
  wake_step :
      (h : Hart E Q)
      → h.cpu.status ≡ blocked_syscall
      → handle_wake_up_monitor_event ev eq h
        ≡ done (
            if (try_take h.iss.event_queue).0
            then resume ev eq (
                set_queue
                  (set_core h (schedule_wake_up_monitor_event ev h.cpu.core))
                  (try_take h.iss.event_queue).1)
            else set_queue
                (set_core h (schedule_wake_up_monitor_event ev h.cpu.core))
                (try_take h.iss.event_queue).1)
  unfolding handle_wake_up_monitor_event wake_up_monitor wake_blocked schedule_wake_up_monitor_event
  wake_step h b =
      ap
        (λ st. wake_up_monitor ev eq st (set_core h (schedule_wake_up_monitor_event ev h.cpu.core)))
        b

  pub resume-hart_id : (h : Hart E Q) → (resume ev eq h).cpu.hart_id ≡ h.cpu.hart_id
  unfolding resume schedule_next_tick_event cancel_wake_up_monitor_event
  resume-hart_id h = ground arith

  pub EndsLast-ne : (es : List ThreadEvent) → EndsLast es → es ≢ []
  EndsLast-ne [] h e = h
  EndsLast-ne (x ∷ es) h e = cc

  -- A hart that differs from `h` in its core and its queue, which has lost nothing.
  abbrev pub changed : Hart E Q → AbstractCpu E → Q → Hart E Q
  changed h core q = set_queue (set_core h core) q

  resume-changed :
      (h : Hart E Q) (core : AbstractCpu E) (q : Q)
      → resume ev eq (changed h core q) ≡ changed h (resume ev eq (changed h core q)).cpu.core q
  unfolding resume
  resume-changed h core q = refl

  pub changed-IsRunning :
      (h : Hart E Q) (core : AbstractCpu E) (q : Q)
      → IsRunning ev eq h
      → V q
      → stream q ≡ stream h.iss.event_queue
      → core.hart_id ≡ h.cpu.hart_id
      → Scheduling ev eq core.status core.tick_event core.wakeup_monitor_event
      → (core.status ≡ active) ⊎ ((core.status ≡ blocked_syscall) × (unread q ≡ []))
      → IsRunning ev eq (changed h core q)
        × (program ev eq (changed h core q) ≡ program ev eq h)
        × (pending ev eq (changed h core q) ≡ pending ev eq h)
        × IsSameHart h (changed h core q)
  changed-IsRunning h core q r v same id sched waits = (
    record {
      ready = record {
        valid = v;
        events = subst (All IsEvent) (sym same) r.ready.events;
        idle = r.ready.idle;
      };
      links =
          subst (λ es. IsLinked h.cpu.fetch_width h.cpu.next_pc (h.cpu.inst_buffer ++ insts es))
            (sym same) r.links;
      ends = subst EndsLast (sym same) r.ends;
      scheduled = sched;
      waits = waits;
    },
    ap (λ es. h.trace ++ (h.cpu.inst_buffer ++ insts es)) same,
    ap (λ es. length es + length h.cpu.inst_buffer) same,
    record { boot = refl; hart_id = id; worker = λ n. refl },
  )

  pub wake-Proceeds :
      (h : Hart E Q)
      → IsRunning ev eq h
      → h.cpu.status ≡ blocked_syscall
      → unread h.iss.event_queue ≡ []
      → (h' : Hart E Q) × (handle_wake_up_monitor_event ev eq (take_monitor ev eq h) ≡ done h')
        × Proceeds ev eq h h'
  unfolding schedule_wake_up_monitor_event
  wake-Proceeds h r b empty =
      let q = (try_take h.iss.event_queue).1 in
      let (v, same, hand) = eq.try_take_lem h.iss.event_queue r.ready.valid empty in
      let core = schedule_wake_up_monitor_event ev (take_monitor ev eq h).cpu.core in
      let h1 = changed h core q in
      elim (Bool-cases (try_take h.iss.event_queue).0) [
        | inl some_more ↦
            let (now, ticks, _, _, _, _) = resume_lem ev eq h1 in
            let woken = (resume ev eq h1).cpu.core in
            let (run, prog, left, who) =
              changed-IsRunning h woken q r v same (resume-hart_id h1)
                (subst (λ st. Scheduling ev eq st woken.tick_event woken.wakeup_monitor_event)
                  (sym now) ticks)
                (inl now) in
            (
              changed h (resume ev eq h1).cpu.core q,
              wake_step (take_monitor ev eq h) b ∙ rw some_more (ap done (resume-changed h core q)),
              (
                prog,
                who,
                inl (run, inl (omega (arith, left, ap waiting_weight now, ap waiting_weight b))),
              ),
            )
        | inr nothing ↦
            let (run, prog, left, who) =
              changed-IsRunning h core q r v same refl
                (subst (λ st. Scheduling ev eq st h.cpu.tick_event core.wakeup_monitor_event)
                  (sym b) (no_tick, ev.scheduled _))
                (inr (b, hand nothing)) in
            (
              h1,
              wake_step (take_monitor ev eq h) b ∙ rw nothing,
              (
                prog,
                who,
                inl (
                  run,
                  inr (
                    omega (arith, left),
                    eq.try_take_waits h.iss.event_queue r.ready.valid empty (EndsLast-ne _ r.ends)
                        nothing,
                  ),
                ),
              ),
            )
      ]
    where
      no_tick : ev.is_scheduled h.cpu.tick_event ≡ false
      no_tick =
          let s : Scheduling ev eq blocked_syscall h.cpu.tick_event h.cpu.wakeup_monitor_event =
            subst (λ st. Scheduling ev eq st h.cpu.tick_event h.cpu.wakeup_monitor_event) b
              r.scheduled in
          s.0

  pub fire-Proceeds :
      (h : Hart E Q)
      → IsRunning ev eq h
      → (h' : Hart E Q) × (fire ev eq h ≡ done h') × Proceeds ev eq h h'
  unfolding fire
  fire-Proceeds h r = elim r.waits [
    | inl a ↦
        let (h', returned, p) = tick-Proceeds ev eq h r a in
        let ticks : ev.is_scheduled h.cpu.tick_event ≡ true =
          subst (λ st. Scheduling ev eq st h.cpu.tick_event h.cpu.wakeup_monitor_event) a
            r.scheduled in
        (h', rw ticks returned, p)
    | inr (b, empty) ↦
        let (h', returned, p) = wake-Proceeds h r b empty in
        let s : Scheduling ev eq blocked_syscall h.cpu.tick_event h.cpu.wakeup_monitor_event =
          subst (λ st. Scheduling ev eq st h.cpu.tick_event h.cpu.wakeup_monitor_event) b
            r.scheduled in
        (h', rw (s.0, s.1) returned, p)
  ]

  abbrev Ends : Hart E Q → Type 0
  Ends h =
      (n : ℕ) × (h' : Hart E Q) × (run_events ev eq n h ≡ done h')
      × HasEnded ev eq h'
      × (program ev eq h' ≡ program ev eq h)
      × IsSameHart h h'

  run_after :
      (h h' : Hart E Q)
      → fire ev eq h ≡ done h'
      → program ev eq h' ≡ program ev eq h
      → IsSameHart h h'
      → Ends h'
      → Ends h
  unfolding run_events
  run_after h h' fired same who (n, k, ran, over, prog, id) = (
    suc n,
    k,
    ap (λ m. m >>= run_events ev eq n) fired ∙ ran,
    over,
    prog ∙ same,
    IsSameHart-trans who id,
  )

  run_near :
      (w : ℕ)
      → ((k : Hart E Q) → IsRunning ev eq k → weight ev eq k < w → Ends k)
      → (d : ℕ) (h : Hart E Q) → IsRunning ev eq h
      → weight ev eq h ≤ w
      → delay h.iss.event_queue < d
      → Ends h
  unfolding run_events
  run_near w lighter zero h r fits near = absurd (omega arith)
  run_near w lighter (suc d) h r fits near =
      let (h', fired, (same, who, next)) = fire-Proceeds h r in
      run_after h h' fired same who (elim next [
        | inr over ↦
            (0, h', refl, over, refl, record { boot = refl; hart_id = refl; worker = λ n. refl })
        | inl p ↦ elim p.1 [
          | inl less ↦ lighter h' p.0 (omega arith)
          | inr q ↦ run_near w lighter d h' p.0 (omega (arith, q.0)) (omega (arith, q.1))
        ]
      ])

  run_within : (w : ℕ) (h : Hart E Q) → IsRunning ev eq h → weight ev eq h < w → Ends h
  run_within zero h r fits = absurd (omega arith)
  run_within (suc w) h r fits =
      run_near w (run_within w) (suc (delay h.iss.event_queue)) h r (omega arith) (omega arith)

  -- The program of a hart behind its thread: what it has executed, and what it has left in its buffer.
  pub ended-program :
      (h : Hart E Q) → HasEnded ev eq h → program ev eq h ≡ h.trace ++ h.cpu.inst_buffer
  unfolding insts
  ended-program h c =
      ap (λ es. h.trace ++ (h.cpu.inst_buffer ++ insts es)) c.nothing_left
      ∙ ap (λ b. h.trace ++ b) (append-nil h.cpu.inst_buffer)

  -- A hart that runs a thread whose instructions lead from one to the next ends it after finitely many
  -- events of its scheduler. Then no tick is scheduled, no event is left to be read, and the
  -- instructions that it has executed, with those left in its buffer, are all those of the thread, in
  -- order; a boot hart is completed, with its process, and another hart is inactive and watches for
  -- work.
  pub run_events-HasEnded :
      (h : Hart E Q)
      → IsRunning ev eq h
      → (n : ℕ) × (h' : Hart E Q) × (run_events ev eq n h ≡ done h')
        × HasEnded ev eq h'
        × IsSameHart h h'
        × (h'.trace ++ h'.cpu.inst_buffer
            ≡ h.trace ++ (h.cpu.inst_buffer ++ insts (stream h.iss.event_queue)))
  run_events-HasEnded h r =
      let (n, h', ran, over, same, who) = run_within (suc (weight ev eq h)) h r (omega arith) in
      (n, h', ran, over, who, sym (ended-program h' over) ∙ same)

  pub same_boot :
      (h h' : Hart E Q)
      → IsSameHart h h'
      → (h.cpu.hart_id == h.process.boot_hart) ≡ true
      → (h'.cpu.hart_id == h'.process.boot_hart) ≡ true
  same_boot h h' who boot = rw (who.boot, who.hart_id) boot

  -- A boot hart that runs a thread whose instructions lead from one to the next completes it after
  -- finitely many events of its scheduler. Then its process is completed, no tick is scheduled, no
  -- event is left to be read, and the instructions that it has executed, with those left in its
  -- buffer, are all those of the thread, in order.
  pub run_events-HasCompleted :
      (h : Hart E Q)
      → IsRunning ev eq h
      → (h.cpu.hart_id == h.process.boot_hart) ≡ true
      → (n : ℕ) × (h' : Hart E Q) × (run_events ev eq n h ≡ done h')
        × HasCompleted ev eq h'
        × (h'.trace ++ h'.cpu.inst_buffer
            ≡ h.trace ++ (h.cpu.inst_buffer ++ insts (stream h.iss.event_queue)))
  run_events-HasCompleted h r boot =
      let (n, h', ran, over, who, same) = run_events-HasEnded h r in
      (n, h', ran, HasEnded-HasCompleted ev eq h' over (same_boot h h' who boot), same)
