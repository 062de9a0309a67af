-- ===== src/Hart/Reach.antt =====
-- The states of a boot hart in whatever order the scheduler takes out its events.
use arch_xplore.Base.{
  ◌==◌, ◌++◌, true, Outcome, done, ◌≡◌, ◌⊎◌, inl, inr, refl, sym, ap, ◌∙◌, arith, subst,
}
use arch_xplore.Cpu.Status.{active, blocked_syscall, completed}
use arch_xplore.Cpu.Core.{UniqueEvent, schedule_wake_up_monitor_event}
use arch_xplore.Iss.Queue.{EventQueue}
use arch_xplore.Hart.State.{Hart}
use arch_xplore.Hart.Spec.{insts}
use arch_xplore.Hart.TickLaws.{program}
use arch_xplore.Hart.Tick.{handle_tick_event, handle_wake_up_monitor_event, wake_up_monitor}
use arch_xplore.Hart.Scheduling.{Scheduling}
use arch_xplore.Hart.Effects.{IsSameHart, IsSameHart-trans}
use arch_xplore.Hart.Running.{
  take_tick, take_monitor, fire, IsRunning, HasEnded, HasCompleted, HasEnded-HasCompleted,
  tick-Proceeds,
}
use arch_xplore.Hart.Completion.{
  same_boot, changed, changed-IsRunning, wake-Proceeds, fire-Proceeds,
}

-- A step takes out an event that is scheduled, and its handler returns.
pub data Reaches {E Q : Type 0} {V : Q → Type 0} (ev : UniqueEvent E) (eq : EventQueue Q V)
    (h : Hart E Q) : Hart E Q → Type 0 where
  here : Reaches ev eq h h
  ticks :
      (k k' : Hart E Q)
      → Reaches ev eq h k
      → ev.is_scheduled k.cpu.tick_event ≡ true
      → handle_tick_event ev eq (take_tick ev eq k) ≡ done k'
      → Reaches ev eq h k'
  watches :
      (k k' : Hart E Q)
      → Reaches ev eq h k
      → ev.is_scheduled k.cpu.wakeup_monitor_event ≡ true
      → handle_wake_up_monitor_event ev eq (take_monitor ev eq k) ≡ done k'
      → Reaches ev eq h k'

same_done : {A : Type 0} (a b : A) (m : Outcome A) → m ≡ done a → m ≡ done b → a ≡ b
same_done a b m f g = ground arith

module _ {E Q : Type 0} {V : Q → Type 0} (ev : UniqueEvent E) (eq : EventQueue Q V) where
  open eq use {stream}

  -- In the middle of its thread, or behind it.
  abbrev InThread : Hart E Q → Type 0
  InThread k = IsRunning ev eq k ⊎ HasCompleted ev eq k

  abbrev Stays : Hart E Q → Hart E Q → Type 0
  Stays h k = InThread k × (program ev eq k ≡ program ev eq h) × IsSameHart h k

  abbrev IsBoot : Hart E Q → Type 0
  IsBoot k = (k.cpu.hart_id == k.process.boot_hart) ≡ true

  -- What the handlers make of a boot hart.
  boot-Stays :
      (h k : Hart E Q) {X : Type 0}
      → IsBoot h
      → program ev eq k ≡ program ev eq h
      → IsSameHart h k
      → (IsRunning ev eq k × X) ⊎ HasEnded ev eq k
      → Stays h k
  boot-Stays h k boot prog who (inl x) = (inl x.0, prog, who)
  boot-Stays h k boot prog who (inr over) =
      (inr (HasEnded-HasCompleted ev eq k over (same_boot ev eq h k who boot)), prog, who)

  abbrev pub watched : Hart E Q → Hart E Q
  watched k =
      changed ev eq k (schedule_wake_up_monitor_event ev (take_monitor ev eq k).cpu.core)
        k.iss.event_queue

  -- The handler of the monitor does nothing but watch on, unless the hart waits.
  watch_active :
      (k : Hart E Q)
      → k.cpu.status ≡ active
      → handle_wake_up_monitor_event ev eq (take_monitor ev eq k) ≡ done (watched k)
  unfolding handle_wake_up_monitor_event schedule_wake_up_monitor_event wake_up_monitor
  watch_active k a = ap (λ st. wake_up_monitor ev eq st (watched k)) a

  pub watch_completed :
      (k : Hart E Q)
      → k.cpu.status ≡ completed
      → handle_wake_up_monitor_event ev eq (take_monitor ev eq k) ≡ done (watched k)
  unfolding handle_wake_up_monitor_event schedule_wake_up_monitor_event wake_up_monitor
  watch_completed k c = ap (λ st. wake_up_monitor ev eq st (watched k)) c

  watch-Stays :
      (k k' : Hart E Q)
      → IsBoot k
      → InThread k
      → handle_wake_up_monitor_event ev eq (take_monitor ev eq k) ≡ done k'
      → Stays k k'
  unfolding schedule_wake_up_monitor_event
  watch-Stays k k' boot (inl r) returned = elim r.waits [
    | inl a ↦
        let same : watched k ≡ k' = same_done _ _ _ (watch_active k a) returned in
        let ticks : Scheduling ev eq k.cpu.status k.cpu.tick_event
            (watched k).cpu.wakeup_monitor_event =
          subst (λ st. Scheduling ev eq st k.cpu.tick_event (watched k).cpu.wakeup_monitor_event)
            (sym a)
            (subst (λ st. Scheduling ev eq st k.cpu.tick_event k.cpu.wakeup_monitor_event) a
              r.scheduled) in
        let (run, prog, _, who) =
          changed-IsRunning ev eq k (watched k).cpu.core k.iss.event_queue r r.ready.valid refl refl
            ticks (inl a) in
        subst (Stays k) same (inl run, prog, who)
    | inr (b, empty) ↦
        let (w, there, (prog, who, next)) = wake-Proceeds ev eq k r b empty in
        subst (Stays k) (same_done _ _ _ there returned) (boot-Stays k w boot prog who next)
  ]
  watch-Stays k k' boot (inr c) returned =
      let same : watched k ≡ k' = same_done _ _ _ (watch_completed k c.status) returned in
      subst (Stays k) same (
        inr (record {
          nothing_left = c.nothing_left;
          status = c.status;
          process = c.process;
          no_tick = c.no_tick;
        }),
        refl,
        record { boot = refl; hart_id = refl; worker = λ n. refl },
      )

  tick-Stays :
      (k k' : Hart E Q)
      → IsBoot k
      → InThread k
      → ev.is_scheduled k.cpu.tick_event ≡ true
      → handle_tick_event ev eq (take_tick ev eq k) ≡ done k'
      → Stays k k'
  tick-Stays k k' boot (inl r) due returned = elim r.waits [
    | inl a ↦
        let (w, there, (prog, who, next)) = tick-Proceeds ev eq k r a in
        subst (Stays k) (same_done _ _ _ there returned) (boot-Stays k w boot prog who next)
    | inr (b, empty) ↦
        let s : Scheduling ev eq blocked_syscall k.cpu.tick_event k.cpu.wakeup_monitor_event =
          subst (λ st. Scheduling ev eq st k.cpu.tick_event k.cpu.wakeup_monitor_event) b
            r.scheduled in
        absurd (ground (arith, s.0))
  ]
  tick-Stays k k' boot (inr c) due returned = absurd (ground (arith, c.no_tick))

  next-Stays : {h k k' : Hart E Q} → Stays h k → Stays k k' → Stays h k'
  next-Stays (i, prog, who) (i', prog', who') = (i', prog' ∙ prog, IsSameHart-trans who who')

  Reaches-Stays : {h k : Hart E Q} → IsRunning ev eq h → IsBoot h → Reaches ev eq h k → Stays h k
  Reaches-Stays {h} r boot here =
      (inl r, refl, record { boot = refl; hart_id = refl; worker = λ n. refl })
  Reaches-Stays {h} r boot (ticks k k' before due returned) =
      let (i, prog, who) = Reaches-Stays r boot before in
      next-Stays (i, prog, who) (tick-Stays k k' (same_boot ev eq h k who boot) i due returned)
  Reaches-Stays {h} r boot (watches k k' before due returned) =
      let (i, prog, who) = Reaches-Stays r boot before in
      next-Stays (i, prog, who) (watch-Stays k k' (same_boot ev eq h k who boot) i returned)

  -- In whatever order the scheduler takes out the events of a boot hart in the middle of its thread, the
  -- instructions that were executed, those that wait and those that are to come are those of the
  -- thread, in order; and either the hart has completed, or it has an event scheduled whose handler
  -- returns.
  pub Reaches-program :
      (h k : Hart E Q)
      → IsRunning ev eq h
      → (h.cpu.hart_id == h.process.boot_hart) ≡ true
      → Reaches ev eq h k
      → (k.trace ++ (k.cpu.inst_buffer ++ insts (stream k.iss.event_queue))
          ≡ h.trace ++ (h.cpu.inst_buffer ++ insts (stream h.iss.event_queue)))
        × (HasCompleted ev eq k
            ⊎ (IsRunning ev eq k × ((k' : Hart E Q) × (fire ev eq k ≡ done k'))))
  Reaches-program h k r boot reached =
      let (i, prog, _) = Reaches-Stays r boot reached in
      (
        prog,
        elim i [
          | inl run ↦ let (k', fired, _) = fire-Proceeds ev eq k run in inr (run, (k', fired))
          | inr over ↦ inl over
        ],
      )
