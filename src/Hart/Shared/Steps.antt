-- ===== src/Hart/Shared/Steps.antt =====
-- An event of a hart in one of its phases leaves it in one, with the same program.
use arch_xplore.Base.{
  [], ◌++◌, false, done, ◌≡◌, ◌⊎◌, inl, inr, refl, sym, ap, ◌∙◌, subst, Bool-cases,
}
use arch_xplore.Cpu.Status.{completed}
use arch_xplore.Cpu.Core.{UniqueEvent, schedule_wake_up_monitor_event}
use arch_xplore.Iss.Queue.{EventQueue}
use arch_xplore.Hart.State.{Hart}
use arch_xplore.Hart.Spec.{insts}
use arch_xplore.Hart.TickLaws.{program}
use arch_xplore.Hart.Effects.{IsSameHart}
use arch_xplore.Hart.Running.{fire, HasEnded}
use arch_xplore.Hart.Completion.{fire-Proceeds}
use arch_xplore.Hart.Reach.{watched, watch_completed}
use arch_xplore.Hart.Worker.{IsThread}
use arch_xplore.Hart.Worker.Waking.{fire_woken}
use arch_xplore.Hart.Shared.Phases.{
  IsDormant, Phase, before_thread, in_thread, behind_thread, finished, Waited, fire-Waited,
}

module _ {E Q : Type 0} {V : Q → Type 0} (ev : UniqueEvent E) (eq : EventQueue Q V) where
  open eq use {stream, try_take}

  -- A hart in one of its phases, that is the same hart with the same program.
  abbrev pub Keeps : Hart E Q → Hart E Q → Type 0
  Keeps h h' = Phase ev eq h' × (program ev eq h' ≡ program ev eq h) × IsSameHart h h'

  abbrev Fires : Hart E Q → Type 0
  Fires h = (h' : Hart E Q) × (fire ev eq h ≡ done h') × Keeps h h'

  Waited-program : (h h' : Hart E Q) → Waited ev eq h h' → program ev eq h' ≡ program ev eq h
  Waited-program h h' w =
      ap (λ t. t ++ (h'.cpu.inst_buffer ++ insts (stream h'.iss.event_queue))) w.trace
      ∙ ap (λ b. h.trace ++ (b ++ insts (stream h'.iss.event_queue))) w.buffer
      ∙ ap (λ es. h.trace ++ (h.cpu.inst_buffer ++ insts es)) w.stream_same

  pub Waited-IsSameHart : (h h' : Hart E Q) → Waited ev eq h h' → IsSameHart h h'
  Waited-IsSameHart h h' w = record {
    boot = ap (λ p. p.boot_hart) w.process;
    hart_id = w.hart_id;
    worker = λ n. w.process;
  }

  before-Fires :
      (h : Hart E Q)
      → IsDormant ev eq h
      → h.cpu.inst_buffer ≡ []
      → IsThread h.cpu.fetch_width (stream h.iss.event_queue)
      → Fires h
  before-Fires h d b t = elim (Bool-cases (try_take h.iss.event_queue).0) [
    | inl some_more ↦
        let (h', fired, prog, who, run) =
          fire_woken ev eq h d.ready d.status b d.at_end d.no_tick d.watching t some_more in
        (h', fired, (in_thread run, prog, who))
    | inr nothing ↦
        let (h', fired, w) = fire-Waited ev eq h d nothing in
        let t' : IsThread h'.cpu.fetch_width (stream h'.iss.event_queue) =
          subst (λ n. IsThread n (stream h'.iss.event_queue)) (sym w.width)
            (subst (IsThread h.cpu.fetch_width) (sym w.stream_same) t) in
        let phase : Phase ev eq h' = elim w.now [
          | inl (_, st, no_tick) ↦ finished st no_tick
          | inr (_, d') ↦ before_thread d' (w.buffer ∙ b) t'
        ] in
        (h', fired, (phase, Waited-program h h' w, Waited-IsSameHart h h' w))
  ]

  behind-Fires : (h : Hart E Q) → IsDormant ev eq h → stream h.iss.event_queue ≡ [] → Fires h
  behind-Fires h d e =
      let nothing = eq.try_take_none h.iss.event_queue d.ready.valid e in
      let (h', fired, w) = fire-Waited ev eq h d nothing in
      let phase : Phase ev eq h' = elim w.now [
        | inl (_, st, no_tick) ↦ finished st no_tick
        | inr (_, d') ↦ behind_thread d' (w.stream_same ∙ e)
      ] in
      (h', fired, (phase, Waited-program h h' w, Waited-IsSameHart h h' w))

  -- Behind its thread, or completed.
  abbrev pub IsSettled : Hart E Q → Type 0
  IsSettled h =
      (IsDormant ev eq h × (stream h.iss.event_queue ≡ []))
      ⊎ ((h.cpu.status ≡ completed) × (ev.is_scheduled h.cpu.tick_event ≡ false))

  pub ended-IsSettled : (h : Hart E Q) → HasEnded ev eq h → IsSettled h
  ended-IsSettled h end = elim end.over.rest [
    | inl (st, pr, b) ↦ inr (st, end.over.no_tick)
    | inr (st, mon, b) ↦ inl (
      record {
        ready = end.ready;
        status = st;
        at_end = eq.unread_none h.iss.event_queue end.ready.valid end.nothing_left;
        no_tick = end.over.no_tick;
        watching = mon;
      },
      end.nothing_left,
    )
  ]

  ended-Phase : (h : Hart E Q) → HasEnded ev eq h → Phase ev eq h
  ended-Phase h end = elim (ended-IsSettled h end) [
    | inl (d, e) ↦ behind_thread d e
    | inr (st, no_tick) ↦ finished st no_tick
  ]

  finished-Fires :
      (h : Hart E Q) → h.cpu.status ≡ completed → ev.is_scheduled h.cpu.tick_event ≡ false → Fires h
  unfolding fire schedule_wake_up_monitor_event
  finished-Fires h st no_tick = elim (Bool-cases (ev.is_scheduled h.cpu.wakeup_monitor_event)) [
    | inl watching ↦ (
      watched ev eq h,
      rw (no_tick, watching) (watch_completed ev eq h st),
      (finished st no_tick, refl, record { boot = refl; hart_id = refl; worker = λ n. refl }),
    )
    | inr quiet ↦ (
      h,
      rw (no_tick, quiet),
      (finished st no_tick, refl, record { boot = refl; hart_id = refl; worker = λ n. refl }),
    )
  ]

  pub fire-Fires : (h : Hart E Q) → Phase ev eq h → Fires h
  fire-Fires h (before_thread d b t) = before-Fires h d b t
  fire-Fires h (behind_thread d e) = behind-Fires h d e
  fire-Fires h (finished st no_tick) = finished-Fires h st no_tick
  fire-Fires h (in_thread r) =
      let (h', fired, (prog, who, next)) = fire-Proceeds ev eq h r in
      let phase : Phase ev eq h' = elim next [
        | inl (run, _) ↦ in_thread run
        | inr end ↦ ended-Phase h' end
      ] in
      (h', fired, (phase, prog, who))
