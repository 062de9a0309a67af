-- ===== src/Hart/Worker/Cycle.antt =====
-- A sleeping hart gets a thread, runs it, and sleeps again.
use arch_xplore.Base.{
  ℕ, zero, suc, ◌<◌, [], ◌++◌, true, false, ◌==◌, done, ◌>>=◌, ◌≡◌, inl, inr, ap, ◌∙◌, arith,
}
use arch_xplore.Cpu.Status.{inactive}
use arch_xplore.Cpu.Core.{UniqueEvent}
use arch_xplore.Iss.Queue.{EventQueue}
use arch_xplore.Hart.State.{Hart}
use arch_xplore.Hart.Spec.{insts}
use arch_xplore.Hart.TickLaws.{program}
use arch_xplore.Hart.Effects.{IsSameHart, IsSameHart-trans}
use arch_xplore.Hart.Running.{fire, run_events, HasEnded}
use arch_xplore.Hart.Completion.{run_events-HasEnded}
use arch_xplore.Hart.Worker.{IsThread, IsAsleep}
use arch_xplore.Hart.Worker.Waking.{fire-Wakes}

module _ {E Q : Type 0} {V : Q → Type 0} (ev : UniqueEvent E) (eq : EventQueue Q V) where
  open eq use {stream, unread, try_take, delay}

  -- A hart behind its thread, in the same hart and with the same program.
  abbrev Returns : Hart E Q → Type 0
  Returns h =
      (n : ℕ) × (h' : Hart E Q) × (run_events ev eq n h ≡ done h')
      × HasEnded ev eq h'
      × IsSameHart h h'
      × (h'.trace ++ h'.cpu.inst_buffer ≡ program ev eq h)

  fired_first :
      (h h' : Hart E Q)
      → fire ev eq h ≡ done h'
      → program ev eq h' ≡ program ev eq h
      → IsSameHart h h'
      → Returns h'
      → Returns h
  unfolding run_events
  fired_first h h' fired prog who (n, k, ran, over, who', same) = (
    suc n,
    k,
    ap (λ m. m >>= run_events ev eq n) fired ∙ ran,
    over,
    IsSameHart-trans who who',
    same ∙ prog,
  )

  wakes_within :
      (d : ℕ) (h : Hart E Q)
      → IsAsleep ev eq h
      → IsThread h.cpu.fetch_width (stream h.iss.event_queue)
      → delay h.iss.event_queue < d
      → Returns h
  unfolding run_events
  wakes_within zero h a t near = absurd (omega arith)
  wakes_within (suc d) h a t near =
      let (h', fired, (prog, who, next)) = fire-Wakes ev eq h a t in
      fired_first h h' fired prog who (elim next [
        | inl run ↦ run_events-HasEnded ev eq h' run
        | inr (a', t', less) ↦ wakes_within d h' a' t' (omega arith)
      ])

  -- A hart that is not the boot hart, sleeps without work in a process that goes on, and is to get a
  -- thread that is not over with its first fetch, wakes up when the thread's first message comes and
  -- runs the thread to its end, after finitely many events of its scheduler. Then it is inactive again,
  -- does not tick and watches for work; and what it has executed, with what is left in its buffer, is
  -- what it had executed before and the whole thread, in order.
  pub worker_lem :
      (h : Hart E Q)
      → IsAsleep ev eq h
      → (h.cpu.hart_id == h.process.boot_hart) ≡ false
      → IsThread h.cpu.fetch_width (stream h.iss.event_queue)
      → (n : ℕ) × (h' : Hart E Q) × (run_events ev eq n h ≡ done h')
        × (h'.cpu.status ≡ inactive)
        × (ev.is_scheduled h'.cpu.tick_event ≡ false)
        × (ev.is_scheduled h'.cpu.wakeup_monitor_event ≡ true)
        × (stream h'.iss.event_queue ≡ [])
        × (h'.trace ++ h'.cpu.inst_buffer ≡ h.trace ++ insts (stream h.iss.event_queue))
  worker_lem h a other t =
      let (n, h', ran, over, who, same) =
        wakes_within (suc (delay h.iss.event_queue)) h a t (omega arith) in
      let not_boot : (h'.cpu.hart_id == h'.process.boot_hart) ≡ false =
        rw (who.boot, who.hart_id) other in
      elim over.over.rest [
        | inl (st, pr, b) ↦ absurd (ground arith)
        | inr (st, mon, b) ↦ (
          n,
          h',
          ran,
          st,
          over.over.no_tick,
          mon,
          over.nothing_left,
          same ∙ ap (λ b. h.trace ++ (b ++ insts (stream h.iss.event_queue))) a.buffer,
        )
      ]
