-- ===== src/Hart/Shared/Settling.antt =====
-- A hart of a process that runs alone comes behind its thread, or is completed.
use arch_xplore.Base.{
  ℕ, zero, suc, ◌<◌, List, [], ◌∷◌, ◌≢◌, true, false, ◌==◌, done, ◌>>=◌, ◌≡◌, inl, inr, refl, sym,
  ap, ◌∙◌, subst, arith, Bool-cases,
}
use arch_xplore.Cpu.Status.{completed}
use arch_xplore.Cpu.Core.{UniqueEvent}
use arch_xplore.Cpu.Events.{ThreadEvent}
use arch_xplore.Iss.Queue.{EventQueue}
use arch_xplore.Hart.State.{Hart}
use arch_xplore.Hart.Effects.{IsSameHart, IsSameHart-trans}
use arch_xplore.Hart.Running.{fire, run_events, IsRunning}
use arch_xplore.Hart.Completion.{run_events-HasEnded}
use arch_xplore.Hart.Worker.{IsThread}
use arch_xplore.Hart.Worker.Waking.{fire_woken}
use arch_xplore.Hart.Shared.Phases.{
  IsDormant, Phase, before_thread, in_thread, behind_thread, finished, fire-Waited,
}
use arch_xplore.Hart.Shared.Steps.{IsSettled, ended-IsSettled, Waited-IsSameHart}

module _ {E Q : Type 0} {V : Q → Type 0} (ev : UniqueEvent E) (eq : EventQueue Q V) where
  open eq use {stream, try_take, delay}

  -- Behind its thread.
  abbrev pub IsBehind : Hart E Q → Type 0
  IsBehind h = IsDormant ev eq h × (stream h.iss.event_queue ≡ [])

  -- A hart that is not the boot hart, of a process that goes on.
  abbrev pub IsWorker : Hart E Q → Type 0
  IsWorker h = ((h.cpu.hart_id == h.process.boot_hart) ≡ false) × (h.process.is_completed ≡ false)

  -- After some of its events the hart is behind its thread.
  abbrev CanSettle : Hart E Q → Type 0
  CanSettle h =
      (n : ℕ) × (h' : Hart E Q) × (run_events ev eq n h ≡ done h') × IsBehind h' × IsSameHart h h'

  fired_once :
      (h h' : Hart E Q) → fire ev eq h ≡ done h' → IsSameHart h h' → CanSettle h' → CanSettle h
  unfolding run_events
  fired_once h h' fired who (n, k, ran, settled, id) =
      (suc n, k, ap (λ m. m >>= run_events ev eq n) fired ∙ ran, settled, IsSameHart-trans who id)

  IsWorker-same : (h h' : Hart E Q) → IsSameHart h h' → IsWorker h → IsWorker h'
  IsWorker-same h h' who (other, goes_on) =
      (rw (who.boot, who.hart_id) other, ap (λ p. p.is_completed) (who.worker other) ∙ goes_on)

  settle_running : (h : Hart E Q) → IsRunning ev eq h → IsWorker h → CanSettle h
  settle_running h r worker =
      let (n, h', ran, end, who, _) = run_events-HasEnded ev eq h r in
      let (_, goes_on) = IsWorker-same h h' who worker in
      let behind : IsBehind h' = elim (ended-IsSettled ev eq h' end) [
        | inl d ↦ d
        | inr (st, _) ↦ elim end.over.rest [
          | inl (_, pr, _) ↦ absurd (ground arith)
          | inr (asleep, _, _) ↦ absurd (ground arith)
        ]
      ] in
      (n, h', ran, behind, who)

  settle_before :
      (d : ℕ) (h : Hart E Q)
      → IsDormant ev eq h
      → h.cpu.inst_buffer ≡ []
      → IsThread h.cpu.fetch_width (stream h.iss.event_queue)
      → IsWorker h
      → delay h.iss.event_queue < d
      → CanSettle h
  settle_before zero h a b t worker near = elim near [ ]
  settle_before (suc d) h a b t worker near = elim (Bool-cases (try_take h.iss.event_queue).0) [
    | inl some_more ↦
        let (h', fired, prog, who, run) =
          fire_woken ev eq h a.ready a.status b a.at_end a.no_tick a.watching t some_more in
        fired_once h h' fired who (settle_running h' run (IsWorker-same h h' who worker))
    | inr nothing ↦
        let (h', fired, w) = fire-Waited ev eq h a nothing in
        let who = Waited-IsSameHart ev eq h h' w in
        let t' : IsThread h'.cpu.fetch_width (stream h'.iss.event_queue) =
          subst (λ n. IsThread n (stream h'.iss.event_queue)) (sym w.width)
            (subst (IsThread h.cpu.fetch_width) (sym w.stream_same) t) in
        let closer : delay h'.iss.event_queue < delay h.iss.event_queue =
          subst (λ q. delay q < delay h.iss.event_queue) (sym w.queue)
            (eq.try_take_waits h.iss.event_queue a.ready.valid a.at_end
              (λ e. cons_ne (sym t.split ∙ e)) nothing) in
        fired_once h h' fired who (elim w.now [
          | inl (over, _, _) ↦ let goes_on = worker.1 in absurd (ground arith)
          | inr (_, a') ↦
              settle_before d h' a' (w.buffer ∙ b) t' (IsWorker-same h h' who worker) (omega arith)
        ])
  ]
    where
      cons_ne : {x : ThreadEvent} {xs : List ThreadEvent} → x ∷ xs ≡ [] → ⊥
      cons_ne e = cc

  -- A worker that is not completed comes behind its thread, and its process goes on.
  pub settle_lem :
      (h : Hart E Q) → Phase ev eq h → h.cpu.status ≢ completed → IsWorker h → CanSettle h
  unfolding run_events
  settle_lem h (before_thread a b t) going worker =
      settle_before (suc (delay h.iss.event_queue)) h a b t worker (omega arith)
  settle_lem h (in_thread r) going worker = settle_running h r worker
  settle_lem h (behind_thread a e) going worker =
      (0, h, refl, (a, e), record { boot = refl; hart_id = refl; worker = λ n. refl })
  settle_lem h (finished st no_tick) going worker = absurd (going st)

  -- One event of a settled hart whose process is completed completes the hart, and leaves the process.
  pub finish_lem :
      (h : Hart E Q)
      → IsSettled ev eq h
      → h.process.is_completed ≡ true
      → (n : ℕ) × (h' : Hart E Q) × (run_events ev eq n h ≡ done h')
        × (h'.cpu.status ≡ completed)
        × (h'.process ≡ h.process)
        × (stream h'.iss.event_queue ≡ stream h.iss.event_queue)
  unfolding run_events
  finish_lem h (inr (st, no_tick)) over = (0, h, refl, st, refl, refl)
  finish_lem h (inl (a, e)) over =
      let (h', fired, w) =
        fire-Waited ev eq h a (eq.try_take_none h.iss.event_queue a.ready.valid e) in
      (
        1,
        h',
        ap (λ m. m >>= run_events ev eq 0) fired,
        elim w.now [ inl (_, st, _) ↦ st | inr (goes_on, _) ↦ absurd (ground arith) ],
        w.process,
        w.stream_same,
      )
