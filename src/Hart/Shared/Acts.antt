-- ===== src/Hart/Shared/Acts.antt =====
-- What each hart of a process does on its way to the end.
use arch_xplore.Base.{
  ℕ, ◌<◌, [], true, false, ◌==◌, length, replicate, get_elem?, get_elem?-some, some, done, ◌≡◌, ◌≢◌,
  ◌⊎◌, inl, inr, refl, sym, ap, ◌∙◌, subst, arith, ℕ_discrete,
}
use arch_xplore.Cpu.Status.{completed}
use arch_xplore.Cpu.Core.{UniqueEvent}
use arch_xplore.Sys.Processes.{Process}
use arch_xplore.Iss.Queue.{EventQueue}
use arch_xplore.Hart.State.{Hart}
use arch_xplore.Hart.Running.{run_events, IsRunning}
use arch_xplore.Hart.Completion.{run_events-HasCompleted}
use arch_xplore.Hart.Shared.{ProcessHarts, share, fire_harts}
use arch_xplore.Hart.Shared.Phases.{Phase, share-Phase, share-IsDormant, share-IsRunning}
use arch_xplore.Hart.Shared.Steps.{IsSettled}
use arch_xplore.Hart.Shared.Settling.{settle_lem, finish_lem}
use arch_xplore.Hart.Shared.Sweep.{run-Alone}

module _ {E Q : Type 0} {V : Q → Type 0} (ev : UniqueEvent E) (eq : EventQueue Q V) where
  open eq use {stream}

  -- Nothing is left to be read, and the hart is behind its thread or completed.
  abbrev pub IsRead : Hart E Q → Type 0
  IsRead h = IsSettled ev eq h × (stream h.iss.event_queue ≡ [])

  share-IsRead : (p : Process) (h : Hart E Q) → IsRead h → IsRead (share p h)
  share-IsRead p h (inl (d, e), left) = (inl (share-IsDormant ev eq p h d, e), left)
  share-IsRead p h (inr x, left) = (inr x, left)

  -- The boot hart in its thread, which is hart `b` of the list.
  abbrev pub IsBoot : ℕ → ℕ → ℕ → Hart E Q → Type 0
  IsBoot b boot j h = (j ≡ b) × IsRunning ev eq h × ((h.cpu.hart_id == boot) ≡ true)

  abbrev pub Before : ℕ → ℕ → ℕ → Hart E Q → Type 0
  Before b boot j h =
      IsBoot b boot j h
      ⊎ ((j ≢ b) × Phase ev eq h × (h.cpu.status ≢ completed) × ((h.cpu.hart_id == boot) ≡ false))

  abbrev pub Behind : ℕ → ℕ → ℕ → Hart E Q → Type 0
  Behind b boot j h = IsBoot b boot j h ⊎ ((j ≢ b) × IsRead h)

  pub Behind-apart :
      (b boot j : ℕ) (p : Process) (h : Hart E Q) → Behind b boot j (share p h) → Behind b boot j h
  Behind-apart b boot j p h (inl (at_b, run, id)) =
      inl (at_b, share-IsRunning ev eq h.process (share p h) run, id)
  Behind-apart b boot j p h (inr (away, s)) = inr (away, share-IsRead h.process (share p h) s)

  -- The process goes on, with boot hart `boot`.
  abbrev pub GoesOn : ℕ → Process → Type 0
  GoesOn boot p = (p.boot_hart ≡ boot) × (p.is_completed ≡ false)

  -- First every other hart comes behind its thread.
  pub settle_act :
      (b boot j : ℕ) (p : Process) (h : Hart E Q)
      → GoesOn boot p
      → Before b boot j h
      → (n : ℕ) × (h' : Hart E Q) × (run_events ev eq n (share p h) ≡ done h')
        × Behind b boot j h'
        × GoesOn boot h'.process
  unfolding run_events
  settle_act b boot j p h good (inl (at_b, run, id)) =
      (0, share p h, refl, inl (at_b, share-IsRunning ev eq p h run, id), good)
  settle_act b boot j p h (same, goes_on) (inr (away, phase, going, other)) =
      let worker : (h.cpu.hart_id == p.boot_hart) ≡ false = rw same other in
      let (n, h', ran, behind, who) =
        settle_lem ev eq (share p h) (share-Phase ev eq p h phase) going (worker, goes_on) in
      let kept = who.worker worker in
      (
        n,
        h',
        ran,
        inr (away, (inl behind, behind.1)),
        (ap (λ q. q.boot_hart) kept ∙ same, ap (λ q. q.is_completed) kept ∙ goes_on),
      )

  -- Last, the harts are completed.
  abbrev pub IsOver : ℕ → Hart E Q → Type 0
  IsOver j h = (h.cpu.status ≡ completed) × (stream h.iss.event_queue ≡ [])

  pub finish_act :
      (j : ℕ) (p : Process) (h : Hart E Q)
      → p.is_completed ≡ true
      → IsRead h
      → (n : ℕ) × (h' : Hart E Q) × (run_events ev eq n (share p h) ≡ done h')
        × IsOver j h'
        × (h'.process.is_completed ≡ true)
  finish_act j p h over read =
      let (settled, left) = share-IsRead p h read in
      let (n, h', ran, st, same, same_stream) = finish_lem ev eq (share p h) settled over in
      (n, h', ran, (st, same_stream ∙ left), ap (λ q. q.is_completed) same ∙ over)

  -- Between them the boot hart runs its thread to the end, and completes the process.
  pub boot_runs :
      (b boot : ℕ) (m : ProcessHarts E Q)
      → b < length m.harts
      → m.process.boot_hart ≡ boot
      → ((j : ℕ) (k : Hart E Q) → get_elem? m.harts j ≡ some k → Behind b boot j k)
      → (n : ℕ) × (m' : ProcessHarts E Q) × (fire_harts ev eq (replicate n b) m ≡ done m')
        × (m'.process.is_completed ≡ true)
        × (length m'.harts ≡ length m.harts)
        × ((j : ℕ) (k : Hart E Q) → get_elem? m'.harts j ≡ some k → IsRead k)
  boot_runs b boot m small same behind =
      let (h, found) = get_elem?-some m.harts b small in
      let (_, run, id) : IsBoot b boot b h = elim (behind b h found) [
        | inl is_boot ↦ is_boot
        | inr (away, _) ↦ absurd (away refl)
      ] in
      let (n, h', ran, ended, _) =
        run_events-HasCompleted ev eq (share m.process h) (share-IsRunning ev eq m.process h run)
          (subst (λ i. (h.cpu.hart_id == i) ≡ true) (sym same) id) in
      let read : IsRead h' = (inr (ended.status, ended.no_tick), ended.nothing_left) in
      let (m', ran', a) = run-Alone ev eq b n m h h' found ran in
      (
        n,
        m',
        ran',
        ap (λ p. p.is_completed) a.process ∙ ended.process,
        a.len,
        λ j k there. elim (ℕ_discrete j b) [
          | yes at_b ↦
              let found_k = subst (λ i. get_elem? m'.harts i ≡ some k) at_b there in
              let is_k : a.hart ≡ k = ground (arith, a.found) in
              let same_k : share m'.process k ≡ h' = ap (share m'.process) (sym is_k) ∙ a.same in
              share-IsRead k.process (share m'.process k) (subst IsRead (sym same_k) read)
          | no away ↦ elim (behind j k (sym (a.others j away) ∙ there)) [
            | inl (at_b, _, _) ↦ absurd (away at_b)
            | inr (_, settled) ↦ settled
          ]
        ],
      )
