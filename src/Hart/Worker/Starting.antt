-- ===== src/Hart/Worker/Starting.antt =====
-- What a sleeping hart has read when it has begun its thread.
use arch_xplore.Base.{
  [], ◌∷◌, ◌++◌, some, add64, done, ◌≡◌, inl, inr, refl, sym, ap, ◌∙◌, arith, subst, All,
}
use arch_xplore.Cpu.Status.{active}
use arch_xplore.Cpu.Core.{UniqueEvent, schedule_next_tick_event}
use arch_xplore.Iss.Queue.{EventQueue}
use arch_xplore.Hart.State.{Hart}
use arch_xplore.Hart.Spec.{insts, IsEvent, Fetched, fetch}
use arch_xplore.Hart.Fetch.{set_core, set_queue, init_cpu_state}
use arch_xplore.Hart.TickLaws.{program, IsReady, tick_lem, execute-iss}
use arch_xplore.Hart.Links.{IsLinked}
use arch_xplore.Hart.Effects.{IsSameHart, IsSameHart-trans}
use arch_xplore.Hart.Scheduling.{Scheduling}
use arch_xplore.Hart.Waking.{resume_lem}
use arch_xplore.Hart.Tick.{tick, reset, start_up, resume, execute, push_instructions}
use arch_xplore.Hart.Running.{IsRunning, start_up-Runs}
use arch_xplore.Hart.Completion.{changed, changed-IsRunning, resume-hart_id}
use arch_xplore.Hart.Worker.{IsThread}

module _ {E Q : Type 0} {V : Q → Type 0} (ev : UniqueEvent E) (eq : EventQueue Q V) where
  open eq use {stream, unread, try_take, delay}

  -- What a tick leaves to be read.
  tick-left :
      (h h' : Hart E Q) (r : Fetched)
      → IsReady ev eq h
      → fetch h.cpu.next_pc (add64 h.cpu.next_pc h.cpu.fetch_width) (stream h.iss.event_queue)
        ≡ some r
      → tick ev eq h ≡ done h'
      → stream h'.iss.event_queue ≡ r.rest
  unfolding push_instructions
  tick-left h h' r ready spec returned =
      let (h1, does, f) = tick_lem ev eq h r ready.valid ready.events ready.idle spec in
      let same : execute (push_instructions r.group h1) ≡ h' = ground arith in
      ap (λ k. stream k.iss.event_queue) (sym same)
      ∙ ap (λ s. stream s.event_queue) (execute-iss ev eq (push_instructions r.group h1))
      ∙ f.left

  pub start_up-left :
      (h h' : Hart E Q) (t : IsThread h.cpu.fetch_width (stream h.iss.event_queue))
      → IsReady ev eq h
      → start_up ev eq h ≡ done h'
      → stream h'.iss.event_queue ≡ t.fetched.rest
  unfolding start_up init_cpu_state reset schedule_next_tick_event
  start_up-left h h' t ready returned =
      let (q, does, same, v, _, _, _) =
        eq.front_lem h.iss.event_queue t.head t.tail ready.valid t.split in
      let h1 = set_core (set_queue h q) (record h.cpu.core {
        boot_pc = t.first.pc;
        status = active;
        tick_event = ev.schedule h.cpu.tick_event;
      }) in
      let h2 = record h1 { cpu = record h1.cpu { next_pc = t.first.pc } } in
      let ready2 : IsReady ev eq h2 = record {
        valid = v;
        events = subst (All IsEvent) (t.split ∙ sym same) ready.events;
        idle = ready.idle;
      } in
      tick-left h2 h' t.fetched ready2
        (ap (fetch t.first.pc (add64 t.first.pc h.cpu.fetch_width)) same ∙ t.fetches)
        (rw (does, t.tag, t.payload) at returned)

  -- What is read from starting up on.
  pub begins :
      (h : Hart E Q)
      → IsReady ev eq h
      → h.cpu.inst_buffer ≡ []
      → IsThread h.cpu.fetch_width (stream h.iss.event_queue)
      → (h1 : Hart E Q) × (start_up ev eq h ≡ done h1)
        × (program ev eq (changed ev eq h1 (resume ev eq h1).cpu.core h1.iss.event_queue)
            ≡ program ev eq h)
        × IsSameHart h (changed ev eq h1 (resume ev eq h1).cpu.core h1.iss.event_queue)
        × IsRunning ev eq (changed ev eq h1 (resume ev eq h1).cpu.core h1.iss.event_queue)
  begins h ready empty t =
      let links : IsLinked h.cpu.fetch_width t.first.pc
          (h.cpu.inst_buffer ++ insts (t.head ∷ t.tail)) =
        subst (λ b. IsLinked h.cpu.fetch_width t.first.pc (b ++ insts (t.head ∷ t.tail)))
          (sym empty) t.linked in
      let (h1, started, prog, who, next) =
        start_up-Runs ev eq h t.head t.tail t.first ready t.split t.tag t.payload t.ends links in
      let whole = ap (λ es. h.trace ++ (h.cpu.inst_buffer ++ insts es)) (sym t.split) in
      let core = (resume ev eq h1).cpu.core in
      let (now, ticks, _, _, _, _) = resume_lem ev eq h1 in
      elim next [
        | inl run ↦
            let (run', prog', _, who') =
              changed-IsRunning ev eq h1 core h1.iss.event_queue run run.ready.valid refl
                (resume-hart_id ev eq h1)
                (subst (λ st. Scheduling ev eq st core.tick_event core.wakeup_monitor_event)
                  (sym now) ticks)
                (inl now) in
            (h1, started, prog' ∙ prog ∙ whole, IsSameHart-trans who who', run')
        | inr over ↦ absurd (t.left (sym (start_up-left h h1 t ready started) ∙ over.nothing_left))
      ]
