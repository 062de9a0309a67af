-- ===== src/Hart/FetchLaws.antt =====
-- `generateFetchRequest` and `processFetchResponse` deliver what `Spec.fetch` says.
use arch_xplore.Base.{
  ℕ, [], ◌∷◌, ◌++◌, true, false, some, Addr, length, ◌==◌, add64, done, ◌≡◌, ◌⊎◌, inl, inr, refl,
  sym, ap, ◌∙◌, arith, All, Bool-cases, subst,
}
use arch_xplore.Cpu.Events.{ThreadEvent}
use arch_xplore.Cpu.Core.{UniqueEvent, cancel_next_tick_event, schedule_wake_up_monitor_event}
use arch_xplore.Cpu.Status.{inactive, completed}
use arch_xplore.Iss.Queue.{EventQueue}
use arch_xplore.Hart.State.{Hart}
use arch_xplore.Hart.Spec.{Fetched, fetch, IsEvent}
use arch_xplore.Hart.Takes.{fetch-Takes}
use arch_xplore.Hart.Fetch.{FetchLoop, set_queue, generate_fetch_request, finish_thread}
use arch_xplore.Hart.Rounds.{take_event, end_thread, apply_ended, handle_tag}
use arch_xplore.Hart.Loops.{Fetches, fetch_loop_lem, Fetches-Keeps}

module _ {E Q : Type 0} {V : Q → Type 0} (ev : UniqueEvent E) (eq : EventQueue Q V) where
  open eq use {front, pop_front, stream, unread}

  -- Where the specification of a fetch has a result, `generateFetchRequest` returns; it delivers the
  -- group that the specification says, behind the groups that are waiting, leaves the events that it
  -- says, and changes the hart as the event that ended the fetch, if one was taken, asks for.
  pub generate_fetch_request_lem :
      (addr : Addr) (size : ℕ) (h : Hart E Q) (r : Fetched)
      → V h.iss.event_queue
      → All IsEvent (stream h.iss.event_queue)
      → fetch addr (add64 addr size) (stream h.iss.event_queue) ≡ some r
      → (h' : Hart E Q) × (generate_fetch_request ev eq addr size h
          ≡ done (record h' {
            iss = record h'.iss { fetch_buffer = h.iss.fetch_buffer ++ r.group ∷ [] };
          }))
        × Fetches ev eq r h h'
  unfolding generate_fetch_request
  generate_fetch_request_lem addr size h r v evs spec =
      let start : FetchLoop E Q = record {
        hart = h;
        cur_fetch_pc = addr;
        fetch_package = [];
        exit_loop = false;
      } in
      let (l, returned, package_, f) =
        fetch_loop_lem ev eq (fetch-Takes addr (add64 addr size) (stream h.iss.event_queue) r spec)
          (length (stream h.iss.event_queue)) start v refl evs (omega arith) refl refl in
      let k = Fetches-Keeps ev eq r h l.hart f in
      (l.hart, rw (returned, package_, k.fetch_buffer), f)

  -- A thread that is over: no tick is scheduled; the boot hart is completed, with its process, and
  -- another hart is inactive and watches for work.
  pub record IsOver (h : Hart E Q) : Type 0 where
    pub no_tick : ev.is_scheduled h.cpu.tick_event ≡ false
    pub rest :
        ((h.cpu.status ≡ completed)
          × (h.process.is_completed ≡ true)
          × ((h.cpu.hart_id == h.process.boot_hart) ≡ true))
        ⊎ ((h.cpu.status ≡ inactive)
            × (ev.is_scheduled h.cpu.wakeup_monitor_event ≡ true)
            × ((h.cpu.hart_id == h.process.boot_hart) ≡ false))

  finish_thread-IsOver : (h : Hart E Q) → IsOver (finish_thread ev eq h)
  unfolding finish_thread cancel_next_tick_event schedule_wake_up_monitor_event
  finish_thread-IsOver h = elim (Bool-cases (h.cpu.hart_id == h.process.boot_hart)) [
    | inl b ↦ record {
      no_tick = ground (arith, ev.cancelled h.cpu.tick_event);
      rest = inl (ground arith, ground arith, ground arith);
    }
    | inr o ↦ record {
      no_tick = ground (arith, ev.cancelled h.cpu.tick_event);
      rest =
          inr (ground arith, ground (arith, ev.scheduled h.cpu.wakeup_monitor_event), ground arith);
    }
  ]

  -- A fetch that takes the last event of the thread ends it.
  pub Fetches-IsOver :
      (r : Fetched) (h h' : Hart E Q) (e : ThreadEvent)
      → Fetches ev eq r h h'
      → r.ended ≡ some e
      → e.is_last ≡ true
      → IsOver h'
  unfolding apply_ended take_event end_thread
  Fetches-IsOver r h h' e f ended fin =
      let over = finish_thread-IsOver (handle_tag ev eq e.tag e h) in
      let same : h'
          ≡ set_queue (finish_thread ev eq (handle_tag ev eq e.tag e h)) h'.iss.event_queue =
        f.effect
        ∙ ap (λ o. set_queue (apply_ended ev eq o h) h'.iss.event_queue) ended
        ∙ ap (λ b. set_queue (end_thread ev eq b (handle_tag ev eq e.tag e h)) h'.iss.event_queue)
            fin in
      subst IsOver (sym same) (record { no_tick = over.no_tick; rest = over.rest })
