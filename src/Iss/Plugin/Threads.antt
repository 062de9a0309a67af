-- ===== src/Iss/Plugin/Threads.antt =====
-- A thread of the guest on its virtual processor: the callbacks that it makes, from the first
-- instruction to its exit, and the events that they publish.
pub mod Links
use arch_xplore.Base.{
  ℕ, List, [], ◌∷◌, ◌++◌, Bool, true, some, Addr, EventId, ◌==◌, add64, if◌then◌else◌, Outcome,
  done, ◌>>=◌, ◌≡◌, refl, sym, ap, ◌∙◌, arith, Bool-cases, inl, inr, append_assoc, append-nil, ◌%◌,
  ◌^◌, get_elem?, ltb,
}
use arch_xplore.Cpu.Insts.{StaticInst}
use arch_xplore.Cpu.Events.{ThreadEvent, insn_event, syscall_event, unknown_api}
use arch_xplore.Iss.Ports.{PublisherPort}
use arch_xplore.Iss.Cache.{InstCacheEntry}
use arch_xplore.Iss.Plugin.{
  Vcpu, InstrumentPlugin, execute_entry, link, next_inst, publish_event, set_vcpu, thread_exit,
  syscall, memory_access,
}
use arch_xplore.Iss.Plugin.Publishing.{
  IsLive, IsFlushed, events, publish_event_lem, execute_entry_first, execute_entry_next,
}

-- A callback of the thread: an instruction, a memory access of the last one, or a system call.
pub data Action : Type 0 where
  executes : InstCacheEntry → Action
  accesses : (vaddr size_shift : ℕ) (is_store : Bool) → Action
  calls : Action

abbrev pub with_access : StaticInst → Addr → ℕ → Bool → StaticInst
with_access i vaddr size_shift is_store = record i {
  mem_info = record { vaddr = vaddr; len = size_shift % 2 ^ 8; is_store = is_store };
}

abbrev pub call_event : EventId → ThreadEvent
call_event id = syscall_event id (record { api_type = unknown_api })

abbrev pub exit_event : EventId → StaticInst → ThreadEvent
exit_event id last = record (insn_event id last) { is_last = true }

-- The events of a thread: `id` and `uid` are its counters and `last` its last instruction. The first
-- instruction publishes nothing; the last one is published by the exit. A system call is published only
-- where the process has more than one hart.
unfoldable pub thread_events : ℕ → EventId → EventId → StaticInst → List Action → List ThreadEvent
thread_events max_harts id uid last [] = exit_event id last ∷ []
thread_events max_harts id uid last (executes x ∷ as_) =
    let first = thread_events max_harts id (add64 uid 1) (next_inst last uid x) as_ in
    let later =
      insn_event id (link last x)
      ∷ thread_events max_harts (add64 id 1) (add64 uid 1) (next_inst (link last x) uid x) as_ in
    if uid == 0 then first else later
thread_events max_harts id uid last (accesses vaddr size_shift is_store ∷ as_) =
    thread_events max_harts id uid (with_access last vaddr size_shift is_store) as_
thread_events max_harts id uid last (calls ∷ as_) =
    let unseen = thread_events max_harts id uid last as_ in
    let seen = call_event id ∷ thread_events max_harts (add64 id 1) uid last as_ in
    if ltb 1 max_harts then seen else unseen

-- `max_harts` is that of the process.
module _ {P : Type 0} (api : PublisherPort P) (max_harts : ℕ) where
  -- What a callback does to the virtual processor: `executeInstruction`, `memoryAccess`, `syscall`.
  unfoldable pub act : Action → Vcpu P → Outcome (Vcpu P)
  act (executes x) v = execute_entry api x v
  act (accesses vaddr size_shift is_store) v =
      done (record v { last_inst = with_access v.last_inst vaddr size_shift is_store })
  act calls v =
      if ltb 1 max_harts then publish_event api true (call_event v.event_counter) v else done v

  -- The callbacks, and the exit.
  unfoldable pub run_thread : List Action → Vcpu P → Outcome (Vcpu P)
  run_thread [] v = publish_event api true (exit_event v.event_counter v.last_inst) v
  run_thread (a ∷ as_) v = do v' ← act a v; run_thread as_ v'

  -- The callbacks of the plugin do so to the virtual processor of their index.
  pub syscall-act :
      (i : ℕ) (p : InstrumentPlugin P) (v v' : Vcpu P)
      → p.max_harts ≡ max_harts
      → get_elem? p.vcpus i ≡ some v
      → act calls v ≡ done v'
      → syscall api i p ≡ (if ltb 1 max_harts then done (set_vcpu p i v') else done p)
  unfolding syscall act
  syscall-act i p v v' same there acted = elim (Bool-cases (ltb 1 max_harts)) [
    | inl many ↦
        let called =
          ap (λ b. if b then publish_event api true (call_event v.event_counter) v else done v)
            (sym many)
          ∙ acted in
        let many' = ap (ltb 1) same ∙ many in rw (many', many, there, called)
    | inr one ↦ rw (same, one)
  ]

  pub memory_access-act :
      (i : ℕ) (p : InstrumentPlugin P) (v v' : Vcpu P) (vaddr size_shift : ℕ) (is_store : Bool)
      → get_elem? p.vcpus i ≡ some v
      → act (accesses vaddr size_shift is_store) v ≡ done v'
      → memory_access i vaddr size_shift is_store p ≡ done (set_vcpu p i v')
  unfolding memory_access act
  memory_access-act i p v v' vaddr size_shift is_store there acted =
      rw there (ap (λ o. o >>= λ w. done (set_vcpu p i w)) acted)

  pub thread_exit-act :
      (i : ℕ) (p : InstrumentPlugin P) (v v' : Vcpu P)
      → get_elem? p.vcpus i ≡ some v
      → run_thread [] v ≡ done v'
      → thread_exit api i p ≡ done (set_vcpu p i v')
  unfolding thread_exit run_thread
  thread_exit-act i p v v' there acted = rw (there, acted)

  -- Where the events go that are to follow: behind those that were published.
  abbrev pub Publishing : List Action → Vcpu P → Type 0
  Publishing as_ v =
      (v' : Vcpu P) × (run_thread as_ v ≡ done v')
      × IsLive api v'
      × IsFlushed api v'
      × (events api v'
          ≡ events api v ++ thread_events max_harts v.event_counter v.inst_counter v.last_inst as_)

  run_next :
      (a : Action) (as_ : List Action) (v w : Vcpu P) (new : List ThreadEvent)
      → act a v ≡ done w
      → events api w ≡ events api v ++ new
      → new ++ thread_events max_harts w.event_counter w.inst_counter w.last_inst as_
        ≡ thread_events max_harts v.event_counter v.inst_counter v.last_inst (a ∷ as_)
      → Publishing as_ w
      → Publishing (a ∷ as_) v
  unfolding run_thread
  run_next a as_ v w new acted grown spec (v', ran, live, flushed, ev) = (
    v',
    ap (λ o. o >>= run_thread as_) acted ∙ ran,
    live,
    flushed,
    ev
        ∙ ap (λ es. es ++ thread_events max_harts w.event_counter w.inst_counter w.last_inst as_)
            grown
        ∙ append_assoc (events api v) new _
        ∙ ap (λ es. events api v ++ es) spec,
  )

  -- A thread of a live virtual processor runs to its exit. Its events stand behind those published
  -- before, in order, and everything has been sent. A system call is an event only where the process has
  -- more than one hart.
  pub run_thread_lem : (as_ : List Action) (v : Vcpu P) → IsLive api v → Publishing as_ v
  unfolding run_thread thread_events act
  run_thread_lem [] v live =
      let e = exit_event v.event_counter v.last_inst in
      let (v', returned, p) = publish_event_lem api true e v live (λ c. cc) in
      (v', returned, p.live, p.flushed refl, p.appended)
  run_thread_lem (accesses vaddr size_shift is_store ∷ as_) v live =
      let w = record v { last_inst = with_access v.last_inst vaddr size_shift is_store } in
      run_next (accesses vaddr size_shift is_store) as_ v w [] refl
        (sym (append-nil (events api v))) refl (run_thread_lem as_ w live)
  run_thread_lem (calls ∷ as_) v live = elim (Bool-cases (ltb 1 max_harts)) [
    | inl many ↦
        let e = call_event v.event_counter in
        let (w, returned, p) = publish_event_lem api true e v live (λ c. cc) in
        run_next calls as_ v w (e ∷ []) (rw many returned) p.appended
          (rw (many, p.counted, p.insts_same, p.last_same)) (run_thread_lem as_ w p.live)
    | inr one ↦
        run_next calls as_ v v [] (rw one) (sym (append-nil (events api v))) (rw one)
          (run_thread_lem as_ v live)
  ]
  run_thread_lem (executes x ∷ as_) v live = elim (Bool-cases (v.inst_counter == 0)) [
    | inl first ↦
        let w = record v {
          inst_counter = add64 v.inst_counter 1;
          last_inst = next_inst v.last_inst v.inst_counter x;
        } in
        run_next (executes x) as_ v w [] (execute_entry_first api x v (ground arith))
          (sym (append-nil (events api v))) (rw first) (run_thread_lem as_ w live)
    | inr later ↦
        let (w, returned, live', ev, n, id, l) = execute_entry_next api x v live later in
        run_next (executes x) as_ v w (insn_event v.event_counter (link v.last_inst x) ∷ [])
          returned ev (rw (later, n, id, l)) (run_thread_lem as_ w live')
  ]
