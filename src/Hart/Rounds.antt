-- ===== src/Hart/Rounds.antt =====
-- One round of the loop of `generateFetchRequest`, for each event that may be at the front.
use arch_xplore.Base.{
  [], ◌∷◌, ◌++◌, Bool, true, false, ◌&&◌, Option, none, some, Addr, leb, ◌==◌, add64, if◌then◌else◌,
  Outcome, done, ◌≡◌, inl, inr, refl, ap, ◌∙◌, arith, Bool-cases, ◌>>=◌, or_throw,
  undefined_behaviour,
}
use arch_xplore.Cpu.Insts.{StaticInst}
use arch_xplore.Cpu.Events.{
  ThreadEvent, Tag, Payload, undefined, instruction, thread_api, syscall_api, insn, as_inst,
}
use arch_xplore.Cpu.Core.{UniqueEvent}
use arch_xplore.Iss.Queue.{EventQueue}
use arch_xplore.Hart.State.{Hart}
use arch_xplore.Hart.Spec.{IsSent}
use arch_xplore.Hart.Fetch.{
  FetchLoop, set_queue, is_active, handle_thread_api, handle_syscall_api, finish_thread, pop_event,
  fetch_event,
}

module _ {E Q : Type 0} {V : Q → Type 0} (ev : UniqueEvent E) (eq : EventQueue Q V) where
  open eq use {front, pop_front, stream, unread}

  -- What taking an event does to the processor and the process, by its tag and its `is_last`.
  unfoldable pub handle_tag : Tag → ThreadEvent → Hart E Q → Hart E Q
  handle_tag syscall_api e h = handle_syscall_api ev eq e h
  handle_tag _ e h = h

  unfoldable pub end_thread : Bool → Hart E Q → Hart E Q
  end_thread b h = if b then finish_thread ev eq h else h

  unfoldable pub take_event : Tag → ThreadEvent → Hart E Q → Hart E Q
  take_event t e h = end_thread e.is_last (handle_tag t e h)

  unfoldable pub apply_ended : Option ThreadEvent → Hart E Q → Hart E Q
  apply_ended none h = h
  apply_ended (some e) h = take_event e.tag e h

  -- None of the handlers touches the queue.
  handle_syscall_api-queue :
      (e : ThreadEvent) (q : Q) (h : Hart E Q)
      → handle_syscall_api ev eq e (set_queue h q) ≡ set_queue (handle_syscall_api ev eq e h) q
  unfolding handle_syscall_api
  handle_syscall_api-queue e q h = elim (Bool-cases (is_active h.cpu.status)) [
    | inl a ↦ rw (a, handle_syscall_api)
    | inr n ↦ rw (n, handle_syscall_api)
  ]

  finish_thread-queue :
      (q : Q) (h : Hart E Q)
      → finish_thread ev eq (set_queue h q) ≡ set_queue (finish_thread ev eq h) q
  unfolding finish_thread
  finish_thread-queue q h = elim (Bool-cases (h.cpu.hart_id == h.process.boot_hart)) [
    | inl b ↦ rw (b, finish_thread)
    | inr o ↦ rw (o, finish_thread)
  ]

  handle_tag-queue :
      (t : Tag) (e : ThreadEvent) (q : Q) (h : Hart E Q)
      → handle_tag t e (set_queue h q) ≡ set_queue (handle_tag t e h) q
  unfolding handle_tag
  handle_tag-queue syscall_api e q h = handle_syscall_api-queue e q h
  handle_tag-queue _ e q h = refl

  end_thread-queue :
      (b : Bool) (q : Q) (h : Hart E Q)
      → end_thread b (set_queue h q) ≡ set_queue (end_thread b h) q
  unfolding end_thread
  end_thread-queue true q h = finish_thread-queue q h
  end_thread-queue false q h = refl

  pub apply_ended-queue :
      (o : Option ThreadEvent) (q : Q) (h : Hart E Q)
      → apply_ended o (set_queue h q) ≡ set_queue (apply_ended o h) q
  unfolding apply_ended take_event
  apply_ended-queue none q h = refl
  apply_ended-queue (some e) q h =
      ap (end_thread e.is_last) (handle_tag-queue e.tag e q h)
      ∙ end_thread-queue e.is_last q (handle_tag e.tag e h)

  pop_event_lem :
      (e : ThreadEvent) (l : FetchLoop E Q) (h : Hart E Q) (q : Q)
      → pop_event ev eq e (record l { hart = set_queue h q }) ≡ record l {
        hart = set_queue (end_thread e.is_last h) (pop_front q);
        exit_loop = if e.is_last then true else l.exit_loop;
      }
  unfolding pop_event end_thread
  pop_event_lem e l h q =
      ap
        (λ h'. record l {
          hart = set_queue h' (pop_front h'.iss.event_queue);
          exit_loop = if e.is_last then true else l.exit_loop;
        })
        (end_thread-queue e.is_last q h)

  -- The loop's state behind a round that took the event and leaves the loop.
  abbrev pub taken : Tag → ThreadEvent → FetchLoop E Q → Q → FetchLoop E Q
  taken t e l q = record l { hart = set_queue (take_event t e l.hart) q; exit_loop = true }

  if-same : (b : Bool) → (if b then true else true) ≡ true
  if-same true = refl
  if-same false = refl

  pub fetch_other :
      (p : Payload) (t : Tag) (e : ThreadEvent) (limit : Addr) (l : FetchLoop E Q) (q : Q)
      → IsSent t p
      → as_inst p ≡ none
      → fetch_event ev eq t e limit (record l { hart = set_queue l.hart q })
        ≡ done (taken t e l (pop_front q))
  unfolding fetch_event handle_tag take_event handle_thread_api
  fetch_other p thread_api e limit l q sent no_inst = ap done (
      pop_event_lem e (record l { exit_loop = true }) l.hart q
      ∙ ap (λ b. record (taken thread_api e l (pop_front q)) { exit_loop = b }) (if-same e.is_last))
  fetch_other p syscall_api e limit l q sent no_inst = ap done (
      ap (λ h. pop_event ev eq e (record l { hart = h; exit_loop = true }))
        (handle_syscall_api-queue e q l.hart)
      ∙ pop_event_lem e (record l { exit_loop = true }) (handle_syscall_api ev eq e l.hart) q
      ∙ ap (λ b. record (taken syscall_api e l (pop_front q)) { exit_loop = b })
          (if-same e.is_last))
  fetch_other (insn i) instruction e limit l q sent no_inst = cc
  fetch_other p instruction e limit l q sent no_inst = absurd sent
  fetch_other p undefined e limit l q sent no_inst = absurd sent

  -- A round at an instruction that fits takes it; one that does not fit ends the loop.
  pub fetch_fits :
      (i : StaticInst) (e : ThreadEvent) (limit : Addr) (l : FetchLoop E Q) (q : Q)
      → e.payload ≡ insn i
      → (l.cur_fetch_pc == i.pc && leb (add64 l.cur_fetch_pc i.len) limit) ≡ true
      → fetch_event ev eq instruction e limit (record l { hart = set_queue l.hart q })
        ≡ done (record l {
          hart = set_queue (end_thread e.is_last l.hart) (pop_front q);
          cur_fetch_pc = add64 l.cur_fetch_pc i.len;
          fetch_package = l.fetch_package ++ i ∷ [];
          exit_loop = if e.is_last then true else l.exit_loop;
        })
  unfolding fetch_event
  fetch_fits i e limit l q p fits =
      let l' : FetchLoop E Q = record l {
        cur_fetch_pc = add64 l.cur_fetch_pc i.len;
        fetch_package = l.fetch_package ++ i ∷ [];
      } in
      ap (λ x. or_throw (as_inst x) undefined_behaviour >>= λ inst. next_round inst) p
      ∙ ap
          (λ b.
            if b
            then done (pop_event ev eq e (record l' { hart = set_queue l.hart q }))
            else done (record l { hart = set_queue l.hart q; exit_loop = true }))
          fits
      ∙ ap done (pop_event_lem e l' l.hart q)
    where
      next_round : StaticInst → Outcome (FetchLoop E Q)
      next_round inst =
          let next = add64 l.cur_fetch_pc inst.len in
          if l.cur_fetch_pc == inst.pc && leb next limit
          then done (
              pop_event ev eq e (record l {
                hart = set_queue l.hart q;
                fetch_package = l.fetch_package ++ inst ∷ [];
                cur_fetch_pc = next;
              }))
          else done (record l { hart = set_queue l.hart q; exit_loop = true })

  pub fetch_misfit :
      (i : StaticInst) (e : ThreadEvent) (limit : Addr) (l : FetchLoop E Q)
      → e.payload ≡ insn i
      → (l.cur_fetch_pc == i.pc && leb (add64 l.cur_fetch_pc i.len) limit) ≡ false
      → fetch_event ev eq instruction e limit l ≡ done (record l { exit_loop = true })
  unfolding fetch_event
  fetch_misfit i e limit l p over = ground arith
