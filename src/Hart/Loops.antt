-- ===== src/Hart/Loops.antt =====
-- The loop of `generateFetchRequest` takes what the specification gives, and what that changes.
use arch_xplore.Base.{
  ℕ, zero, suc, ◌≤◌, List, [], ◌∷◌, ◌++◌, Bool, true, false, Option, none, some, Addr, length, ltb,
  add64, if◌then◌else◌, done, ◌≡◌, refl, sym, ap, ◌∙◌, arith, All, append-nil, append_assoc, subst,
}
use arch_xplore.Cpu.Insts.{StaticInst}
use arch_xplore.Cpu.Events.{
  ThreadEvent, Tag, Payload, undefined, instruction, thread_api, syscall_api, insn,
}
use arch_xplore.Cpu.Core.{UniqueEvent, cancel_next_tick_event, schedule_wake_up_monitor_event}
use arch_xplore.Iss.Batches.{is_sync}
use arch_xplore.Iss.Queue.{EventQueue}
use arch_xplore.Hart.State.{Hart}
use arch_xplore.Hart.Spec.{Fetched, IsEvent, IsSent}
use arch_xplore.Hart.Takes.{Takes, full, other, misfit, last, more}
use arch_xplore.Hart.Fetch.{
  FetchLoop, set_queue, fetch_event, fetch_loop, handle_syscall_api, finish_thread,
}
use arch_xplore.Hart.Rounds.{
  take_event, end_thread, apply_ended, taken, fetch_other, fetch_fits, fetch_misfit, handle_tag,
  apply_ended-queue,
}

sent_insn : (t : Tag) (p : Payload) (i : StaticInst) → IsSent t p → p ≡ insn i → t ≡ instruction
sent_insn instruction p i s e = refl
sent_insn undefined p i s e = absurd (subst (IsSent undefined) e s)
sent_insn thread_api p i s e = absurd (subst (IsSent thread_api) e s)
sent_insn syscall_api p i s e = absurd (subst (IsSent syscall_api) e s)

module _ {E Q : Type 0} {V : Q → Type 0} (ev : UniqueEvent E) (eq : EventQueue Q V) where
  open eq use {front, pop_front, stream, unread}

  -- What a fetch that goes as `r` says leaves behind.
  pub record Fetches (r : Fetched) (h h' : Hart E Q) : Type 0 where
    pub effect : h' ≡ set_queue (apply_ended ev eq r.ended h) h'.iss.event_queue
    pub valid : V h'.iss.event_queue
    pub left : stream h'.iss.event_queue ≡ r.rest
    pub at_end :
        (e : ThreadEvent) → r.ended ≡ some e → is_sync e ≡ true → unread h'.iss.event_queue ≡ []

  round_exit :
      (fuel : ℕ) (limit : Addr) (l l' : FetchLoop E Q) (e : ThreadEvent) (q : Q)
      → ltb l.cur_fetch_pc limit ≡ true
      → front l.hart.iss.event_queue ≡ done (e, q)
      → fetch_event ev eq e.tag e limit (record l { hart = set_queue l.hart q }) ≡ done l'
      → l'.exit_loop ≡ true
      → fetch_loop ev eq (suc fuel) limit l ≡ done l'
  unfolding fetch_loop
  round_exit fuel limit l l' e q below fr fe out = ground arith

  round_more :
      (fuel : ℕ) (limit : Addr) (l l' : FetchLoop E Q) (e : ThreadEvent) (q : Q)
      → ltb l.cur_fetch_pc limit ≡ true
      → front l.hart.iss.event_queue ≡ done (e, q)
      → fetch_event ev eq e.tag e limit (record l { hart = set_queue l.hart q }) ≡ done l'
      → l'.exit_loop ≡ false
      → fetch_loop ev eq (suc fuel) limit l ≡ fetch_loop ev eq fuel limit l'
  unfolding fetch_loop
  round_more fuel limit l l' e q below fr fe out = ground arith

  loop_over :
      (fuel : ℕ) (limit : Addr) (l : FetchLoop E Q)
      → ltb l.cur_fetch_pc limit ≡ false
      → fetch_loop ev eq (suc fuel) limit l ≡ done l
  unfolding fetch_loop
  loop_over fuel limit l over = rw over

  abbrev Loops : Fetched → Addr → ℕ → FetchLoop E Q → Type 0
  Loops r limit fuel l =
      (l' : FetchLoop E Q) × (fetch_loop ev eq fuel limit l ≡ done l')
      × (l'.fetch_package ≡ l.fetch_package ++ r.group)
      × Fetches r l.hart l'.hart

  pub fetch_loop_lem :
      {limit cur : Addr} {es : List ThreadEvent} {r : Fetched}
      → Takes limit cur es r
      → (fuel : ℕ) (l : FetchLoop E Q) → V l.hart.iss.event_queue
      → stream l.hart.iss.event_queue ≡ es
      → All IsEvent es
      → length es ≤ fuel
      → cur ≡ l.cur_fetch_pc
      → l.exit_loop ≡ false
      → Loops r limit (suc fuel) l
  unfolding end_thread take_event handle_tag apply_ended
  fetch_loop_lem (full cur es over) fuel l v s evs enough at_cur going = (
    l,
    loop_over fuel _ l (rw at_cur at over),
    sym (append-nil l.fetch_package),
    record { effect = refl; valid = v; left = s; at_end = λ e none_ended. cc },
  )
  fetch_loop_lem {limit} (other cur e es below p) fuel l v s evs enough at_cur going =
      let (q, fr, _, _, left, v', behind) = eq.front_lem l.hart.iss.event_queue e es v s in
      let l' = taken ev eq e.tag e l (pop_front q) in
      let took = fetch_other ev eq e.payload e.tag e limit l q evs.0 p in
      (
        l',
        round_exit fuel limit l l' e q (rw at_cur at below) fr took refl,
        sym (append-nil l.fetch_package),
        record { effect = refl; valid = v'; left = left; at_end = λ e' same sync. ground arith },
      )
  fetch_loop_lem {limit} (misfit cur i e es below p over) fuel l v s evs enough at_cur going =
      let (q, fr, kept, v', _, _, _) = eq.front_lem l.hart.iss.event_queue e es v s in
      let l1 = record l { hart = set_queue l.hart q } in
      let l' = record l1 { exit_loop = true } in
      let stops =
        subst (λ t. fetch_event ev eq t e limit l1 ≡ done l')
          (sym (sent_insn e.tag e.payload i evs.0 p))
          (fetch_misfit ev eq i e limit l1 p (rw at_cur at over)) in
      (
        l',
        round_exit fuel limit l l' e q (rw at_cur at below) fr stops refl,
        sym (append-nil l.fetch_package),
        record { effect = refl; valid = v'; left = kept; at_end = λ e none_ended. cc },
      )
  fetch_loop_lem {limit} (last cur i e es below p fits fin) fuel l v s evs enough at_cur going =
      let (q, fr, _, _, left, v', behind) = eq.front_lem l.hart.iss.event_queue e es v s in
      let tag = sent_insn e.tag e.payload i evs.0 p in
      let l' : FetchLoop E Q = record l {
        hart = set_queue (end_thread ev eq e.is_last l.hart) (pop_front q);
        cur_fetch_pc = add64 l.cur_fetch_pc i.len;
        fetch_package = l.fetch_package ++ i ∷ [];
        exit_loop = if e.is_last then true else l.exit_loop;
      } in
      let took =
        subst (λ t. fetch_event ev eq t e limit (record l { hart = set_queue l.hart q }) ≡ done l')
          (sym tag) (fetch_fits ev eq i e limit l q p (rw at_cur at fits)) in
      (
        l',
        round_exit fuel limit l l' e q (rw at_cur at below) fr took
            (ap (λ b. if b then true else l.exit_loop) fin),
        refl,
        record {
          effect = ap (λ t. set_queue (take_event ev eq t e l.hart) (pop_front q)) (sym tag);
          valid = v';
          left = left;
          at_end = λ e' same sync. ground arith;
        },
      )
  fetch_loop_lem (more cur i e es below p fits fin t) zero l v s evs enough at_cur going =
      absurd (omega arith)
  fetch_loop_lem {limit} (more cur i e es {r} below p fits fin t) (suc fuel) l v s evs enough at_cur
        going =
      let (q, fr, _, _, left, v', _) = eq.front_lem l.hart.iss.event_queue e es v s in
      let tag = sent_insn e.tag e.payload i evs.0 p in
      let next : Bool → FetchLoop E Q = λ b. record l {
        hart = set_queue (end_thread ev eq b l.hart) (pop_front q);
        cur_fetch_pc = add64 l.cur_fetch_pc i.len;
        fetch_package = l.fetch_package ++ i ∷ [];
        exit_loop = if b then true else l.exit_loop;
      } in
      let took =
        subst
          (λ t.
            fetch_event ev eq t e limit (record l { hart = set_queue l.hart q })
            ≡ done (next false))
          (sym tag)
          (fetch_fits ev eq i e limit l q p (rw at_cur at fits) ∙ ap (λ b. done (next b)) fin) in
      let (l', returned, package_, f) =
        fetch_loop_lem t fuel (next false) v' left evs.1 (omega arith)
          (ap (λ c. add64 c i.len) at_cur) going in
      (
        l',
        round_more (suc fuel) limit l (next false) e q (rw at_cur at below) fr took going
            ∙ returned,
        package_ ∙ append_assoc l.fetch_package (i ∷ []) r.group,
        record {
          effect =
              f.effect
              ∙ ap (λ h. set_queue h l'.hart.iss.event_queue)
                  (apply_ended-queue ev eq r.ended (pop_front q) l.hart);
          valid = f.valid;
          left = f.left;
          at_end = f.at_end;
        },
      )

  -- What a fetch leaves alone.
  pub record Keeps (h h' : Hart E Q) : Type 0 where
    pub trace : h'.trace ≡ h.trace
    pub inst_buffer : h'.cpu.inst_buffer ≡ h.cpu.inst_buffer
    pub next_pc : h'.cpu.next_pc ≡ h.cpu.next_pc
    pub fetch_width : h'.cpu.fetch_width ≡ h.cpu.fetch_width
    pub fetch_buffer : h'.iss.fetch_buffer ≡ h.iss.fetch_buffer
    pub instret : h'.cpu.instret ≡ h.cpu.instret
    pub hart_id : h'.cpu.hart_id ≡ h.cpu.hart_id

  handle_syscall_api-Keeps :
      (e : ThreadEvent) (h : Hart E Q) → Keeps h (handle_syscall_api ev eq e h)
  unfolding handle_syscall_api cancel_next_tick_event schedule_wake_up_monitor_event
  handle_syscall_api-Keeps e h = ground arith

  handle_tag-Keeps : (t : Tag) (e : ThreadEvent) (h : Hart E Q) → Keeps h (handle_tag ev eq t e h)
  unfolding handle_tag
  handle_tag-Keeps syscall_api e h = handle_syscall_api-Keeps e h
  handle_tag-Keeps _ e h = ground arith

  end_thread-Keeps : (b : Bool) (h : Hart E Q) → Keeps h (end_thread ev eq b h)
  unfolding end_thread finish_thread cancel_next_tick_event schedule_wake_up_monitor_event
  end_thread-Keeps true h = ground arith
  end_thread-Keeps false h = ground arith

  apply_ended-Keeps : (o : Option ThreadEvent) (h : Hart E Q) → Keeps h (apply_ended ev eq o h)
  unfolding apply_ended take_event
  apply_ended-Keeps none h = ground arith
  apply_ended-Keeps (some e) h =
      let t = handle_tag-Keeps e.tag e h in
      let u = end_thread-Keeps e.is_last (handle_tag ev eq e.tag e h) in ground arith

  pub Fetches-Keeps : (r : Fetched) (h h' : Hart E Q) → Fetches r h h' → Keeps h h'
  Fetches-Keeps r h h' f = subst (Keeps h) (sym f.effect) (
      let k = apply_ended-Keeps r.ended h in
      record {
        trace = k.trace;
        inst_buffer = k.inst_buffer;
        next_pc = k.next_pc;
        fetch_width = k.fetch_width;
        fetch_buffer = k.fetch_buffer;
        instret = k.instret;
        hart_id = k.hart_id;
      })
