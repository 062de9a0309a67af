-- ===== src/Hart/Effects.antt =====
-- What taking an event does to the status of a hart, and that the hart and its process stay the same.
use arch_xplore.Base.{
  [], ◌∷◌, Bool, true, false, ◌==◌, Option, none, some, ◌≡◌, ◌⊎◌, inl, inr, refl, ap, ◌∙◌, arith,
  ◌||◌,
}
use arch_xplore.Cpu.Events.{ThreadEvent, Tag, undefined, instruction, thread_api, syscall_api}
use arch_xplore.Cpu.Status.{active, blocked_syscall}
use arch_xplore.Cpu.Core.{UniqueEvent, cancel_next_tick_event, schedule_wake_up_monitor_event}
use arch_xplore.Iss.Batches.{is_sync, is_syscall}
use arch_xplore.Iss.Queue.{EventQueue}
use arch_xplore.Hart.State.{Hart}
use arch_xplore.Hart.Spec.{Fetched}
use arch_xplore.Hart.Fetch.{handle_syscall_api, finish_thread}
use arch_xplore.Hart.Rounds.{apply_ended, take_event, end_thread, handle_tag}
use arch_xplore.Hart.Loops.{Fetches}
use arch_xplore.Hart.Tick.{execute, push_instructions}

-- The hart and its process are those that they were.
pub record IsSameHart {E Q : Type 0} (h h' : Hart E Q) : Type 0 where
  pub boot : h'.process.boot_hart ≡ h.process.boot_hart
  pub hart_id : h'.cpu.hart_id ≡ h.cpu.hart_id
  -- Only its boot hart changes the process.
  pub worker : (h.cpu.hart_id == h.process.boot_hart) ≡ false → h'.process ≡ h.process

pub IsSameHart-trans :
    {E Q : Type 0} {h h' h'' : Hart E Q} → IsSameHart h h' → IsSameHart h' h'' → IsSameHart h h''
IsSameHart-trans a b = record {
  boot = b.boot ∙ a.boot;
  hart_id = b.hart_id ∙ a.hart_id;
  worker = λ n. b.worker (rw (a.boot, a.hart_id) n) ∙ a.worker n;
}

module _ {E Q : Type 0} {V : Q → Type 0} (ev : UniqueEvent E) (eq : EventQueue Q V) where
  handle_tag-status :
      (t : Tag) (e : ThreadEvent) (h : Hart E Q)
      → h.cpu.status ≡ active
      → ((handle_tag ev eq t e h).cpu.status ≡ active)
        ⊎ (((handle_tag ev eq t e h).cpu.status ≡ blocked_syscall) × (is_syscall t ≡ true))
  unfolding handle_tag handle_syscall_api cancel_next_tick_event schedule_wake_up_monitor_event
  handle_tag-status syscall_api e h a = inr (ground arith, refl)
  handle_tag-status undefined e h a = inl a
  handle_tag-status instruction e h a = inl a
  handle_tag-status thread_api e h a = inl a

  -- What a fetch makes of the status of an active hart, if it does not take the end of the thread.
  pub apply_ended-status :
      (o : Option ThreadEvent) (h : Hart E Q)
      → h.cpu.status ≡ active
      → ((e : ThreadEvent) → o ≡ some e → e.is_last ≡ false)
      → ((apply_ended ev eq o h).cpu.status ≡ active)
        ⊎ (((apply_ended ev eq o h).cpu.status ≡ blocked_syscall)
            × ((e : ThreadEvent) × (o ≡ some e) × (is_sync e ≡ true)))
  unfolding apply_ended take_event end_thread
  apply_ended-status none h a not_last = inl a
  apply_ended-status (some e) h a not_last =
      let same : apply_ended ev eq (some e) h ≡ handle_tag ev eq e.tag e h =
        ap (λ b. end_thread ev eq b (handle_tag ev eq e.tag e h)) (not_last e refl) in
      elim (handle_tag-status e.tag e h a) [
        | inl still ↦ inl (ap (λ k. k.cpu.status) same ∙ still)
        | inr (waits, sync) ↦
            inr (ap (λ k. k.cpu.status) same ∙ waits, (e, refl, ap (λ b. b || e.is_last) sync))
      ]

  handle_tag-boot :
      (t : Tag) (e : ThreadEvent) (h : Hart E Q) → IsSameHart h (handle_tag ev eq t e h)
  unfolding handle_tag handle_syscall_api cancel_next_tick_event schedule_wake_up_monitor_event
  handle_tag-boot syscall_api e h = record {
    boot = ground arith;
    hart_id = ground arith;
    worker = λ n. ground arith;
  }
  handle_tag-boot _ e h = record { boot = refl; hart_id = refl; worker = λ n. refl }

  end_thread-boot : (b : Bool) (h : Hart E Q) → IsSameHart h (end_thread ev eq b h)
  unfolding end_thread finish_thread cancel_next_tick_event schedule_wake_up_monitor_event
  end_thread-boot true h = record {
    boot = ground arith;
    hart_id = ground arith;
    worker = λ n. rw n;
  }
  end_thread-boot false h = record { boot = refl; hart_id = refl; worker = λ n. refl }

  apply_ended-boot : (o : Option ThreadEvent) (h : Hart E Q) → IsSameHart h (apply_ended ev eq o h)
  unfolding apply_ended take_event
  apply_ended-boot none h = record { boot = refl; hart_id = refl; worker = λ n. refl }
  apply_ended-boot (some e) h =
      IsSameHart-trans (handle_tag-boot e.tag e h)
        (end_thread-boot e.is_last (handle_tag ev eq e.tag e h))

  execute-IsSameHart : (h h' : Hart E Q) → IsSameHart h h' → IsSameHart h (execute h')
  unfolding execute
  execute-IsSameHart h h' s =
      elim h'.cpu.inst_buffer
        as (λ b. IsSameHart h (execute (record h' { cpu = record h'.cpu { inst_buffer = b } }))) [
          | [] ↦ record { boot = s.boot; hart_id = s.hart_id; worker = s.worker }
          | i ∷ is ↦ record { boot = s.boot; hart_id = s.hart_id; worker = s.worker }
        ]

  pub Fetches-IsSameHart :
      (r : Fetched) (h h' : Hart E Q)
      → Fetches ev eq r h h'
      → IsSameHart h (execute (push_instructions r.group h'))
  unfolding push_instructions
  Fetches-IsSameHart r h h' f =
      let b = apply_ended-boot r.ended h in
      execute-IsSameHart h (push_instructions r.group h') (record {
        boot = ap (λ k. k.process.boot_hart) f.effect ∙ b.boot;
        hart_id = ap (λ k. k.cpu.hart_id) f.effect ∙ b.hart_id;
        worker = λ n. ap (λ k. k.process) f.effect ∙ b.worker n;
      })
