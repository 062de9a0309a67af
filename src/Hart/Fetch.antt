-- ===== src/Hart/Fetch.antt =====
-- src/iss/qemu/QemuISS.cpp: events are read from the queue and instructions are handed to the
-- processor.
use arch_xplore.Base.{
  ℕ, zero, suc, List, [], ◌∷◌, ◌++◌, Bool, true, false, ◌&&◌, Addr, length, ltb, leb, ◌==◌, add64,
  if◌then◌else◌, Outcome, done, throws, blocked, assertion, undefined_behaviour, check, or_throw,
  ◌>>=◌, ◌>>◌,
}
use arch_xplore.Cpu.Insts.{StaticInst}
use arch_xplore.Cpu.Events.{ThreadEvent, Tag, instruction, thread_api, syscall_api, as_inst}
use arch_xplore.Cpu.Status.{CpuStatus, inactive, active, blocked_syscall, completed}
use arch_xplore.Cpu.Core.{
  AbstractCpu, UniqueEvent, cancel_next_tick_event, schedule_wake_up_monitor_event,
}
use arch_xplore.Iss.Queue.{EventQueue}
use arch_xplore.Hart.State.{Hart}

abbrev pub is_instruction : Tag → Bool
is_instruction instruction = true
is_instruction _ = false

abbrev pub is_active : CpuStatus → Bool
is_active active = true
is_active _ = false

-- The variables of the loop of `generateFetchRequest`.
pub record FetchLoop (E Q : Type 0) : Type 0 where
  pub hart : Hart E Q
  pub cur_fetch_pc : Addr
  pub fetch_package : List StaticInst
  pub exit_loop : Bool

module _ {E Q : Type 0} where
  abbrev pub set_core : Hart E Q → AbstractCpu E → Hart E Q
  set_core h c = record h { cpu = record h.cpu { core = c } }

  abbrev pub set_status : Hart E Q → CpuStatus → Hart E Q
  set_status h s = set_core h (record h.cpu.core { status = s })

  abbrev pub set_queue : Hart E Q → Q → Hart E Q
  set_queue h q = record h { iss = record h.iss { event_queue = q } }

module _ {E Q : Type 0} {V : Q → Type 0} (ev : UniqueEvent E) (eq : EventQueue Q V) where
  open eq use {front, pop_front, stream}

  unfoldable pub init_cpu_state : Hart E Q → Outcome (Hart E Q)
  init_cpu_state h = do
    (first, q) ← front h.iss.event_queue
    check (is_instruction first.tag) assertion
    inst ← or_throw (as_inst first.payload) undefined_behaviour
    done (set_core (set_queue h q) (record h.cpu.core { boot_pc = inst.pc; status = active }))

  -- The body of `handleThreadApi` is empty.
  unfoldable pub handle_thread_api : ThreadEvent → Hart E Q → Hart E Q
  handle_thread_api e h = h

  unfoldable pub handle_syscall_api : ThreadEvent → Hart E Q → Hart E Q
  handle_syscall_api e h =
      if is_active h.cpu.status
      then set_core h (
          schedule_wake_up_monitor_event ev
            (cancel_next_tick_event ev (record h.cpu.core { status = blocked_syscall })))
      else h

  -- The last event of a thread: the boot hart completes the process, another hart goes to sleep.
  unfoldable pub finish_thread : Hart E Q → Hart E Q
  finish_thread h =
      let core = cancel_next_tick_event ev h.cpu.core in
      if h.cpu.hart_id == h.process.boot_hart
      then record (set_core h (record core { status = completed })) {
        process = record h.process { is_completed = true };
      }
      else set_core h (schedule_wake_up_monitor_event ev (record core { status = inactive }))

  -- The end of a round that takes the event: `if (do_pop) …`.
  unfoldable pub pop_event : ThreadEvent → FetchLoop E Q → FetchLoop E Q
  pop_event e l =
      let h = if e.is_last then finish_thread l.hart else l.hart in
      record l {
        hart = set_queue h (pop_front h.iss.event_queue);
        exit_loop = if e.is_last then true else l.exit_loop;
      }

  -- A round that has the event at the front, by the event's tag.
  unfoldable pub fetch_event : Tag → ThreadEvent → Addr → FetchLoop E Q → Outcome (FetchLoop E Q)
  fetch_event thread_api e limit l =
      done (pop_event e (record l { hart = handle_thread_api e l.hart; exit_loop = true }))
  fetch_event syscall_api e limit l =
      done (pop_event e (record l { hart = handle_syscall_api e l.hart; exit_loop = true }))
  fetch_event _ e limit l = do
    inst ← or_throw (as_inst e.payload) undefined_behaviour
    let next = add64 l.cur_fetch_pc inst.len
    if l.cur_fetch_pc == inst.pc && leb next limit
        then done (
            pop_event e
              (record l { fetch_package = l.fetch_package ++ inst ∷ []; cur_fetch_pc = next }))
        else done (record l { exit_loop = true })

  -- The loop. Each round but the last takes an event, so one more round than there are events to
  -- read is enough.
  unfoldable pub fetch_loop : ℕ → Addr → FetchLoop E Q → Outcome (FetchLoop E Q)
  fetch_loop zero limit l = blocked
  fetch_loop (suc fuel) limit l =
      if ltb l.cur_fetch_pc limit
      then (do
        (e, q) ← front l.hart.iss.event_queue
        l' ← fetch_event e.tag e limit (record l { hart = set_queue l.hart q })
        elim l'.exit_loop [ true ↦ done l' | false ↦ fetch_loop fuel limit l' ])
      else done l

  unfoldable pub generate_fetch_request : Addr → ℕ → Hart E Q → Outcome (Hart E Q)
  generate_fetch_request addr fetch_size h = do
    l ←
        fetch_loop (suc (length (stream h.iss.event_queue))) (add64 addr fetch_size)
          (record { hart = h; cur_fetch_pc = addr; fetch_package = []; exit_loop = false })
    let iss = l.hart.iss
    done (record l.hart {
      iss = record iss { fetch_buffer = iss.fetch_buffer ++ l.fetch_package ∷ [] };
    })

  unfoldable pub process_fetch_response : Hart E Q → Outcome (List StaticInst × Hart E Q)
  process_fetch_response h = elim h.iss.fetch_buffer [
    | [] ↦ throws assertion
    | group ∷ rest ↦ done (group, record h { iss = record h.iss { fetch_buffer = rest } })
  ]
