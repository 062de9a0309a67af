-- ===== src/Hart/Tick.antt =====
-- src/cpu/simple/SimpleCPU.cpp, and the event handlers of src/cpu/AbstractCPU.cpp.
use arch_xplore.Base.{
  ◌+◌, List, [], ◌∷◌, ◌++◌, Addr, ◌==◌, add64, if◌then◌else◌, Outcome, done, ◌>>=◌,
}
use arch_xplore.Cpu.Insts.{StaticInst}
use arch_xplore.Cpu.Status.{CpuStatus, inactive, active, blocked_syscall, completed}
use arch_xplore.Cpu.Core.{
  UniqueEvent, schedule_startup_event, schedule_next_tick_event, schedule_wake_up_monitor_event,
  cancel_wake_up_monitor_event,
}
use arch_xplore.Iss.Queue.{EventQueue}
use arch_xplore.Sys.Processes.{Process}
use arch_xplore.Hart.State.{Hart}
use arch_xplore.Hart.Fetch.{
  set_core, set_queue, init_cpu_state, generate_fetch_request, process_fetch_response,
}

-- Where the processor goes on behind an instruction.
unfoldable pub next_pc_of : StaticInst → Addr
next_pc_of inst = if inst.br_info.redirect then inst.br_info.target_pc else add64 inst.pc inst.len

module _ {E Q : Type 0} where
  unfoldable pub reset : Hart E Q → Hart E Q
  reset h = record h { cpu = record h.cpu { next_pc = h.cpu.boot_pc } }

  -- The third and fourth part of `tick`.
  unfoldable pub execute : Hart E Q → Hart E Q
  unfolding next_pc_of
  execute h = elim h.cpu.inst_buffer [
    | [] ↦ h
    | inst ∷ rest ↦ record h {
      cpu = record h.cpu {
        core = record h.cpu.core { instret = h.cpu.instret + 1 };
        next_pc = next_pc_of inst;
        inst_buffer = rest;
      };
      trace = h.trace ++ inst ∷ [];
    }
  ]

  unfoldable pub push_instructions : List StaticInst → Hart E Q → Hart E Q
  push_instructions group h = record h {
    cpu = record h.cpu { inst_buffer = h.cpu.inst_buffer ++ group };
  }

module _ {E Q : Type 0} {V : Q → Type 0} (ev : UniqueEvent E) (eq : EventQueue Q V) where
  open eq use {try_take}

  unfoldable pub tick : Hart E Q → Outcome (Hart E Q)
  tick h = do
    h1 ← generate_fetch_request ev eq h.cpu.next_pc h.cpu.fetch_width h
    (group, h2) ← process_fetch_response ev eq h1
    done (execute (push_instructions group h2))

  unfoldable pub start_up : Hart E Q → Outcome (Hart E Q)
  start_up h = do
    h1 ← init_cpu_state ev eq h
    let h2 = reset h1
    tick (set_core h2 (schedule_next_tick_event ev h2.cpu.core))

  unfoldable pub handle_tick_event : Hart E Q → Outcome (Hart E Q)
  handle_tick_event h =
      let core = schedule_next_tick_event ev h.cpu.core in
      tick (set_core h (record core { cycle = core.cycle + 1 }))

  -- Both waking cases end so: active, the monitor cancelled, the next tick scheduled.
  unfoldable pub resume : Hart E Q → Hart E Q
  resume h = set_core h (
      schedule_next_tick_event ev
        (cancel_wake_up_monitor_event ev (record h.cpu.core { status = active })))

  unfoldable pub wake_inactive : Hart E Q → Outcome (Hart E Q)
  wake_inactive h =
      let (taken, q) = try_take h.iss.event_queue in
      let h' = set_queue h q in
      if taken
      then (do h1 ← start_up h'; done (resume h1))
      else if h'.process.is_completed
      then done (
          set_core h' (cancel_wake_up_monitor_event ev (record h'.cpu.core { status = completed })))
      else done h'

  unfoldable pub wake_blocked : Hart E Q → Outcome (Hart E Q)
  wake_blocked h =
      let (taken, q) = try_take h.iss.event_queue in
      let h' = set_queue h q in done (if taken then resume h' else h')

  -- `wakeUpMonitor`, by the status.
  unfoldable pub wake_up_monitor : CpuStatus → Hart E Q → Outcome (Hart E Q)
  wake_up_monitor inactive h = wake_inactive h
  wake_up_monitor blocked_syscall h = wake_blocked h
  wake_up_monitor _ h = done h

  unfoldable pub handle_wake_up_monitor_event : Hart E Q → Outcome (Hart E Q)
  handle_wake_up_monitor_event h =
      let h' = set_core h (schedule_wake_up_monitor_event ev h.cpu.core) in
      wake_up_monitor h'.cpu.status h'

  unfoldable pub set_process : Process → Hart E Q → Hart E Q
  set_process p h =
      let h' = record h { process = p } in
      set_core h' (
        if p.boot_hart == h'.cpu.hart_id
        then schedule_startup_event ev h'.cpu.core
        else schedule_wake_up_monitor_event ev h'.cpu.core)
