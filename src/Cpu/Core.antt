-- ===== src/Cpu/Core.antt =====
-- include/cpu/AbstractCPU.hpp and src/cpu/AbstractCPU.cpp: the state of a processor and its events.
use arch_xplore.Base.{ℕ, Bool, true, false, HartId, Addr, ◌≡◌, if◌then◌else◌}
use arch_xplore.Cpu.Status.{CpuStatus, inactive}

-- What the program relies on of `sparta::UniqueEvent`, which is not part of this repository: an
-- event stands in the scheduler or does not. `fire` is the scheduler's: it takes the event out and
-- calls the handler.
pub record UniqueEvent (E : Type 0) : Type 0 where
  pub schedule : E → E
  pub cancel : E → E
  pub fire : E → E
  pub is_scheduled : E → Bool
  pub scheduled : (e : E) → is_scheduled (schedule e) ≡ true
  pub cancelled : (e : E) → is_scheduled (cancel e) ≡ false
  pub fired : (e : E) → is_scheduled (fire e) ≡ false

-- The counters of sparta count up by one; the frequency, the loggers and the tree are left out.
pub record AbstractCpu (E : Type 0) : Type 0 where
  pub status : CpuStatus
  pub boot_pc : Addr
  pub cycle : ℕ
  pub instret : ℕ
  pub hart_id : HartId
  pub wakeup_monitor_event : E
  pub tick_event : E
  pub startup_event : E

-- The constructor; `m_boot_pc` has no initial value, and `m_hart_id` comes from `registerCPU`.
abbrev pub construct : {E : Type 0} → E → Addr → HartId → AbstractCpu E
construct fresh pc hart = record {
  status = inactive;
  boot_pc = pc;
  cycle = 0;
  instret = 0;
  hart_id = hart;
  wakeup_monitor_event = fresh;
  tick_event = fresh;
  startup_event = fresh;
}

abbrev pub get_boot_pc : {E : Type 0} → AbstractCpu E → Addr
get_boot_pc c = c.boot_pc

abbrev pub get_hart_id : {E : Type 0} → AbstractCpu E → HartId
get_hart_id c = c.hart_id

module _ {E : Type 0} (ev : UniqueEvent E) where
  open ev use {schedule, cancel, is_scheduled}

  unfoldable pub schedule_startup_event : AbstractCpu E → AbstractCpu E
  schedule_startup_event c = record c { startup_event = schedule c.startup_event }

  unfoldable pub schedule_wake_up_monitor_event : AbstractCpu E → AbstractCpu E
  schedule_wake_up_monitor_event c = record c {
    wakeup_monitor_event = schedule c.wakeup_monitor_event;
  }

  unfoldable pub cancel_wake_up_monitor_event : AbstractCpu E → AbstractCpu E
  cancel_wake_up_monitor_event c =
      if is_scheduled c.wakeup_monitor_event
      then record c { wakeup_monitor_event = cancel c.wakeup_monitor_event }
      else c

  unfoldable pub schedule_next_tick_event : AbstractCpu E → AbstractCpu E
  schedule_next_tick_event c = record c { tick_event = schedule c.tick_event }

  unfoldable pub cancel_next_tick_event : AbstractCpu E → AbstractCpu E
  cancel_next_tick_event c =
      if is_scheduled c.tick_event then record c { tick_event = cancel c.tick_event } else c
