-- ===== src/Hart/Worker.antt =====
-- A hart that is not the boot hart, between its threads.
pub mod Starting
pub mod Waking
pub mod Cycle
pub mod Examples
mod Tests
use arch_xplore.Base.{
  ℕ, zero, suc, ◌+◌, ◌<◌, List, [], ◌∷◌, ◌++◌, Bool, true, false, ◌==◌, if◌then◌else◌, some, Addr,
  add64, Outcome, done, ◌>>=◌, ◌≡◌, ◌≢◌, ◌⊎◌, inl, inr, refl, sym, ap, ◌∙◌, arith, subst,
  Bool-cases, All,
}
use arch_xplore.Cpu.Insts.{StaticInst}
use arch_xplore.Cpu.Events.{ThreadEvent, as_inst}
use arch_xplore.Cpu.Status.{inactive, active, completed}
use arch_xplore.Cpu.Core.{UniqueEvent, schedule_wake_up_monitor_event, schedule_next_tick_event}
use arch_xplore.Iss.Queue.{EventQueue}
use arch_xplore.Hart.State.{Hart}
use arch_xplore.Hart.Spec.{insts, IsEvent, Fetched, fetch}
use arch_xplore.Hart.Fetch.{set_core, set_queue, is_instruction, init_cpu_state}
use arch_xplore.Hart.TickLaws.{program, IsReady, tick_lem, execute-iss}
use arch_xplore.Hart.Links.{IsLinked, EndsLast}
use arch_xplore.Hart.Effects.{IsSameHart}
use arch_xplore.Hart.Scheduling.{Scheduling}
use arch_xplore.Hart.Waking.{resume_lem}
use arch_xplore.Hart.Tick.{
  tick, reset, start_up, resume, execute, push_instructions, handle_wake_up_monitor_event,
  wake_up_monitor, wake_inactive,
}
use arch_xplore.Hart.Running.{take_monitor, fire, run_events, IsRunning, HasEnded, start_up-Runs}
use arch_xplore.Hart.Completion.{
  changed, changed-IsRunning, resume-hart_id, run_events-HasEnded, ended-program, EndsLast-ne,
}

-- A whole thread that a processor with an empty buffer can run, and that is not over with its first
-- fetch.
pub record IsThread (width : ℕ) (es : List ThreadEvent) : Type 0 where
  pub head : ThreadEvent
  pub tail : List ThreadEvent
  pub first : StaticInst
  pub fetched : Fetched
  pub split : es ≡ head ∷ tail
  pub tag : is_instruction head.tag ≡ true
  pub payload : as_inst head.payload ≡ some first
  pub ends : EndsLast (head ∷ tail)
  pub linked : IsLinked width first.pc (insts (head ∷ tail))
  pub fetches : fetch first.pc (add64 first.pc width) (head ∷ tail) ≡ some fetched
  pub left : fetched.rest ≢ []

module _ {E Q : Type 0} {V : Q → Type 0} (ev : UniqueEvent E) (eq : EventQueue Q V) where
  open eq use {stream, unread, try_take, delay}

  -- A hart without work, of a process that goes on: it does not tick, and watches for messages, none
  -- of which is at hand.
  pub record IsAsleep (h : Hart E Q) : Type 0 where
    pub ready : IsReady ev eq h
    pub status : h.cpu.status ≡ inactive
    pub buffer : h.cpu.inst_buffer ≡ []
    pub at_end : unread h.iss.event_queue ≡ []
    pub no_tick : ev.is_scheduled h.cpu.tick_event ≡ false
    pub watching : ev.is_scheduled h.cpu.wakeup_monitor_event ≡ true
    pub goes_on : h.process.is_completed ≡ false
