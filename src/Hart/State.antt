-- ===== src/Hart/State.antt =====
-- A hart: a SimpleCPU (include/cpu/simple/SimpleCPU.hpp) with its QemuISS
-- (include/iss/qemu/QemuISS.hpp) and the process that it runs. The process is shared with the other
-- harts of the process: between two calls they may have changed it.
use arch_xplore.Base.{ℕ, List, [], Addr}
use arch_xplore.Cpu.Insts.{StaticInst}
use arch_xplore.Cpu.Core.{AbstractCpu}
use arch_xplore.Sys.Processes.{Process}

pub record QemuIss (Q : Type 0) : Type 0 where
  pub fetch_buffer : List (List StaticInst)
  pub event_queue : Q

pub record SimpleCpu (E : Type 0) : Type 0 where
  pub core : AbstractCpu E
  pub open core use *
  pub fetch_width : ℕ
  pub next_pc : Addr
  pub inst_buffer : List StaticInst

-- The constructor, with the parameter of the fetch width; `m_next_pc` has no initial value.
abbrev pub new_simple_cpu : {E : Type 0} → AbstractCpu E → ℕ → Addr → SimpleCpu E
new_simple_cpu core fetch_width pc = record {
  core = core;
  fetch_width = fetch_width;
  next_pc = pc;
  inst_buffer = [];
}

-- `trace` holds the instructions that were executed, as the trace log shows them.
pub record Hart (E Q : Type 0) : Type 0 where
  pub cpu : SimpleCpu E
  pub iss : QemuIss Q
  pub process : Process
  pub trace : List StaticInst
