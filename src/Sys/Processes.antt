-- ===== src/Sys/Processes.antt =====
-- include/system/Process.hpp: a guest process.
use arch_xplore.Base.{List, Text, Bool, false, ProcessId}

pub record Process : Type 0 where
  pub pid : ProcessId
  pub name : Text
  pub executable : Text
  pub arguments : List Text
  pub boot_hart : ProcessId
  pub max_harts : ProcessId
  pub is_completed : Bool

-- A new process: one hart, not completed. `pid` and `boot_hart` have no initial value in the source
-- and are set by `newProcess` and `bootSystem`; they are arguments here.
abbrev pub new_process : ProcessId → Text → Text → List Text → ProcessId → Process
new_process pid name executable arguments boot = record {
  pid = pid;
  name = name;
  executable = executable;
  arguments = arguments;
  boot_hart = boot;
  max_harts = 1;
  is_completed = false;
}
