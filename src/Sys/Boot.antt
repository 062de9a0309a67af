-- ===== src/Sys/Boot.antt =====
-- Registration and booting: src/system/AbstractSystem.cpp and include/system/qemu/QemuSystem.hpp.
use arch_xplore.Base.{
  ℕ, zero, suc, ◌+◌, ◌^◌, List, [], ◌∷◌, ◌++◌, true, false, Text, codes, to_string, HartId, length,
  get_elem?, set, ltb, leb, to_u16, if◌then◌else◌, Outcome, done, blocked, assertion, out_of_range,
  check, or_throw, ◌>>=◌, ◌>>◌,
}
use arch_xplore.Cpu.Core.{UniqueEvent}
use arch_xplore.Hart.State.{Hart}
use arch_xplore.Hart.Tick.{set_process}
use arch_xplore.Iss.Queue.{EventQueue}
use arch_xplore.Sys.Processes.{Process}

-- The part of a QemuSystem that booting reads and writes; `H` is the type of the handle of a
-- subprocess. A processor holds the process by pointer, and so is given the process as it is then.
pub record QemuSystem (E Q H : Type 0) : Type 0 where
  pub app_name : Text
  pub executable_path : Text
  pub processes : List Process
  pub cpus : List (Hart E Q)
  pub subprocesses : List H

module _ {E Q H : Type 0} where
  unfoldable pub get_cpu_count : QemuSystem E Q H → ℕ
  get_cpu_count s = length s.cpus

  unfoldable pub register_cpu : Hart E Q → QemuSystem E Q H → QemuSystem E Q H
  register_cpu h s =
      let core = record h.cpu.core { hart_id = to_u16 (length s.cpus) } in
      record s { cpus = s.cpus ++ (record h { cpu = record h.cpu { core = core } }) ∷ [] }

  unfoldable pub get_cpu_ptr : HartId → QemuSystem E Q H → Outcome (Hart E Q)
  get_cpu_ptr tid s = do
    check (ltb tid (length s.cpus)) assertion
    or_throw (get_elem? s.cpus tid) out_of_range

  unfoldable pub new_process : Process → QemuSystem E Q H → QemuSystem E Q H
  new_process p s = record s {
    processes = s.processes ++ (record p { pid = length s.processes }) ∷ [];
  }

  unfoldable pub get_qemu_runtime_name : Process → QemuSystem E Q H → Text
  get_qemu_runtime_name p s = s.app_name ++ (codes "_QEMU_Process_" ++ to_string p.pid)

  -- The arguments of the plugin, each with its comma in front.
  unfoldable pub plugin_options : Process → QemuSystem E Q H → Text
  plugin_options p s =
      codes ",AppName="
      ++ (s.app_name
          ++ (codes ",Runtime="
              ++ (get_qemu_runtime_name p s
                  ++ (codes ",ProcessID="
                      ++ (to_string p.pid
                          ++ (codes ",BootHart="
                              ++ (to_string p.boot_hart
                                  ++ (codes ",MaxHarts=" ++ to_string p.max_harts))))))))

  unfoldable pub command_vec : Process → QemuSystem E Q H → List Text
  command_vec p s =
      (s.executable_path ++ codes "/qemu/qemu-riscv64")
      ∷ codes "-plugin"
      ∷ (s.executable_path ++ (codes "/libInstrumentPlugin.so" ++ plugin_options p s))
      ∷ p.executable
      ∷ p.arguments

-- `popen` and `kill` are those of the subprocess library; `popen` throws where the emulator cannot be
-- started.
module _ {E Q H : Type 0} {V : Q → Type 0} (ev : UniqueEvent E) (eq : EventQueue Q V)
    (popen : List Text → Outcome H) where
  -- for (HartID_t hart_offset = 0; hart_offset < max_harts; hart_offset++): the counter has 16 bits,
  -- so that after 2 ^ 16 rounds the loop is where it began.
  unfoldable pub boot_harts : ℕ → ℕ → Process → QemuSystem E Q H → Outcome (QemuSystem E Q H)
  boot_harts zero offset p s = blocked
  boot_harts (suc fuel) offset p s =
      if ltb offset p.max_harts
      then (do
        let hart_id = to_u16 (p.boot_hart + offset)
        cpu ← get_cpu_ptr hart_id s
        boot_harts fuel (to_u16 (offset + 1)) p
            (record s { cpus = set s.cpus hart_id (set_process ev eq p cpu) }))
      else done s

  unfoldable pub new_qemu_process : Process → QemuSystem E Q H → Outcome (QemuSystem E Q H)
  new_qemu_process p s = do
    h ← popen (command_vec p s)
    boot_harts (suc (2 ^ 16)) 0 p (record s { subprocesses = s.subprocesses ++ h ∷ [] })

  -- The loop of `bootSystem` over the processes: those left, and the processes with their boot harts.
  unfoldable pub boot_processes :
      HartId → List Process → QemuSystem E Q H → Outcome (List Process × QemuSystem E Q H)
  boot_processes hart_used [] s = done ([], s)
  boot_processes hart_used (p ∷ ps) s = do
    let p' = record p { boot_hart = hart_used }
    let used = to_u16 (hart_used + p.max_harts)
    check (leb used (get_cpu_count s)) assertion
    s' ← new_qemu_process p' s
    (ps', s'') ← boot_processes used ps s'
    done (p' ∷ ps', s'')

  unfoldable pub boot_system : QemuSystem E Q H → Outcome (QemuSystem E Q H)
  boot_system s = do (ps, s') ← boot_processes 0 s.processes s; done (record s' { processes = ps })

module _ {H : Type 0} (kill : ℕ → H → H) where
  -- The loop of `cleanUp`; the subprocess of a process is found by the process's number, and `kill` is
  -- called with the signal 0.
  unfoldable pub kill_running : List Process → List H → Outcome (List H)
  kill_running [] hs = done hs
  kill_running (p ∷ ps) hs = elim p.is_completed [
    | true ↦ kill_running ps hs
    | false ↦ do
      h ← or_throw (get_elem? hs p.pid) out_of_range
      kill_running ps (set hs p.pid (kill 0 h))
  ]

module _ {E Q H : Type 0} (kill : ℕ → H → H) where
  unfoldable pub clean_up : QemuSystem E Q H → Outcome (QemuSystem E Q H)
  clean_up s = do
    hs ← kill_running kill s.processes s.subprocesses
    done (record s { subprocesses = hs })
