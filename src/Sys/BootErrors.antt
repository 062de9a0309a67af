-- ===== src/Sys/BootErrors.antt =====
-- Booting does not run a process on harts that there are not.
use arch_xplore.Base.{
  ℕ, ◌+◌, ◌^◌, ◌≤◌, ◌<◌, List, [], ◌∷◌, true, false, Text, length, leb, to_u16, Outcome, done,
  throws, assertion, arith, ◌≡◌, inl, inr, ap, ◌∙◌, Bool-cases,
}
use arch_xplore.Cpu.Core.{UniqueEvent}
use arch_xplore.Iss.Queue.{EventQueue}
use arch_xplore.Sys.Processes.{Process}
use arch_xplore.Sys.Boot.{QemuSystem, boot_processes, boot_system, get_cpu_count, new_qemu_process}
use arch_xplore.Sys.BootLaws.{harts_of, new_qemu_process_lem}

module _ {E Q H : Type 0} {V : Q → Type 0} (ev : UniqueEvent E) (eq : EventQueue Q V)
    (popen : List Text → Outcome H)
    (starts : (args : List Text) → (h : H) × (popen args ≡ done h)) where
  no_room :
      (u : ℕ) (p : Process) (ps : List Process) (s : QemuSystem E Q H)
      → leb (to_u16 (u + p.max_harts)) (length s.cpus) ≡ false
      → boot_processes ev eq popen u (p ∷ ps) s ≡ throws assertion
  unfolding boot_processes get_cpu_count
  no_room u p ps s over = rw over

  later_throws :
      (u : ℕ) (p : Process) (ps : List Process) (s s1 : QemuSystem E Q H)
      → leb (to_u16 (u + p.max_harts)) (length s.cpus) ≡ true
      → new_qemu_process ev eq popen (record p { boot_hart = u }) s ≡ done s1
      → boot_processes ev eq popen (to_u16 (u + p.max_harts)) ps s1 ≡ throws assertion
      → boot_processes ev eq popen u (p ∷ ps) s ≡ throws assertion
  unfolding boot_processes get_cpu_count
  later_throws u p ps s s1 room first rest = rw (room, first, rest)

  boot_processes_throws :
      (u : ℕ) (ps : List Process) (s : QemuSystem E Q H)
      → u ≤ length s.cpus
      → length s.cpus < u + harts_of ps
      → u + harts_of ps < 2 ^ 16
      → boot_processes ev eq popen u ps s ≡ throws assertion
  boot_processes_throws u [] s le more small = absurd (omega arith)
  boot_processes_throws u (p ∷ ps) s le more small =
      let used : to_u16 (u + p.max_harts) ≡ u + p.max_harts = ground arith in
      elim (Bool-cases (leb (to_u16 (u + p.max_harts)) (length s.cpus))) [
        | inl room ↦
            let fits : u + p.max_harts ≤ length s.cpus = ground arith in
            let (cs, hs, first, len, _, _) =
              new_qemu_process_lem ev eq popen starts (record p { boot_hart = u }) s fits
                (omega arith) in
            later_throws u p ps s (record s { cpus = cs; subprocesses = hs }) room first
              (ap (λ k. boot_processes ev eq popen k ps (record s { cpus = cs; subprocesses = hs }))
                  used
                ∙ boot_processes_throws (u + p.max_harts) ps
                    (record s { cpus = cs; subprocesses = hs }) (omega (arith, len))
                    (omega (arith, len)) (omega arith))
        | inr over ↦ no_room u p ps s over
      ]

  -- If every emulator starts, and the processes together ask for more harts than there are, but fewer than
  -- 2 ^ 16, booting throws.
  pub boot_system_throws :
      (s : QemuSystem E Q H)
      → length s.cpus < harts_of s.processes
      → harts_of s.processes < 2 ^ 16
      → boot_system ev eq popen s ≡ throws assertion
  unfolding boot_system
  boot_system_throws s more small =
      rw (boot_processes_throws 0 s.processes s (omega arith) (omega arith) (omega arith))
