-- ===== src/Hart/Shared.antt =====
-- The harts of one process, which all hold a pointer to it (AbstractCPU::m_process): what one of them
-- writes to the process the others read. Each hart has a scheduler of its own, that of its rank; the
-- order in which the schedulers take out their next events is free, a list here.
pub mod Phases
pub mod Steps
pub mod Interleaving
pub mod Settling
pub mod Sweep
pub mod Acts
pub mod Ending
mod Tests
use arch_xplore.Base.{
  ℕ, List, [], ◌∷◌, get_elem?, set, Outcome, done, undefined_behaviour, or_throw, ◌>>=◌,
}
use arch_xplore.Cpu.Core.{UniqueEvent}
use arch_xplore.Iss.Queue.{EventQueue}
use arch_xplore.Sys.Processes.{Process}
use arch_xplore.Hart.State.{Hart}
use arch_xplore.Hart.Running.{fire}

-- The process of the harts is the shared one; the field of a hart is what it was at its last event.
pub record ProcessHarts (E Q : Type 0) : Type 0 where
  pub process : Process
  pub harts : List (Hart E Q)

abbrev pub share : {E Q : Type 0} → Process → Hart E Q → Hart E Q
share p h = record h { process = p }

module _ {E Q : Type 0} {V : Q → Type 0} (ev : UniqueEvent E) (eq : EventQueue Q V) where
  -- The next event of the scheduler of a hart.
  unfoldable pub fire_hart : ℕ → ProcessHarts E Q → Outcome (ProcessHarts E Q)
  fire_hart i m = do
    h ← or_throw (get_elem? m.harts i) undefined_behaviour
    h' ← fire ev eq (share m.process h)
    done (record { process = h'.process; harts = set m.harts i h' })

  unfoldable pub fire_harts : List ℕ → ProcessHarts E Q → Outcome (ProcessHarts E Q)
  fire_harts [] m = done m
  fire_harts (i ∷ order) m = do m' ← fire_hart i m; fire_harts order m'
