-- ===== src/Sys/Register.antt =====
-- Registration of the instruction set simulators: src/system/AbstractSystem.cpp, src/cpu/AbstractCPU.cpp,
-- src/iss/AbstractISS.cpp and the initialisation in src/iss/qemu/QemuISS.cpp. The queue of a simulator
-- has no value before `initialize`; here it is whatever stood there.
pub mod Laws
pub mod Channels
mod Tests
use arch_xplore.Base.{ℕ, List, [], ◌∷◌, ◌++◌, Text, codes, to_string, HartId, Outcome, done, ◌>>=◌}
use arch_xplore.Iss.Ports.{SubscriberPort}
use arch_xplore.Iss.Subscriber.{EventSubscriber, construct}
use arch_xplore.Hart.State.{Hart, QemuIss}
use arch_xplore.Sys.Boot.{QemuSystem}
use arch_xplore.Sys.Domains.{Domains}
use arch_xplore.Sys.Clocks.{BuiltDomains}

-- `getAppName`; `pid` is the number of the host's process.
unfoldable pub get_app_name : ℕ → Text
get_app_name pid = codes "ArchXplore_" ++ to_string pid

-- `createISS`: a new simulator, whose fetch buffer is empty; `q` stands for its queue.
unfoldable pub create_iss : {Q : Type 0} → Q → QemuIss Q
create_iss q = record { fetch_buffer = []; event_queue = q }

-- `open_port` is the constructor of the port, which is not part of this repository; a subscription is
-- polled as often as `polls` says.
module _ {E S : Type 0} (api : SubscriberPort S) (polls : ℕ) (open_port : Text → HartId → S) where
  unfoldable pub initialize :
      Text → Hart E (EventSubscriber S) → Outcome (Hart E (EventSubscriber S))
  initialize app h = do
    q ← construct api polls app h.cpu.hart_id (open_port app h.cpu.hart_id)
    done (record h { iss = record h.iss { event_queue = q } })

  -- `setCPU` of a simulator: the processor is the one whose simulator it is.
  unfoldable pub set_cpu : Text → Hart E (EventSubscriber S) → Outcome (Hart E (EventSubscriber S))
  set_cpu app h = initialize app h

  unfoldable pub set_iss :
      Text
      → QemuIss (EventSubscriber S)
      → Hart E (EventSubscriber S)
      → Outcome (Hart E (EventSubscriber S))
  set_iss app iss h = set_cpu app (record h { iss = iss })

  unfoldable pub set_all_iss :
      Text → List (Hart E (EventSubscriber S)) → Outcome (List (Hart E (EventSubscriber S)))
  set_all_iss app [] = done []
  set_all_iss app (h ∷ hs) = do
    h' ← set_iss app (create_iss h.iss.event_queue) h
    hs' ← set_all_iss app hs
    done (h' ∷ hs')

  unfoldable pub register_iss :
      {H : Type 0}
      → QemuSystem E (EventSubscriber S) H
      → Outcome (QemuSystem E (EventSubscriber S) H)
  register_iss s = do hs ← set_all_iss s.app_name s.cpus; done (record s { cpus = hs })

-- `build`. What sparta does of it is given: `enter_configuring` calls `onConfiguring_` of the objects,
-- which register their clock domains, and `enter_finalized` makes the processors, which register
-- themselves.
module _ {F N C E S H : Type 0} (api : SubscriberPort S) (polls : ℕ) (open_port : Text → HartId → S)
    (build_clocks : Domains F N → BuiltDomains F N C) where
  unfoldable pub build :
      Outcome (Domains F N)
      → (BuiltDomains F N C → Outcome (QemuSystem E (EventSubscriber S) H))
      → Outcome (BuiltDomains F N C × QemuSystem E (EventSubscriber S) H)
  build enter_configuring enter_finalized = do
    d ← enter_configuring
    let built = build_clocks d
    s ← enter_finalized built
    s' ← register_iss api polls open_port s
    done (built, s')
