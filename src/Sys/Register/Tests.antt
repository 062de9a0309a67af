-- ===== src/Sys/Register/Tests.antt =====
-- Two harts and a process on them, registered and connected.
use arch_xplore.Base.{
  zero, suc, List, [], ◌∷◌, ◌++◌, Bool, false, Text, codes, HartId, some, get_elem?, done, ◌≡◌,
  refl, arith, to_u16,
}
use arch_xplore.Cpu.Status.{inactive}
use arch_xplore.Iss.Examples.{Inbox, inbox, Outbox, outbox}
use arch_xplore.Iss.Publisher.{EventPublisher}
use arch_xplore.Iss.Subscriber.{EventSubscriber, wait_until_subscribed}
use arch_xplore.Iss.Plugin.{Vcpu, InstrumentPlugin, thread_initialize}
use arch_xplore.Iss.Plugin.Install.{qemu_plugin_install}
use arch_xplore.Iss.Plugin.Install.Examples.{split, split_lem}
use arch_xplore.Hart.State.{Hart}
use arch_xplore.Hart.Examples.{hart}
use arch_xplore.Sys.Processes
use arch_xplore.Sys.Boot.{QemuSystem, command_vec, plugin_options, get_cpu_ptr, register_cpu}
use arch_xplore.Sys.Register.{get_app_name, register_iss}
use arch_xplore.Sys.Register.Laws.{
  IsIdentified, Subscribes, Registered, HaveChannels, register_cpu-IsIdentified, register_iss_lem,
}
use arch_xplore.Sys.Register.Channels.{channels_agree}

abbrev hart_at : HartId → Hart Bool (EventSubscriber Inbox)
hart_at id = hart id inactive false false 0 [] []

abbrev board : QemuSystem Bool (EventSubscriber Inbox) Unit
board = record {
  app_name = get_app_name 42;
  executable_path = codes "bin";
  processes = [];
  cpus = hart_at 0 ∷ hart_at 1 ∷ hart_at 2 ∷ [];
  subprocesses = [];
}

abbrev guest : Processes.Process
guest = record (Processes.new_process 0 (codes "app") (codes "app") [] 1) { max_harts = 2 }

board-IsIdentified : IsIdentified board.cpus
board-IsIdentified zero h e = ground arith
board-IsIdentified (suc zero) h e = ground arith
board-IsIdentified (suc (suc zero)) h e = ground arith
board-IsIdentified (suc (suc (suc j))) h e = absurd (ground arith)

register_cpu-IsIdentified_example :
    IsIdentified (register_cpu (hart_at 9) board).cpus
    × (get_cpu_ptr (to_u16 3) (register_cpu (hart_at 9) board)
        ≡ done (Registered (hart_at 9) board))
register_cpu-IsIdentified_example =
    register_cpu-IsIdentified (hart_at 9) board (omega arith) board-IsIdentified

abbrev open_inbox : Text → HartId → Inbox
open_inbox app id = record { messages = []; delay = 0 }

abbrev open_outbox : Text → HartId → Outbox
open_outbox app id = record { messages = []; refusals = 0; lonely = 2 }

inbox-Subscribes : (app : Text) → Subscribes inbox 1 open_inbox app
unfolding wait_until_subscribed
inbox-Subscribes app id = (open_inbox app id, refl)

register_iss_lem_example :
    (hs : List (Hart Bool (EventSubscriber Inbox))) × (register_iss inbox 1 open_inbox board
      ≡ done (record board { cpus = hs }))
    × HaveChannels (get_app_name 42) board.cpus hs
register_iss_lem_example =
    register_iss_lem inbox 1 open_inbox board (inbox-Subscribes (get_app_name 42))

third_word :
    get_elem? (command_vec guest board) 2
    ≡ some (codes "bin" ++ (codes "/libInstrumentPlugin.so" ++ plugin_options guest board))
unfolding command_vec
third_word = refl

channels_agree_example :
    (s' : QemuSystem Bool (EventSubscriber Inbox) Unit) × (h : Hart Bool (EventSubscriber Inbox))
    × (g g' : InstrumentPlugin Outbox) × (v : Vcpu Outbox) × (q : EventPublisher Outbox)
    × (register_iss inbox 1 open_inbox board ≡ done s')
    × (get_elem? s'.cpus 2 ≡ some h)
    × (qemu_plugin_install
          (split (codes "bin" ++ (codes "/libInstrumentPlugin.so" ++ plugin_options guest board)))
        ≡ done g)
    × (thread_initialize outbox open_outbox 1 g ≡ done g')
    × (get_elem? g'.vcpus 1 ≡ some v)
    × (v.publisher ≡ some q)
    × (q.app_name ≡ h.iss.event_queue.app_name)
    × (q.hart_id ≡ h.iss.event_queue.hart_id)
channels_agree_example =
    channels_agree outbox open_outbox inbox 1 open_inbox split split_lem 42 guest board
      (codes "bin" ++ (codes "/libInstrumentPlugin.so" ++ plugin_options guest board)) 1 third_word
      (λ e. ground arith, (λ e. ground arith, (λ e. ground arith, tt))) refl board-IsIdentified
      (omega arith) (omega arith) (omega arith) (omega arith) (inbox-Subscribes (get_app_name 42))
