-- ===== src/Sys/Register/Channels.antt =====
-- The plugin of a process and the harts of the process meet in the same channels.
use arch_xplore.Base.{
  ℕ, zero, suc, ◌+◌, ◌^◌, ◌<◌, ◌≤◌, List, [], ◌++◌, Text, codes, HartId, some, none, length,
  get_elem?, set, replicate, to_u16, ltb, done, ◌≡◌, refl, sym, ap, ◌∙◌, arith, true, All,
  All-append, append_assoc, length-replicate, get_elem?-set_self, subst,
}
use arch_xplore.Cpu.Insts.{zero_inst}
use arch_xplore.Iss.Ports.{PublisherPort, SubscriberPort}
use arch_xplore.Iss.Publisher.{EventPublisher, construct}
use arch_xplore.Iss.Publisher.Laws.{wait_for_subscribers_lem}
use arch_xplore.Iss.Subscriber.{EventSubscriber}
use arch_xplore.Iss.Plugin.{Vcpu, InstrumentPlugin, calculate_hart_id, thread_initialize}
use arch_xplore.Iss.Plugin.Install.{qemu_plugin_install}
use arch_xplore.Iss.Plugin.Install.Numbers.{to_string-without}
use arch_xplore.Iss.Plugin.Install.RoundTrip.{
  join_option, HasNoComma, clean-HasNoComma, is_clean, installed, install-plugin_options,
}
use arch_xplore.Hart.State.{Hart}
use arch_xplore.Sys.Processes.{Process}
use arch_xplore.Sys.Boot.{QemuSystem, get_qemu_runtime_name, plugin_options, command_vec}
use arch_xplore.Sys.Register.{get_app_name, register_iss}
use arch_xplore.Sys.Register.Laws.{IsIdentified, Subscribes, HaveChannels-at, register_iss_lem}

get_elem?-replicate {ℓ} :
    {A : Type ℓ} (n i : ℕ) (a : A) → i < n → get_elem? (replicate n a) i ≡ some a
get_elem?-replicate zero i a h = absurd (omega arith)
get_elem?-replicate (suc n) zero a h = refl
get_elem?-replicate (suc n) (suc i) a h = get_elem?-replicate n i a (omega arith)

-- The name of the application has no comma.
get_app_name-HasNoComma : (pid : ℕ) → HasNoComma (get_app_name pid)
unfolding get_app_name is_clean
get_app_name-HasNoComma pid =
    All-append _ (codes "ArchXplore_") _ (clean-HasNoComma (codes "ArchXplore_") refl)
      (to_string-without b',' pid (omega arith))

module _ {P : Type 0} (api : PublisherPort P) (open_port : Text → HartId → P) where
  -- The publisher of a virtual processor, and its channel.
  abbrev pub PublishesAt : ℕ → InstrumentPlugin P → Text → HartId → Type 0
  PublishesAt i g app id =
      (v : Vcpu P) × (q : EventPublisher P) × (get_elem? g.vcpus i ≡ some v)
      × (v.publisher ≡ some q)
      × (q.app_name ≡ app)
      × (q.hart_id ≡ id)

  -- A thread that starts on a virtual processor of a newly installed plugin opens the channel of the
  -- application and of the hart that stands so far behind the boot hart.
  pub thread_initialize_lem :
      (app runtime : Text) (pid boot harts i : ℕ)
      → i < harts
      → boot + i < 2 ^ 16
      → (g : InstrumentPlugin P) × (thread_initialize api open_port i
            (installed app runtime pid boot harts)
          ≡ done g)
        × PublishesAt i g app (boot + i)
  unfolding thread_initialize construct calculate_hart_id
  thread_initialize_lem app runtime pid boot harts i lt small =
      let g = installed {P = P} app runtime pid boot harts in
      let v : Vcpu P = record {
        inst_counter = 0;
        event_counter = 0;
        last_inst = zero_inst;
        publisher = none;
      } in
      let below : ltb i harts ≡ true = ground arith in
      let id : to_u16 (i + boot) ≡ boot + i = ground arith in
      let there : get_elem? g.vcpus i ≡ some v = get_elem?-replicate harts i v lt in
      let port = open_port app (boot + i) in
      let (p, waited, _) =
        wait_for_subscribers_lem api (suc (api.lonely port)) port (omega arith) in
      let q : EventPublisher P = record {
        app_name = app;
        hart_id = boot + i;
        port = p;
        event_buffer = [];
      } in
      let w : Vcpu P = record v { publisher = some q } in
      (
        record g { vcpus = set g.vcpus i w },
        rw (below, there, id, waited),
        (
          w,
          q,
          get_elem?-set_self g.vcpus i w (omega (arith, length-replicate harts v)),
          refl,
          refl,
          refl,
        ),
      )

  module _ {E S : Type 0} (sub : SubscriberPort S) (polls : ℕ) (open_sub : Text → HartId → S) where
    -- The system writes the option for a process, the emulator splits it at its commas and installs
    -- the plugin, and a thread starts on virtual processor `i` of the process: then its publisher
    -- and the simulator of hart `boot_hart + i` have the same channel, that is, the same names of the
    -- application and of the hart. It holds if the harts are numbered by their places, fewer than
    -- 2 ^ 16, the process lies within them and has a number below 2 ^ 31, the application has the name that the
    -- system gives it, the path of the executable has no comma, and the subscriptions succeed.
    pub channels_agree :
        {H : Type 0} (split : Text → List Text)
        → ((file : Text) (args : List Text)
            → HasNoComma file
            → All HasNoComma args
            → split (join_option file args) ≡ args)
        → (host : ℕ) (p : Process) (s : QemuSystem E (EventSubscriber S) H) (option : Text) (i : ℕ)
        → get_elem? (command_vec p s) 2 ≡ some option
        → HasNoComma s.executable_path
        → s.app_name ≡ get_app_name host
        → IsIdentified s.cpus
        → length s.cpus < 2 ^ 16
        → p.boot_hart + p.max_harts ≤ length s.cpus
        → p.pid < 2 ^ 31
        → i < p.max_harts
        → Subscribes sub polls open_sub s.app_name
        → (s' : QemuSystem E (EventSubscriber S) H) × (h : Hart E (EventSubscriber S)) × (g
            g' : InstrumentPlugin P)
          × (v : Vcpu P) × (q : EventPublisher P) × (register_iss sub polls open_sub s ≡ done s')
          × (get_elem? s'.cpus (p.boot_hart + i) ≡ some h)
          × (qemu_plugin_install (split option) ≡ done g)
          × (thread_initialize api open_port i g ≡ done g')
          × (get_elem? g'.vcpus i ≡ some v)
          × (v.publisher ≡ some q)
          × (q.app_name ≡ h.iss.event_queue.app_name)
          × (q.hart_id ≡ h.iss.event_queue.hart_id)
    unfolding command_vec is_clean
    channels_agree split splits host p s option i third clean named ids small fits pid lt
          subscribes =
        let file = s.executable_path ++ codes "/libInstrumentPlugin.so" in
        let place = p.boot_hart + i in
        let (hs, registered, all) = register_iss_lem sub polls open_sub s subscribes in
        let (h0, h, before, after, c) =
          HaveChannels-at s.app_name s.cpus hs place all (omega arith) in
        let g =
          installed {P = P} s.app_name (get_qemu_runtime_name p s) p.pid p.boot_hart p.max_harts in
        let word : file ++ plugin_options p s ≡ option =
          append_assoc s.executable_path (codes "/libInstrumentPlugin.so") (plugin_options p s)
          ∙ ground (arith, third) in
        let read =
          install-plugin_options {P = P} split splits file p s
            (All-append _ s.executable_path _ clean
              (clean-HasNoComma (codes "/libInstrumentPlugin.so") refl))
            (subst HasNoComma (sym named) (get_app_name-HasNoComma host)) pid (omega arith)
            (omega arith) in
        let (g', started, (v, q, there, has, app, id)) =
          thread_initialize_lem s.app_name (get_qemu_runtime_name p s) p.pid p.boot_hart p.max_harts
            i lt (omega arith) in
        (
          record s { cpus = hs },
          h,
          g,
          g',
          v,
          q,
          registered,
          after,
          ap (λ w. qemu_plugin_install (split w)) (sym word) ∙ read,
          started,
          there,
          has,
          app ∙ sym c.app_name,
          id ∙ sym (c.hart_id ∙ ids place h0 before),
        )
