-- ===== src/Sys/Register/Laws.antt =====
-- Harts have their numbers, and after registration each reads the channel of its own number.
use arch_xplore.Base.{
  ℕ, zero, suc, ◌^◌, ◌<◌, List, [], ◌∷◌, ◌++◌, Text, HartId, some, length, get_elem?, to_u16, done,
  ◌≡◌, inl, inr, refl, sym, ap, ◌∙◌, arith, get_elem?-lt, get_elem?-snoc, get_elem?-end,
}
use arch_xplore.Iss.Ports.{SubscriberPort}
use arch_xplore.Iss.Subscriber.{EventSubscriber, construct, wait_until_subscribed}
use arch_xplore.Hart.State.{Hart}
use arch_xplore.Sys.Boot.{QemuSystem, register_cpu, get_cpu_ptr}
use arch_xplore.Sys.Register.{initialize, create_iss, set_cpu, set_iss, set_all_iss, register_iss}

-- The harts are numbered by their places.
abbrev pub IsIdentified : {E Q : Type 0} → List (Hart E Q) → Type 0
IsIdentified {E} {Q} cpus = (j : ℕ) (h : Hart E Q) → get_elem? cpus j ≡ some h → h.cpu.hart_id ≡ j

-- The hart that has just been registered.
abbrev pub Registered : {E Q H : Type 0} → Hart E Q → QemuSystem E Q H → Hart E Q
Registered h s = record h {
  cpu = record h.cpu { core = record h.cpu.core { hart_id = to_u16 (length s.cpus) } };
}

-- While there are fewer than 2 ^ 16 harts, registering one more keeps them numbered by their places,
-- and the number that it got finds it again.
pub register_cpu-IsIdentified :
    {E Q H : Type 0} (h : Hart E Q) (s : QemuSystem E Q H)
    → length s.cpus < 2 ^ 16
    → IsIdentified s.cpus
    → IsIdentified (register_cpu h s).cpus
      × (get_cpu_ptr (Registered h s).cpu.hart_id (register_cpu h s) ≡ done (Registered h s))
unfolding register_cpu get_cpu_ptr
register_cpu-IsIdentified h s small ids =
    let small16 : to_u16 (length s.cpus) ≡ length s.cpus = ground arith in
    (
      λ j g there. elim (get_elem?-snoc s.cpus (Registered h s) g j there) [
        | inl before ↦ ids j g before
        | inr (e, same) ↦ ap (λ k. k.cpu.hart_id) (sym same) ∙ small16 ∙ sym e
      ],
      found small16,
    )
  where
    found :
        to_u16 (length s.cpus) ≡ length s.cpus
        → get_cpu_ptr (to_u16 (length s.cpus)) (register_cpu h s) ≡ done (Registered h s)
    found e =
        let at = get_elem?-end s.cpus (Registered h s) in
        let below =
          get_elem?-lt (s.cpus ++ Registered h s ∷ []) (length s.cpus) (Registered h s) at in
        rw e (ground (arith, at, below))

-- A subscription for each number of a hart succeeds within the polls.
abbrev pub Subscribes : {S : Type 0} → SubscriberPort S → ℕ → (Text → HartId → S) → Text → Type 0
Subscribes {S} api polls open_port app =
    (id : HartId) → (p : S) × (wait_until_subscribed api polls (open_port app id) ≡ done p)

module _ {E S : Type 0} where
  -- What becomes of a hart: its simulator is new, it reads the channel of its number, and it has no
  -- message in hand.
  pub record HasChannel (app : Text) (h h' : Hart E (EventSubscriber S)) : Type 0 where
    pub cpu : h'.cpu ≡ h.cpu
    pub process : h'.process ≡ h.process
    pub trace : h'.trace ≡ h.trace
    pub idle : h'.iss.fetch_buffer ≡ []
    pub app_name : h'.iss.event_queue.app_name ≡ app
    pub hart_id : h'.iss.event_queue.hart_id ≡ h.cpu.hart_id
    pub in_hand : h'.iss.event_queue.event_buffer ≡ []
    pub header : h'.iss.event_queue.header ≡ 0

  -- Every hart has its channel.
  abbrev pub HaveChannels :
      Text → List (Hart E (EventSubscriber S)) → List (Hart E (EventSubscriber S)) → Type 0
  HaveChannels app [] [] = Unit
  HaveChannels app (h ∷ hs) (h' ∷ hs') = HasChannel app h h' × HaveChannels app hs hs'
  HaveChannels app _ _ = ⊥

  -- The channel of the hart at a place.
  pub HaveChannels-at :
      (app : Text) (hs hs' : List (Hart E (EventSubscriber S))) (j : ℕ)
      → HaveChannels app hs hs'
      → j < length hs
      → (h h' : Hart E (EventSubscriber S)) × (get_elem? hs j ≡ some h)
        × (get_elem? hs' j ≡ some h')
        × HasChannel app h h'
  HaveChannels-at app [] hs' j c lt = absurd (omega arith)
  HaveChannels-at app (h ∷ hs) [] j c lt = absurd c
  HaveChannels-at app (h ∷ hs) (h' ∷ hs') zero c lt = (h, h', refl, refl, c.0)
  HaveChannels-at app (h ∷ hs) (h' ∷ hs') (suc j) c lt =
      HaveChannels-at app hs hs' j c.1 (omega arith)

module _ {E S : Type 0} (api : SubscriberPort S) (polls : ℕ) (open_port : Text → HartId → S) where
  set_iss_lem :
      (app : Text) (h : Hart E (EventSubscriber S))
      → Subscribes api polls open_port app
      → (h' : Hart E (EventSubscriber S)) × (set_iss api polls open_port app
            (create_iss h.iss.event_queue)
            h
          ≡ done h')
        × HasChannel app h h'
  unfolding set_iss set_cpu create_iss initialize construct
  set_iss_lem app h subscribes =
      let (p, there) = subscribes h.cpu.hart_id in
      (
        record h {
          iss = record {
            fetch_buffer = [];
            event_queue = record {
              app_name = app;
              hart_id = h.cpu.hart_id;
              port = p;
              event_buffer = [];
              header = 0;
            };
          };
        },
        rw there,
        record {
          cpu = refl;
          process = refl;
          trace = refl;
          idle = refl;
          app_name = refl;
          hart_id = refl;
          in_hand = refl;
          header = refl;
        },
      )

  set_all_iss_lem :
      (app : Text) (hs : List (Hart E (EventSubscriber S)))
      → Subscribes api polls open_port app
      → (hs' : List (Hart E (EventSubscriber S))) × (set_all_iss api polls open_port app hs
          ≡ done hs')
        × HaveChannels app hs hs'
  unfolding set_all_iss
  set_all_iss_lem app [] subscribes = ([], refl, tt)
  set_all_iss_lem app (h ∷ hs) subscribes =
      let (h', first, c) = set_iss_lem app h subscribes in
      let (hs', rest, cs) = set_all_iss_lem app hs subscribes in
      (h' ∷ hs', rw (first, rest), (c, cs))

  -- If the subscriptions succeed, registering the simulators returns; every hart has a new simulator,
  -- which reads the channel of the application and of the hart's number, from its beginning, and is
  -- otherwise as it was.
  pub register_iss_lem :
      {H : Type 0} (s : QemuSystem E (EventSubscriber S) H)
      → Subscribes api polls open_port s.app_name
      → (hs : List (Hart E (EventSubscriber S))) × (register_iss api polls open_port s
          ≡ done (record s { cpus = hs }))
        × HaveChannels s.app_name s.cpus hs
  unfolding register_iss
  register_iss_lem s subscribes =
      let (hs, returned, cs) = set_all_iss_lem s.app_name s.cpus subscribes in (hs, rw returned, cs)
