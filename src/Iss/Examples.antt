-- ===== src/Iss/Examples.antt =====
-- Ports that are lists, for the tests: one refuses, waits or misses as often as its numbers say.
use arch_xplore.Base.{
  ℕ, zero, suc, ◌<◌, List, [], ◌∷◌, ◌++◌, Bool, true, false, Option, none, some, ◌≡◌, ◌≢◌, refl,
  arith,
}
use arch_xplore.Cpu.Insts.{StaticInst, zero_inst}
use arch_xplore.Cpu.Events.{ThreadEvent, insn_event, syscall_event, unknown_api}
use arch_xplore.Iss.Config.{Message}
use arch_xplore.Iss.Ports.{PublisherPort, SubscriberPort}

pub record Outbox : Type 0 where
  pub messages : List Message
  pub refusals : ℕ
  pub lonely : ℕ

abbrev pub offer : ℕ → Outbox → Message → Bool × Outbox
offer zero o m = (true, record o { messages = o.messages ++ m ∷ [] })
offer (suc n) o m = (false, record o { refusals = n })

abbrev pub look : ℕ → Outbox → Bool × Outbox
look zero o = (true, o)
look (suc n) o = (false, record o { lonely = n })

pub offer_accepted :
    (n : ℕ) (o : Outbox) (m : Message)
    → (offer n o m).0 ≡ true
    → (offer n o m).1.messages ≡ o.messages ++ m ∷ []
offer_accepted zero o m h = refl
offer_accepted (suc n) o m h = absurd (ground arith)

pub offer_refused :
    (n : ℕ) (o : Outbox) (m : Message)
    → (offer n o m).0 ≡ false
    → ((offer n o m).1.messages ≡ o.messages) × ((offer n o m).1.refusals < n)
offer_refused zero o m h = absurd (ground arith)
offer_refused (suc n) o m h = (refl, omega arith)

pub look_lem :
    (n : ℕ) (o : Outbox)
    → ((look n o).1.messages ≡ o.messages) × ((look n o).0 ≡ false → (look n o).1.lonely < n)
look_lem zero o = (refl, λ h. absurd (ground arith))
look_lem (suc n) o = (refl, λ h. omega arith)

abbrev pub outbox : PublisherPort Outbox
outbox = record {
  has_subscribers = λ o. look o.lonely o;
  publish_copy_of = λ o m. offer o.refusals o m;
  stop_offer = λ o. o;
  sent = λ o. o.messages;
  refusals = λ o. o.refusals;
  lonely = λ o. o.lonely;
  accepted = λ o m. offer_accepted o.refusals o m;
  refused = λ o m. offer_refused o.refusals o m;
  polled = λ o. look_lem o.lonely o;
}

pub record Inbox : Type 0 where
  pub messages : List Message
  pub delay : ℕ

abbrev pub receive : ℕ → List Message → Option Message × Inbox
receive (suc n) ms = (none, record { messages = ms; delay = n })
receive zero [] = (none, record { messages = []; delay = 0 })
receive zero (m ∷ ms) = (some m, record { messages = ms; delay = 0 })

pub receive_took :
    (n : ℕ) (ms : List Message) (m : Message)
    → (receive n ms).0 ≡ some m
    → ms ≡ m ∷ (receive n ms).1.messages
receive_took (suc n) ms m h = absurd (ground arith)
receive_took zero [] m h = absurd (ground arith)
receive_took zero (x ∷ ms) m h = ground arith

pub receive_missed :
    (n : ℕ) (ms : List Message)
    → (receive n ms).0 ≡ none
    → ((receive n ms).1.messages ≡ ms) × (ms ≢ [] → (receive n ms).1.delay < n)
receive_missed (suc n) ms h = (refl, λ e. omega arith)
receive_missed zero [] h = (refl, λ e. absurd (e refl))
receive_missed zero (x ∷ ms) h = absurd (ground arith)

abbrev pub inbox : SubscriberPort Inbox
inbox = record {
  take_chunk = λ s. receive s.delay s.messages;
  subscribed = λ s. (true, s);
  unsubscribe = λ s. s;
  incoming = λ s. s.messages;
  delay = λ s. s.delay;
  took = λ s m. receive_took s.delay s.messages m;
  missed = λ s. receive_missed s.delay s.messages;
}

-- An instruction of four bytes at an address, and the event that holds it.
abbrev pub inst_at : ℕ → StaticInst
inst_at pc = record zero_inst { pc = pc; len = 4 }

abbrev pub event_at : ℕ → ℕ → ThreadEvent
event_at id pc = insn_event id (inst_at pc)

abbrev pub last_event_at : ℕ → ℕ → ThreadEvent
last_event_at id pc = record (event_at id pc) { is_last = true }

abbrev pub call_event : ℕ → ThreadEvent
call_event id = syscall_event id (record { api_type = unknown_api })
