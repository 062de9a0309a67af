-- ===== src/Iss/Tests.antt =====
-- Tests of the event channel and of the plugin at concrete states.
use arch_xplore.Base.{
  ℕ, ◌<◌, [], ◌∷◌, ◌++◌, true, some, length, Outcome, done, ◌≡◌, ◌≢◌, inr, refl, arith, codes,
}
use arch_xplore.Cpu.Insts.{zero_inst}
use arch_xplore.Cpu.Events.{copy, copy-IsTagged}
use arch_xplore.Iss.Config.{message_vector_size}
use arch_xplore.Iss.Examples.{Outbox, outbox, Inbox, inbox, inst_at, event_at, call_event}
use arch_xplore.Iss.Publisher.{EventPublisher, publish, published}
use arch_xplore.Iss.Publisher.Laws.{publish_lem}
use arch_xplore.Iss.Publisher.Framing.{IsFramed, publish-IsFramed}
use arch_xplore.Iss.Subscriber.{EventSubscriber, front}
use arch_xplore.Iss.Subscriber.Laws
use arch_xplore.Hart.Tick.{next_pc_of}
use arch_xplore.Iss.Cache.{InstCacheEntry}
use arch_xplore.Iss.Plugin.{Vcpu, link}
use arch_xplore.Iss.Plugin.Publishing.{IsLive}
use arch_xplore.Iss.Plugin.Redirects.{next_pc_of-link, link_straight, link_jump_back}

-- A publisher with an event in its buffer, whose port refuses two messages.
abbrev busy : EventPublisher Outbox
busy = record {
  app_name = codes "app";
  hart_id = 0;
  port = record { messages = []; refusals = 2; lonely = 0 };
  event_buffer = event_at 0 64 ∷ [];
}

busy-IsFramed : IsFramed outbox busy
busy-IsFramed = record { room = omega arith; quiet = (refl, tt); batches = tt }

copy-IsTagged_example : copy (event_at 3 8) ≡ event_at 3 8
copy-IsTagged_example = copy-IsTagged (event_at 3 8) tt

publish_lem_example :
    (q' : EventPublisher Outbox) × (publish outbox true (call_event 1) busy ≡ done q')
    × (published outbox q' ≡ published outbox busy ++ call_event 1 ∷ [])
    × (length q'.event_buffer < message_vector_size)
    × (true ≡ true → q'.event_buffer ≡ [])
publish_lem_example = publish_lem outbox true (call_event 1) busy (omega arith)

abbrev sent_busy : EventPublisher Outbox
sent_busy = record busy {
  port = record { messages = (event_at 0 64 ∷ call_event 1 ∷ []) ∷ []; refusals = 0; lonely = 0 };
  event_buffer = [];
}

busy_sent : publish outbox true (call_event 1) busy ≡ done sent_busy
unfolding publish arch_xplore.Iss.Publisher.send
busy_sent = refl

publish-IsFramed_example : IsFramed outbox sent_busy
publish-IsFramed_example =
    publish-IsFramed outbox true (call_event 1) busy sent_busy busy-IsFramed
      (λ h. absurd (ground arith)) busy_sent

-- A subscriber whose message in hand is read, with another to come after one vain poll.
abbrev waiting : EventSubscriber Inbox
waiting = record {
  app_name = codes "app";
  hart_id = 0;
  port = record { messages = (event_at 1 68 ∷ call_event 2 ∷ []) ∷ []; delay = 1 };
  event_buffer = event_at 0 64 ∷ [];
  header = 1;
}

waiting-IsValid : Laws.IsValid inbox waiting
waiting-IsValid = record { within = omega arith; rest = tt; batches = ((refl, tt), tt) }

front_lem_example :
    (q' : EventSubscriber Inbox) × (front inbox waiting ≡ done (event_at 1 68, q'))
    × Laws.Reads inbox (event_at 1 68) (call_event 2 ∷ []) q'
front_lem_example =
    Laws.front_lem inbox waiting (event_at 1 68) (call_event 2 ∷ []) waiting-IsValid refl

front_blocks_example :
    front inbox (record waiting { port = record { messages = []; delay = 1 } }) ≡ Outcome.blocked
front_blocks_example =
    Laws.front_blocks inbox (record waiting { port = record { messages = []; delay = 1 } })
      (record { within = omega arith; rest = tt; batches = tt }) refl

-- One that has not yet read the message in hand.
abbrev unread_yet : EventSubscriber Inbox
unread_yet = record waiting { header = 0; port = record waiting.port { delay = 0 } }

-- A virtual processor that has just been initialised, and one behind its first instruction.
abbrev fresh : Vcpu Outbox
fresh = record {
  inst_counter = 0;
  event_counter = 0;
  last_inst = zero_inst;
  publisher = some (record busy { event_buffer = [] });
}

fresh-IsLive : IsLive outbox fresh
fresh-IsLive = (
  record busy { event_buffer = [] },
  refl,
  record { room = omega arith; quiet = tt; batches = tt },
)

abbrev begun : Vcpu Outbox
begun = record fresh { inst_counter = 1; last_inst = inst_at 64; publisher = some busy }

begun-IsLive : IsLive outbox begun
begun-IsLive = (busy, refl, busy-IsFramed)

abbrev entry : ℕ → InstCacheEntry
entry pc = record { pc = pc; opcode = 19; len = 4 }

next_pc_of-link_example : next_pc_of (link (inst_at 64) (entry 128)) ≡ 128
next_pc_of-link_example = next_pc_of-link (inst_at 64) (entry 128) (inr (ground arith))

link_straight_example : (link (inst_at 64) (entry 68)).br_info.redirect ≡ true
link_straight_example = link_straight (inst_at 64) (entry 68) (omega arith) (omega arith) refl

link_jump_back_example :
    (next_pc_of (link (inst_at 64) (entry 60)) ≡ 68)
    × (next_pc_of (link (inst_at 64) (entry 60)) ≢ 60)
link_jump_back_example =
    link_jump_back (inst_at 64) (entry 60) refl (omega arith) (omega arith) refl
