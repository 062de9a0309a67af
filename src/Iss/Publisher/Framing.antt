-- ===== src/Iss/Publisher/Framing.antt =====
-- Publishing keeps the framing of the channel.
use arch_xplore.Base.{
  ◌<◌, [], ◌∷◌, Bool, false, length, All, All-append, arith, done, ◌≡◌, inl, inr, subst,
}
use arch_xplore.Cpu.Events.{ThreadEvent}
use arch_xplore.Iss.Config.{message_vector_size}
use arch_xplore.Iss.Batches.{IsQuiet, IsBatch, IsBatch-append}
use arch_xplore.Iss.Ports.{PublisherPort}
use arch_xplore.Iss.Publisher.{EventPublisher, publish}
use arch_xplore.Iss.Publisher.Laws.{publish_cases}

module _ {P : Type 0} (api : PublisherPort P) where
  open api use {sent, refusals}

  -- The buffer has room and holds no sync event, and what was sent are batches.
  pub record IsFramed (q : EventPublisher P) : Type 0 where
    pub room : length q.event_buffer < message_vector_size
    pub quiet : All IsQuiet q.event_buffer
    pub batches : All IsBatch (sent q.port)

  -- Publishing keeps the framing if every sync event is forced.
  pub publish-IsFramed :
      (force : Bool) (e : ThreadEvent) (q q' : EventPublisher P)
      → IsFramed q
      → (force ≡ false → IsQuiet e)
      → publish api force e q ≡ done q'
      → IsFramed q'
  publish-IsFramed force e q q' f hush returned =
      let (r, there, ways) = publish_cases api force e q f.room in
      let same : r ≡ q' = ground arith in
      subst IsFramed same (elim ways [
        | inl (lazy, room, b, s) ↦ record {
          room = room;
          quiet = rw b (All-append IsQuiet q.event_buffer (e ∷ []) f.quiet (hush lazy, tt));
          batches = rw s f.batches;
        }
        | inr (b, s) ↦ record {
          room = rw b (omega arith);
          quiet = rw b tt;
          batches = rw s (
              All-append IsBatch (sent q.port) _ f.batches
                (IsBatch-append q.event_buffer e f.quiet, tt));
        }
      ])
