-- ===== src/Iss/Ports.antt =====
-- What the program relies on of iceoryx, which is not part of this repository. A port is a state
-- with the operations that the program calls. The fields behind them are not operations: they say
-- what has been sent, what is still to come, and how often a poll can fail in vain.
use arch_xplore.Base.{ℕ, ◌<◌, List, [], ◌∷◌, ◌++◌, Bool, true, false, Option, none, some, ◌≡◌, ◌≢◌}
use arch_xplore.Iss.Config.{Message}

-- `iox::popo::Publisher<Message_t>` with the policy WAIT_FOR_CONSUMER.
pub record PublisherPort (P : Type 0) : Type 0 where
  pub has_subscribers : P → Bool × P
  pub publish_copy_of : P → Message → Bool × P
  pub stop_offer : P → P
  pub sent : P → List Message
  pub refusals : P → ℕ
  pub lonely : P → ℕ
  -- A message that is accepted is sent, behind the earlier ones.
  pub accepted :
      (p : P) (m : Message)
      → (publish_copy_of p m).0 ≡ true
      → sent (publish_copy_of p m).1 ≡ sent p ++ m ∷ []
  -- One that is refused is not sent, and it is refused finitely often.
  pub refused :
      (p : P) (m : Message)
      → (publish_copy_of p m).0 ≡ false
      → (sent (publish_copy_of p m).1 ≡ sent p) × (refusals (publish_copy_of p m).1 < refusals p)
  -- A poll for subscribers sends nothing, and one comes after finitely many polls.
  pub polled :
      (p : P)
      → (sent (has_subscribers p).1 ≡ sent p)
        × ((has_subscribers p).0 ≡ false → lonely (has_subscribers p).1 < lonely p)

-- `iox::popo::Subscriber<Message_t>` with the policy BLOCK_PRODUCER.
pub record SubscriberPort (S : Type 0) : Type 0 where
  pub take_chunk : S → Option Message × S
  pub subscribed : S → Bool × S
  pub unsubscribe : S → S
  pub incoming : S → List Message
  pub delay : S → ℕ
  -- Messages come in the order in which they were sent, and none is lost.
  pub took :
      (s : S) (m : Message) → (take_chunk s).0 ≡ some m → incoming s ≡ m ∷ incoming (take_chunk s).1
  -- A poll that finds nothing loses nothing, and finds nothing finitely often while one is to come.
  pub missed :
      (s : S)
      → (take_chunk s).0 ≡ none
      → (incoming (take_chunk s).1 ≡ incoming s)
        × (incoming s ≢ [] → delay (take_chunk s).1 < delay s)
