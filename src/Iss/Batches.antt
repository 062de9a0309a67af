-- ===== src/Iss/Batches.antt =====
-- The framing of the event channel: which events are sent at once, and so end their message.
use arch_xplore.Base.{
  concat, List, [], ◌∷◌, ◌++◌, Bool, true, false, ◌||◌, ◌≡◌, ◌≢◌, refl, All, arith,
}
use arch_xplore.Cpu.Events.{ThreadEvent, Tag, syscall_api}
use arch_xplore.Iss.Config.{Message}

abbrev pub is_syscall : Tag → Bool
is_syscall syscall_api = true
is_syscall _ = false

-- The events that make the reader wait for another message: a system call and the last event.
abbrev pub is_sync : ThreadEvent → Bool
is_sync e = is_syscall e.tag || e.is_last

abbrev pub IsQuiet : ThreadEvent → Type 0
IsQuiet e = is_sync e ≡ false

-- A message holds an event, and none but its last is a sync event.
abbrev pub IsBatch : Message → Type 0
IsBatch [] = ⊥
IsBatch (e ∷ []) = Unit
IsBatch (e ∷ f ∷ m) = IsQuiet e × IsBatch (f ∷ m)

-- What is left of a message.
abbrev pub IsRest : Message → Type 0
IsRest [] = Unit
IsRest (e ∷ m) = IsBatch (e ∷ m)

pub IsBatch-append : (m : Message) (e : ThreadEvent) → All IsQuiet m → IsBatch (m ++ e ∷ [])
IsBatch-append [] e q = tt
IsBatch-append (f ∷ []) e q = (q.0, tt)
IsBatch-append (f ∷ g ∷ m) e q = (q.0, IsBatch-append (g ∷ m) e q.1)

pub IsRest-tail : (e : ThreadEvent) (m : Message) → IsRest (e ∷ m) → IsRest m
IsRest-tail e [] h = tt
IsRest-tail e (f ∷ m) h = h.1

-- A sync event is the last of its message.
pub IsRest-sync : (e : ThreadEvent) (m : Message) → IsRest (e ∷ m) → is_sync e ≡ true → m ≡ []
IsRest-sync e [] h s = refl
IsRest-sync e (f ∷ m) h s = ground (arith, h.0)

pub IsBatch-IsRest : (m : Message) → IsBatch m → IsRest m
IsBatch-IsRest [] h = tt
IsBatch-IsRest (e ∷ m) h = h

pub IsBatch-ne : (m : Message) → IsBatch m → m ≢ []
IsBatch-ne [] h e = h
IsBatch-ne (x ∷ m) h e = cc

-- Only no batches at all hold no events.
pub concat-batches : (ms : List Message) → All IsBatch ms → concat ms ≡ [] → ms ≡ []
concat-batches [] b e = refl
concat-batches ([] ∷ ms) b e = absurd b.0
concat-batches ((x ∷ m) ∷ ms) b e = cc
