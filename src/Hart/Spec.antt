-- ===== src/Hart/Spec.antt =====
-- What a fetch is to deliver, as a function of the events that are still to be read: no queue, no
-- loop variables, no processor.
use arch_xplore.Base.{
  List, [], ◌∷◌, ◌++◌, true, false, ◌&&◌, Option, none, some, Addr, ltb, leb, ◌==◌, add64,
  if◌then◌else◌, ◌≡◌, ◌⊎◌, inl, inr, refl, arith, Bool-cases,
}
use mathlib.Core.Option
use arch_xplore.Cpu.Insts.{StaticInst}
use arch_xplore.Cpu.Events.{
  ThreadEvent, Tag, Payload, instruction, thread_api, syscall_api, insn, thread, sys,
}

-- The events that a guest thread sends: the tag names the member of the union.
abbrev pub IsSent : Tag → Payload → Type 0
IsSent instruction (insn d) = Unit
IsSent thread_api (thread d) = Unit
IsSent syscall_api (sys d) = Unit
IsSent _ _ = ⊥

abbrev pub IsEvent : ThreadEvent → Type 0
IsEvent e = IsSent e.tag e.payload

-- The instructions among the events, in order.
abbrev pub insts_of : Payload → List StaticInst
insts_of (insn d) = d ∷ []
insts_of _ = []

unfoldable pub insts : List ThreadEvent → List StaticInst
insts [] = []
insts (e ∷ es) = insts_of e.payload ++ insts es

-- What a fetch takes: the instructions, the events left, and the event that ended it, if one was
-- taken that did.
pub record Fetched : Type 0 where
  pub group : List StaticInst
  pub rest : List ThreadEvent
  pub ended : Option ThreadEvent

abbrev pub prepend : StaticInst → Fetched → Fetched
prepend i r = record r { group = i ∷ r.group }

-- The first event: an instruction is taken if it is the expected one and fits, and then the fetch
-- goes on behind it (`more`); any other event is taken alone, and so is the last of a thread.
unfoldable pub fetch_head :
    Addr
    → Addr
    → Payload
    → ThreadEvent
    → List ThreadEvent
    → (Addr → Option Fetched)
    → Option Fetched
fetch_head cur limit (insn i) e es more =
    if cur == i.pc && leb (add64 cur i.len) limit
    then if e.is_last
      then some (record { group = i ∷ []; rest = es; ended = some e })
      else Option.map (prepend i) (more (add64 cur i.len))
    else some (record { group = []; rest = e ∷ es; ended = none })
fetch_head cur limit _ e es more = some (record { group = []; rest = es; ended = some e })

-- The longest run of instructions from `cur` on that ends by `limit`. `none`: the events run out
-- before the fetch is over.
unfoldable pub fetch : Addr → Addr → List ThreadEvent → Option Fetched
fetch cur limit [] =
    if ltb cur limit then none else some (record { group = []; rest = []; ended = none })
fetch cur limit (e ∷ es) =
    if ltb cur limit
    then fetch_head cur limit e.payload e es (λ next. fetch next limit es)
    else some (record { group = []; rest = e ∷ es; ended = none })

-- A list with the last event of its thread in it.
abbrev pub HasLast : List ThreadEvent → Type 0
HasLast [] = ⊥
HasLast (e ∷ es) = (e.is_last ≡ true) ⊎ HasLast es

fetch_head-total :
    (cur limit : Addr) (p : Payload) (e : ThreadEvent) (es : List ThreadEvent)
    (more : Addr → Option Fetched)
    → (e.is_last ≡ false → (next : Addr) → (r : Fetched) × (more next ≡ some r))
    → (r : Fetched) × (fetch_head cur limit p e es more ≡ some r)
unfolding fetch_head
fetch_head-total cur limit (insn i) e es more go =
    elim (Bool-cases (cur == i.pc && leb (add64 cur i.len) limit)) [
      | inl fits ↦ elim (Bool-cases e.is_last) [
        | inl l ↦ (record { group = i ∷ []; rest = es; ended = some e }, rw (fits, l))
        | inr l ↦ let (r, found) = go l (add64 cur i.len) in (prepend i r, rw (fits, l, found))
      ]
      | inr over ↦ (record { group = []; rest = e ∷ es; ended = none }, rw over)
    ]
fetch_head-total cur limit _ e es more go = (record { group = []; rest = es; ended = some e }, refl)

-- A fetch that finds the last event of the thread ahead is never without events.
pub fetch-HasLast :
    (cur limit : Addr) (es : List ThreadEvent)
    → HasLast es
    → (r : Fetched) × (fetch cur limit es ≡ some r)
unfolding fetch
fetch-HasLast cur limit [] h = absurd h
fetch-HasLast cur limit (e ∷ es) h = elim (Bool-cases (ltb cur limit)) [
  | inl below ↦
      let (r, found) =
        fetch_head-total cur limit e.payload e es (λ next. fetch next limit es)
          (λ l next. fetch-HasLast next limit es (not-last e es h l)) in
      (r, rw (below) found)
  | inr over ↦ (record { group = []; rest = e ∷ es; ended = none }, rw over)
]
  where
    not-last :
        (e : ThreadEvent) (es : List ThreadEvent)
        → HasLast (e ∷ es)
        → e.is_last ≡ false
        → HasLast es
    not-last e es (inl l) n = absurd (ground arith)
    not-last e es (inr l) n = l
