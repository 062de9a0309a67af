-- ===== src/Hart/Links.antt =====
-- A thread whose instructions lead from one to the next, and what a fetch makes of it.
use arch_xplore.Base.{
  ℕ, ◌+◌, ◌^◌, ◌≤◌, ◌<◌, List, [], ◌∷◌, ◌++◌, true, false, none, some, Addr, length, add64, ◌≡◌,
  ◌≢◌, ◌⊎◌, inl, inr, refl, arith,
}
use arch_xplore.Cpu.Insts.{StaticInst}
use arch_xplore.Cpu.Events.{ThreadEvent, Payload, insn, as_inst, thread, sys, empty}
use arch_xplore.Hart.Tick.{next_pc_of}
use arch_xplore.Hart.Spec.{Fetched, insts, insts_of, HasLast}
use arch_xplore.Hart.Takes.{Takes, full, other, misfit, last, more}

-- An instruction that fits into a fetch of `width` bytes from its own address on.
abbrev pub IsFetchable : ℕ → StaticInst → Type 0
IsFetchable width i = (0 < width) × (i.len ≤ width) × (i.pc + width < 2 ^ 64)

-- The processor that goes on at `pc` finds each instruction where the one before it leads.
abbrev pub IsLinked : ℕ → Addr → List StaticInst → Type 0
IsLinked width pc [] = Unit
IsLinked width pc (i ∷ is) = (i.pc ≡ pc) × IsFetchable width i × IsLinked width (next_pc_of i) is

-- The events of a whole thread: the last of them, and no other, is marked, and it is an instruction.
abbrev pub EndsLast : List ThreadEvent → Type 0
EndsLast [] = ⊥
EndsLast (e ∷ []) = (e.is_last ≡ true) × ((i : StaticInst) × (e.payload ≡ insn i))
EndsLast (e ∷ f ∷ es) = (e.is_last ≡ false) × EndsLast (f ∷ es)

pub EndsLast-HasLast : (es : List ThreadEvent) → EndsLast es → HasLast es
EndsLast-HasLast [] h = h
EndsLast-HasLast (e ∷ []) h = inl h.0
EndsLast-HasLast (e ∷ f ∷ es) h = inr (EndsLast-HasLast (f ∷ es) h.1)

pub cons-EndsLast :
    (e : ThreadEvent) (es : List ThreadEvent) → e.is_last ≡ false → EndsLast es → EndsLast (e ∷ es)
cons-EndsLast e [] n h = absurd h
cons-EndsLast e (f ∷ es) n h = (n, h)

-- There is an instruction in it.
insts-EndsLast :
    (es : List ThreadEvent)
    → EndsLast es
    → (i : StaticInst) × (is : List StaticInst) × (insts es ≡ i ∷ is)
unfolding insts
insts-EndsLast [] h = absurd h
insts-EndsLast (e ∷ []) (l, (i, p)) = (i, [], rw p)
insts-EndsLast (e ∷ f ∷ es) h =
    let (i, is, found) = insts-EndsLast (f ∷ es) h.1 in first e.payload i is found
  where
    first :
        (p : Payload) (i : StaticInst) (is : List StaticInst)
        → insts (f ∷ es) ≡ i ∷ is
        → (j : StaticInst) × (js : List StaticInst) × (insts_of p ++ insts (f ∷ es) ≡ j ∷ js)
    first (insn d) i is found = (d, insts (f ∷ es), refl)
    first empty i is found = (i, is, found)
    first (thread d) i is found = (i, is, found)
    first (sys d) i is found = (i, is, found)

-- Behind an event that is not the last, the thread goes on.
tail-EndsLast :
    (e : ThreadEvent) (es : List ThreadEvent) → EndsLast (e ∷ es) → e.is_last ≡ false → EndsLast es
tail-EndsLast e [] h n = absurd (ground arith)
tail-EndsLast e (f ∷ es) h n = h.1

-- Behind the last there is nothing.
last-EndsLast :
    (e : ThreadEvent) (es : List ThreadEvent) → EndsLast (e ∷ es) → e.is_last ≡ true → es ≡ []
last-EndsLast e [] h n = refl
last-EndsLast e (f ∷ es) h n = absurd (ground arith)

-- The event at the head is the last only if it is an instruction.
other-not_last :
    (e : ThreadEvent) (es : List ThreadEvent)
    → EndsLast (e ∷ es)
    → as_inst e.payload ≡ none
    → e.is_last ≡ false
other-not_last e [] (l, (i, p)) none_there = absurd (ground arith)
other-not_last e (f ∷ es) h none_there = h.0

-- A fetch of such a thread leaves such a thread, and has not taken its end; or it leaves nothing, and
-- has taken it.
pub Takes-EndsLast :
    {limit cur : Addr} {es : List ThreadEvent} {r : Fetched}
    → Takes limit cur es r
    → EndsLast es
    → (EndsLast r.rest × ((e : ThreadEvent) → r.ended ≡ some e → e.is_last ≡ false))
      ⊎ ((r.rest ≡ []) × ((e : ThreadEvent) × (r.ended ≡ some e) × (e.is_last ≡ true)))
Takes-EndsLast (full cur es over) h = inl (h, λ e n. cc)
Takes-EndsLast (other cur e es below p) h =
    let l = other-not_last e es h p in inl (tail-EndsLast e es h l, λ f same. ground arith)
Takes-EndsLast (misfit cur i e es below p over) h = inl (h, λ e n. cc)
Takes-EndsLast (last cur i e es below p fits l) h = inr (last-EndsLast e es h l, (e, refl, l))
Takes-EndsLast (more cur i e es below p fits l t) h = Takes-EndsLast t (tail-EndsLast e es h l)

-- Each instruction of the group was an event.
pub Takes-length :
    {limit cur : Addr} {es : List ThreadEvent} {r : Fetched}
    → Takes limit cur es r
    → length r.group + length r.rest ≤ length es
Takes-length (full cur es over) = omega arith
Takes-length (other cur e es below p) = omega arith
Takes-length (misfit cur i e es below p over) = omega arith
Takes-length (last cur i e es below p fits l) = omega arith
Takes-length (more cur i e es below p fits l t) = omega (arith, Takes-length t)

-- If the thread goes on where the fetch is, the fetch delivers an instruction or takes an event.
pub Takes-progress :
    {limit cur : Addr} {es : List ThreadEvent} {r : Fetched} (width : ℕ)
    → Takes limit cur es r
    → limit ≡ add64 cur width
    → EndsLast es
    → IsLinked width cur (insts es)
    → (r.group ≢ []) ⊎ (length r.rest < length es)
unfolding insts
Takes-progress width (full cur es over) at h linked =
    let (i, is, found) = insts-EndsLast es h in
    let (pc, fetchable, _) : IsLinked width cur (i ∷ is) = rw found at linked in
    absurd (ground (arith, fetchable))
Takes-progress width (other cur e es below p) at h linked = inr (omega arith)
Takes-progress width (misfit cur i e es below p over) at h linked =
    let l : IsLinked width cur (i ∷ insts es) = rw p at linked in
    absurd (ground (arith, l.0, l.1.0))
Takes-progress width (last cur i e es below p fits l) at h linked = inl (λ e. cc)
Takes-progress width (more cur i e es below p fits l t) at h linked = inl (λ e. cc)
