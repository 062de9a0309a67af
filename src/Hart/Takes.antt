-- ===== src/Hart/Takes.antt =====
-- How a fetch goes, as a relation, and what a fetch delivers.
use arch_xplore.Base.{
  ◌≤◌, List, [], ◌∷◌, ◌++◌, true, false, ◌&&◌, none, some, Addr, ltb, leb, ◌==◌, add64, ◌≡◌, ◌⊎◌,
  inl, inr, refl, ap, arith, All, Bool-cases, Option-cases, subst,
}
use arch_xplore.Cpu.Insts.{StaticInst}
use arch_xplore.Cpu.Events.{ThreadEvent, Payload, insn, thread, sys, as_inst, empty}
use arch_xplore.Hart.Spec.{Fetched, prepend, fetch, fetch_head, insts, insts_of, HasLast}

-- The same as a relation, for proofs by induction on how a fetch went.
pub data Takes (limit : Addr) : Addr → List ThreadEvent → Fetched → Type 0 where
  full :
      (cur : Addr) (es : List ThreadEvent)
      → ltb cur limit ≡ false
      → Takes limit cur es (record { group = []; rest = es; ended = none })
  other :
      (cur : Addr) (e : ThreadEvent) (es : List ThreadEvent)
      → ltb cur limit ≡ true
      → as_inst e.payload ≡ none
      → Takes limit cur (e ∷ es) (record { group = []; rest = es; ended = some e })
  misfit :
      (cur : Addr) (i : StaticInst) (e : ThreadEvent) (es : List ThreadEvent)
      → ltb cur limit ≡ true
      → e.payload ≡ insn i
      → (cur == i.pc && leb (add64 cur i.len) limit) ≡ false
      → Takes limit cur (e ∷ es) (record { group = []; rest = e ∷ es; ended = none })
  last :
      (cur : Addr) (i : StaticInst) (e : ThreadEvent) (es : List ThreadEvent)
      → ltb cur limit ≡ true
      → e.payload ≡ insn i
      → (cur == i.pc && leb (add64 cur i.len) limit) ≡ true
      → e.is_last ≡ true
      → Takes limit cur (e ∷ es) (record { group = i ∷ []; rest = es; ended = some e })
  more :
      (cur : Addr) (i : StaticInst) (e : ThreadEvent) (es : List ThreadEvent) {r : Fetched}
      → ltb cur limit ≡ true
      → e.payload ≡ insn i
      → (cur == i.pc && leb (add64 cur i.len) limit) ≡ true
      → e.is_last ≡ false
      → Takes limit (add64 cur i.len) es r
      → Takes limit cur (e ∷ es) (prepend i r)

Takes-head :
    (cur limit : Addr) (p : Payload) (e : ThreadEvent) (es : List ThreadEvent) (r : Fetched)
    → ltb cur limit ≡ true
    → e.payload ≡ p
    → ((next : Addr) (s : Fetched) → fetch next limit es ≡ some s → Takes limit next es s)
    → fetch_head cur limit p e es (λ next. fetch next limit es) ≡ some r
    → Takes limit cur (e ∷ es) r
unfolding fetch_head
Takes-head cur limit (insn i) e es r below is_insn deeper h =
    elim (Bool-cases (cur == i.pc && leb (add64 cur i.len) limit)) [
      | inl fits ↦ elim (Bool-cases e.is_last) [
        | inl l ↦
            subst (Takes limit cur (e ∷ es)) (ground arith) (last cur i e es below is_insn fits l)
        | inr l ↦ elim (Option-cases (fetch (add64 cur i.len) limit es)) [
          | inl nothing ↦ absurd (ground arith)
          | inr (s, found) ↦
              subst (Takes limit cur (e ∷ es)) (ground arith)
                (more cur i e es below is_insn fits l (deeper (add64 cur i.len) s found))
        ]
      ]
      | inr over ↦
          subst (Takes limit cur (e ∷ es)) (ground arith) (misfit cur i e es below is_insn over)
    ]
Takes-head cur limit empty e es r below p deeper h =
    subst (Takes limit cur (e ∷ es)) (ground arith) (other cur e es below (rw p))
Takes-head cur limit (thread d) e es r below p deeper h =
    subst (Takes limit cur (e ∷ es)) (ground arith) (other cur e es below (rw p))
Takes-head cur limit (sys d) e es r below p deeper h =
    subst (Takes limit cur (e ∷ es)) (ground arith) (other cur e es below (rw p))

pub fetch-Takes :
    (cur limit : Addr) (es : List ThreadEvent) (r : Fetched)
    → fetch cur limit es ≡ some r
    → Takes limit cur es r
unfolding fetch
fetch-Takes cur limit [] r h = elim (Bool-cases (ltb cur limit)) [
  | inl below ↦ absurd (ground arith)
  | inr over ↦ subst (Takes limit cur []) (ground arith) (full cur [] over)
]
fetch-Takes cur limit (e ∷ es) r h = elim (Bool-cases (ltb cur limit)) [
  | inl below ↦
      Takes-head cur limit e.payload e es r below refl (λ next s. fetch-Takes next limit es s)
        (rw below at h)
  | inr over ↦ subst (Takes limit cur (e ∷ es)) (ground arith) (full cur (e ∷ es) over)
]

no_insts : (p : Payload) → as_inst p ≡ none → insts_of p ≡ []
no_insts (insn d) h = cc
no_insts empty h = refl
no_insts (thread d) h = refl
no_insts (sys d) h = refl

-- The instructions of a fetch and those left are those that there were.
pub insts-Takes :
    {limit cur : Addr} {es : List ThreadEvent} {r : Fetched}
    → Takes limit cur es r
    → insts es ≡ r.group ++ insts r.rest
unfolding insts
insts-Takes (full cur es over) = refl
insts-Takes (other cur e es below p) = ap (λ l. l ++ insts es) (no_insts e.payload p)
insts-Takes (misfit cur i e es below p over) = refl
insts-Takes (last cur i e es below p fits l) = rw p
insts-Takes (more cur i e es below p fits l t) = rw (p, insts-Takes t)

-- The addresses of consecutive instructions: each begins where the one before it ends.
abbrev pub IsRun : Addr → List StaticInst → Type 0
IsRun cur [] = Unit
IsRun cur (i ∷ is) = (i.pc ≡ cur) × IsRun (add64 cur i.len) is

-- A fetch delivers consecutive instructions, from the address asked for, none past the limit.
pub Takes-IsRun :
    {limit cur : Addr} {es : List ThreadEvent} {r : Fetched}
    → Takes limit cur es r
    → IsRun cur r.group × All (λ i. add64 i.pc i.len ≤ limit) r.group
Takes-IsRun (full cur es over) = (tt, tt)
Takes-IsRun (other cur e es below p) = (tt, tt)
Takes-IsRun (misfit cur i e es below p over) = (tt, tt)
Takes-IsRun (last cur i e es below p fits l) = ground arith
Takes-IsRun (more cur i e es below p fits l t) =
    let (run, within) = Takes-IsRun t in ((ground arith, run), (ground arith, within))

-- What is left are some of the events that there were.
pub All-Takes {κ} :
    (P : ThreadEvent → Type κ) {limit cur : Addr} {es : List ThreadEvent} {r : Fetched}
    → Takes limit cur es r
    → All P es
    → All P r.rest
All-Takes P (full cur es over) a = a
All-Takes P (other cur e es below p) a = a.1
All-Takes P (misfit cur i e es below p over) a = a
All-Takes P (last cur i e es below p fits l) a = a.1
All-Takes P (more cur i e es below p fits l t) a = All-Takes P t a.1

-- The last event of a thread is left, or it is the one that ended the fetch.
pub Takes-HasLast :
    {limit cur : Addr} {es : List ThreadEvent} {r : Fetched}
    → Takes limit cur es r
    → HasLast es
    → HasLast r.rest ⊎ ((e : ThreadEvent) × (r.ended ≡ some e) × (e.is_last ≡ true))
Takes-HasLast (full cur es over) h = inl h
Takes-HasLast (other cur e es below p) (inl l) = inr (e, refl, l)
Takes-HasLast (other cur e es below p) (inr h) = inl h
Takes-HasLast (misfit cur i e es below p over) h = inl h
Takes-HasLast (last cur i e es below p fits l) h = inr (e, refl, l)
Takes-HasLast (more cur i e es below p fits l t) (inl l') = absurd (ground arith)
Takes-HasLast (more cur i e es below p fits l t) (inr h) = Takes-HasLast t h
