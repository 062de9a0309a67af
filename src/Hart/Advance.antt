-- ===== src/Hart/Advance.antt =====
-- A tick of a thread whose instructions lead from one to the next goes forward.
use arch_xplore.Base.{
  ℕ, suc, ◌+◌, ◌≤◌, ◌<◌, List, [], ◌∷◌, ◌++◌, false, some, Addr, length, add64, done, ◌≡◌, ◌≢◌, ◌⊎◌,
  inl, inr, refl, sym, ap, ◌∙◌, arith, subst, append_assoc, length-append,
}
use arch_xplore.Cpu.Insts.{StaticInst}
use arch_xplore.Cpu.Events.{ThreadEvent}
use arch_xplore.Cpu.Status.{active, blocked_syscall}
use arch_xplore.Cpu.Core.{UniqueEvent}
use arch_xplore.Iss.Queue.{EventQueue}
use arch_xplore.Hart.State.{Hart}
use arch_xplore.Hart.Spec.{Fetched, insts, fetch-HasLast}
use arch_xplore.Hart.Takes.{fetch-Takes, insts-Takes, Takes}
use arch_xplore.Hart.Links.{
  IsLinked, EndsLast, EndsLast-HasLast, Takes-EndsLast, Takes-length, Takes-progress,
}
use arch_xplore.Hart.Loops.{Fetches, Fetches-Keeps}
use arch_xplore.Hart.FetchLaws.{IsOver, Fetches-IsOver}
use arch_xplore.Hart.TickLaws.{IsReady, program, tick_lem, settle, execute-iss, execute-IsOver}
use arch_xplore.Hart.Tick.{tick, execute, push_instructions}
use arch_xplore.Hart.Effects.{apply_ended-status, IsSameHart, Fetches-IsSameHart}

dec_nil : (b : List StaticInst) → Dec (b ≡ [])
dec_nil [] = yes refl
dec_nil (i ∷ b) = no (λ e. cc)

module _ {E Q : Type 0} {V : Q → Type 0} (ev : UniqueEvent E) (eq : EventQueue Q V) where
  open eq use {stream, unread}

  -- What the processor has still to execute, and where it goes on.
  abbrev pub HasLinks : Hart E Q → Type 0
  HasLinks h =
      IsLinked h.cpu.fetch_width h.cpu.next_pc
        (h.cpu.inst_buffer ++ insts (stream h.iss.event_queue))

  -- The events that are still to be read, and the instructions that wait.
  abbrev pub pending : Hart E Q → ℕ
  pending h = length (stream h.iss.event_queue) + length h.cpu.inst_buffer

  -- The instruction that is executed leads to the next.
  execute-HasLinks :
      (h : Hart E Q)
      → HasLinks h
      → HasLinks (execute h)
        × ((h.cpu.inst_buffer ≢ []) → suc (pending (execute h)) ≡ pending h)
        × (h.cpu.inst_buffer ≡ [] → pending (execute h) ≡ pending h)
  unfolding execute
  execute-HasLinks h l =
      elim h.cpu.inst_buffer
          as (λ b.
            IsLinked h.cpu.fetch_width h.cpu.next_pc (b ++ insts (stream h.iss.event_queue))
            → HasLinks (execute (record h { cpu = record h.cpu { inst_buffer = b } }))
              × ((b ≢ [])
                  → suc (pending (execute (record h { cpu = record h.cpu { inst_buffer = b } })))
                    ≡ length (stream h.iss.event_queue) + length b)
              × (b ≡ []
                  → pending (execute (record h { cpu = record h.cpu { inst_buffer = b } }))
                    ≡ length (stream h.iss.event_queue) + length b)) [
                      | [] ↦ λ l. (l, λ n. absurd (n refl), λ e. refl)
                      | i ∷ is ↦ λ l. let (_, _, rest) = l in (rest, λ n. omega arith, λ e. cc)
                    ]
        l

  -- A thread that is over: nothing is left to be read.
  abbrev pub HasEnded : Hart E Q → Type 0
  HasEnded h = (stream h.iss.event_queue ≡ []) × IsOver ev eq h

  -- One that goes on: its end is to come; an active hart stays active or waits in a system call, with
  -- no message at hand.
  pub record GoesOn (h h' : Hart E Q) : Type 0 where
    pub ends : EndsLast (stream h'.iss.event_queue)
    pub status :
        h.cpu.status ≡ active
        → (h'.cpu.status ≡ active)
          ⊎ ((h'.cpu.status ≡ blocked_syscall) × (unread h'.iss.event_queue ≡ []))

  execute-GoesOn : (h h' : Hart E Q) → GoesOn h h' → GoesOn h (execute h')
  unfolding execute
  execute-GoesOn h h' g =
      elim h'.cpu.inst_buffer
        as (λ b. GoesOn h (execute (record h' { cpu = record h'.cpu { inst_buffer = b } }))) [
          | [] ↦ record { ends = g.ends; status = g.status }
          | i ∷ is ↦ record { ends = g.ends; status = g.status }
        ]

  Fetches-GoesOn :
      (r : Fetched) (h h' : Hart E Q)
      → Fetches ev eq r h h'
      → EndsLast r.rest
      → ((e : ThreadEvent) → r.ended ≡ some e → e.is_last ≡ false)
      → GoesOn h (push_instructions r.group h')
  unfolding push_instructions
  Fetches-GoesOn r h h' f ends not_last = record {
    ends = subst EndsLast (sym f.left) ends;
    status = λ a. elim (apply_ended-status ev eq r.ended h a not_last) [
      | inl still ↦ inl (ap (λ k. k.cpu.status) f.effect ∙ still)
      | inr (waits, (e, taken, sync)) ↦
          inr (ap (λ k. k.cpu.status) f.effect ∙ waits, f.at_end e taken sync)
    ];
  }

  -- A tick goes forward: it returns, and the hart is ready, with the same program and still linked;
  -- it has less to read or to execute; and its thread goes on or has ended.
  pub record Advances (h h' : Hart E Q) : Type 0 where
    pub ready : IsReady ev eq h'
    pub same : program ev eq h' ≡ program ev eq h
    pub links : HasLinks h'
    pub less : pending h' < pending h
    pub same_hart : IsSameHart h h'
    pub outcome : GoesOn h h' ⊎ HasEnded h'

  append_nil-left : (b g : List StaticInst) → b ++ g ≡ [] → (b ≡ []) × (g ≡ [])
  append_nil-left [] g e = (refl, e)
  append_nil-left (i ∷ b) g e = cc

  push-HasLinks :
      (h h' : Hart E Q) (r : Fetched) (cur limit : Addr)
      → Fetches ev eq r h h'
      → Takes limit cur (stream h.iss.event_queue) r
      → HasLinks h
      → HasLinks (push_instructions r.group h')
        × (pending (push_instructions r.group h') ≤ pending h)
  unfolding push_instructions
  push-HasLinks h h' r cur limit f t links =
      let k = Fetches-Keeps ev eq r h h' f in
      let rest = (h'.cpu.inst_buffer ++ r.group) ++ insts (stream h'.iss.event_queue) in
      let same : rest ≡ h.cpu.inst_buffer ++ insts (stream h.iss.event_queue) =
        simp (k.inst_buffer, f.left, insts-Takes t, append_assoc) in
      (
        subst (λ w. IsLinked w h'.cpu.next_pc rest) (sym k.fetch_width)
            (subst (λ p. IsLinked h.cpu.fetch_width p rest) (sym k.next_pc)
              (subst (IsLinked h.cpu.fetch_width h.cpu.next_pc) (sym same) links)),
        omega (
          arith,
          length-append h'.cpu.inst_buffer r.group,
          ap length k.inst_buffer,
          ap length f.left,
          Takes-length t,
        ),
      )

  -- Where nothing waits and the fetch delivers nothing, it has taken an event.
  idle-less :
      (h h' : Hart E Q) (r : Fetched)
      → Fetches ev eq r h h'
      → Takes (add64 h.cpu.next_pc h.cpu.fetch_width) h.cpu.next_pc (stream h.iss.event_queue) r
      → EndsLast (stream h.iss.event_queue)
      → HasLinks h
      → h'.cpu.inst_buffer ++ r.group ≡ []
      → pending (push_instructions r.group h') < pending h
  unfolding push_instructions
  idle-less h h' r f t ends links none_there =
      let k = Fetches-Keeps ev eq r h h' f in
      let (b, g) = append_nil-left h'.cpu.inst_buffer r.group none_there in
      let at_head : IsLinked h.cpu.fetch_width h.cpu.next_pc (insts (stream h.iss.event_queue)) =
        subst
          (λ c. IsLinked h.cpu.fetch_width h.cpu.next_pc (c ++ insts (stream h.iss.event_queue)))
          (sym k.inst_buffer ∙ b) links in
      elim (Takes-progress h.cpu.fetch_width t refl ends at_head) [
        | inl some_more ↦ absurd (some_more g)
        | inr less ↦ omega (arith, less, ap length f.left, ap length none_there)
      ]

  advance-less :
      (h h1 : Hart E Q) (r : Fetched)
      → Fetches ev eq r h h1
      → Takes (add64 h.cpu.next_pc h.cpu.fetch_width) h.cpu.next_pc (stream h.iss.event_queue) r
      → EndsLast (stream h.iss.event_queue)
      → HasLinks h
      → ((push_instructions r.group h1).cpu.inst_buffer ≡ []
          → pending (execute (push_instructions r.group h1))
            ≡ pending (push_instructions r.group h1))
      → ((push_instructions r.group h1).cpu.inst_buffer ≢ []
          → suc (pending (execute (push_instructions r.group h1)))
            ≡ pending (push_instructions r.group h1))
      → pending (push_instructions r.group h1) ≤ pending h
      → pending (execute (push_instructions r.group h1)) < pending h
  unfolding push_instructions
  advance-less h h1 r f t ends links stays pops fits =
      elim (dec_nil (h1.cpu.inst_buffer ++ r.group)) [
        | yes e ↦ omega (arith, stays e, idle-less h h1 r f t ends links e)
        | no n ↦ omega (arith, pops n)
      ]

  push-IsOver :
      (h : Hart E Q) (g : List StaticInst) → IsOver ev eq h → IsOver ev eq (push_instructions g h)
  unfolding push_instructions
  push-IsOver h g o = record { no_tick = o.no_tick; rest = o.rest }

  push-iss : (h : Hart E Q) (g : List StaticInst) → (push_instructions g h).iss ≡ h.iss
  unfolding push_instructions
  push-iss h g = refl

  advance-outcome :
      (h h1 : Hart E Q) (r : Fetched)
      → Fetches ev eq r h h1
      → Takes (add64 h.cpu.next_pc h.cpu.fetch_width) h.cpu.next_pc (stream h.iss.event_queue) r
      → EndsLast (stream h.iss.event_queue)
      → GoesOn h (execute (push_instructions r.group h1))
        ⊎ HasEnded (execute (push_instructions r.group h1))
  advance-outcome h h1 r f t ends = elim (Takes-EndsLast t ends) [
    | inl (left, not_last) ↦
        inl
          (execute-GoesOn h (push_instructions r.group h1) (Fetches-GoesOn r h h1 f left not_last))
    | inr (none_left, (e, taken, fin)) ↦ inr (
      ap (λ s. stream s.event_queue)
            (execute-iss ev eq (push_instructions r.group h1) ∙ push-iss h1 r.group)
          ∙ f.left
          ∙ none_left,
      execute-IsOver ev eq (push_instructions r.group h1)
          (push-IsOver h1 r.group (Fetches-IsOver ev eq r h h1 e f taken fin)),
    )
  ]

  -- A tick of a ready hart whose thread leads from one instruction to the next goes forward.
  pub tick-Advances :
      (h : Hart E Q)
      → IsReady ev eq h
      → EndsLast (stream h.iss.event_queue)
      → HasLinks h
      → (h' : Hart E Q) × (tick ev eq h ≡ done h') × Advances h h'
  tick-Advances h ready ends links =
      let pc = h.cpu.next_pc in
      let limit = add64 pc h.cpu.fetch_width in
      let es = stream h.iss.event_queue in
      let (r, spec) = fetch-HasLast pc limit es (EndsLast-HasLast es ends) in
      let t = fetch-Takes pc limit es r spec in
      let (h1, returned, f) = tick_lem ev eq h r ready.valid ready.events ready.idle spec in
      let h2 = push_instructions r.group h1 in
      let (ready', same) = settle ev eq h h1 r pc limit ready f t in
      let (links2, fits) = push-HasLinks h h1 r pc limit f t links in
      let (links', pops, stays) = execute-HasLinks h2 links2 in
      (
        execute h2,
        returned,
        record {
          ready = ready';
          same = same;
          links = links';
          less = advance-less h h1 r f t ends links stays pops fits;
          same_hart = Fetches-IsSameHart ev eq r h h1 f;
          outcome = advance-outcome h h1 r f t ends;
        },
      )
