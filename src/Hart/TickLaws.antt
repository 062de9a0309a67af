-- ===== src/Hart/TickLaws.antt =====
-- A tick of the processor: it never loses or reorders an instruction, and it executes one if the
-- next one is there.
use arch_xplore.Base.{
  ℕ, ◌+◌, List, [], ◌∷◌, ◌++◌, true, some, Addr, ltb, leb, add64, done, ◌≡◌, ◌≢◌, ◌⊎◌, inl, inr,
  refl, sym, ap, ◌∙◌, arith, All, append_assoc, subst,
}
use arch_xplore.Cpu.Insts.{StaticInst}
use arch_xplore.Cpu.Events.{ThreadEvent, insn}
use arch_xplore.Cpu.Core.{UniqueEvent}
use arch_xplore.Iss.Queue.{EventQueue}
use arch_xplore.Hart.State.{Hart}
use arch_xplore.Hart.Spec.{Fetched, fetch, IsEvent, HasLast, fetch-HasLast, insts}
use arch_xplore.Hart.Takes.{
  Takes, full, other, misfit, last, more, insts-Takes, fetch-Takes, All-Takes, Takes-HasLast,
}
use arch_xplore.Hart.Fetch.{generate_fetch_request, process_fetch_response}
use arch_xplore.Hart.Loops.{Fetches, Fetches-Keeps}
use arch_xplore.Hart.FetchLaws.{IsOver, Fetches-IsOver, generate_fetch_request_lem}
use arch_xplore.Hart.Tick.{tick, execute, push_instructions, next_pc_of}

module _ {E Q : Type 0} {V : Q → Type 0} (ev : UniqueEvent E) (eq : EventQueue Q V) where
  open eq use {stream}

  process_fetch_response_lem :
      (h : Hart E Q) (g : List StaticInst)
      → process_fetch_response ev eq (record h { iss = record h.iss { fetch_buffer = g ∷ [] } })
        ≡ done (g, record h { iss = record h.iss { fetch_buffer = [] } })
  unfolding process_fetch_response
  process_fetch_response_lem h g = refl

  -- A tick with an empty fetch buffer is a fetch of the specification, and the execution of the
  -- oldest instruction that is waiting.
  pub tick_lem :
      (h : Hart E Q) (r : Fetched)
      → V h.iss.event_queue
      → All IsEvent (stream h.iss.event_queue)
      → h.iss.fetch_buffer ≡ []
      → fetch h.cpu.next_pc (add64 h.cpu.next_pc h.cpu.fetch_width) (stream h.iss.event_queue)
        ≡ some r
      → (h' : Hart E Q) × (tick ev eq h ≡ done (execute (push_instructions r.group h')))
        × Fetches ev eq r h h'
  unfolding tick
  tick_lem h r v evs idle spec =
      let (h', returned, f) =
        generate_fetch_request_lem ev eq h.cpu.next_pc h.cpu.fetch_width h r v evs spec in
      let k = Fetches-Keeps ev eq r h h' f in
      let empty : h'.iss.fetch_buffer ≡ [] = k.fetch_buffer ∙ idle in
      let buffer : List (List StaticInst) → Hart E Q =
        λ b. record h' { iss = record h'.iss { fetch_buffer = b } } in
      let fetched : generate_fetch_request ev eq h.cpu.next_pc h.cpu.fetch_width h
          ≡ done (buffer (r.group ∷ [])) =
        returned ∙ ap (λ b. done (buffer (b ++ r.group ∷ []))) idle in
      (
        h',
        rw (fetched, process_fetch_response_lem h' r.group)
            (ap (λ b. done (execute (push_instructions r.group (buffer b)))) (sym empty)),
        f,
      )

  -- Everything that the thread will have executed in the end, in order: what was executed, what
  -- waits in the buffer, and what is still to be fetched.
  abbrev pub program : Hart E Q → List StaticInst
  program h = h.trace ++ (h.cpu.inst_buffer ++ insts (stream h.iss.event_queue))

  -- What holds of a hart between two events of its scheduler.
  pub record IsReady (h : Hart E Q) : Type 0 where
    pub valid : V h.iss.event_queue
    pub events : All IsEvent (stream h.iss.event_queue)
    pub idle : h.iss.fetch_buffer ≡ []

  execute-program : (h : Hart E Q) → program (execute h) ≡ program h
  unfolding execute
  execute-program h =
      elim h.cpu.inst_buffer
        as (λ b.
          program (execute (record h { cpu = record h.cpu { inst_buffer = b } }))
          ≡ program (record h { cpu = record h.cpu { inst_buffer = b } })) [
            | [] ↦ refl
            | i ∷ is ↦ append_assoc h.trace (i ∷ []) (is ++ insts (stream h.iss.event_queue))
          ]

  pub execute-iss : (h : Hart E Q) → (execute h).iss ≡ h.iss
  unfolding execute
  execute-iss h = ground arith

  -- A fetch and the execution behind it keep the hart ready and the program as it is.
  pub settle :
      (h h' : Hart E Q) (r : Fetched) (cur limit : Addr)
      → IsReady h
      → Fetches ev eq r h h'
      → Takes limit cur (stream h.iss.event_queue) r
      → IsReady (execute (push_instructions r.group h'))
        × (program (execute (push_instructions r.group h')) ≡ program h)
  unfolding push_instructions
  settle h h' r cur limit ready f t =
      let k = Fetches-Keeps ev eq r h h' f in
      let same = execute-iss (push_instructions r.group h') in
      (
        record {
          valid = subst (λ s. V s.event_queue) (sym same) f.valid;
          events =
              subst (λ s. All IsEvent (stream s.event_queue)) (sym same)
                (subst (All IsEvent) (sym f.left) (All-Takes IsEvent t ready.events));
          idle = ap (λ s. s.fetch_buffer) same ∙ k.fetch_buffer ∙ ready.idle;
        },
        execute-program (push_instructions r.group h')
            ∙ simp (k.trace, k.inst_buffer, f.left, insts-Takes t, append_assoc),
      )

  pub execute-IsOver : (h : Hart E Q) → IsOver ev eq h → IsOver ev eq (execute h)
  unfolding execute
  execute-IsOver h o =
      elim h.cpu.inst_buffer
        as (λ b. IsOver ev eq (execute (record h { cpu = record h.cpu { inst_buffer = b } }))) [
          | [] ↦ record { no_tick = o.no_tick; rest = o.rest }
          | i ∷ is ↦ record { no_tick = o.no_tick; rest = o.rest }
        ]

  settle-HasLast :
      (h h' : Hart E Q) (r : Fetched) (cur limit : Addr)
      → Fetches ev eq r h h'
      → Takes limit cur (stream h.iss.event_queue) r
      → HasLast (stream h.iss.event_queue)
      → HasLast (stream (execute (push_instructions r.group h')).iss.event_queue)
        ⊎ IsOver ev eq (execute (push_instructions r.group h'))
  unfolding push_instructions
  settle-HasLast h h' r cur limit f t ahead = elim (Takes-HasLast t ahead) [
    | inl still ↦ inl (
        subst (λ s. HasLast (stream s.event_queue))
          (sym (execute-iss (push_instructions r.group h'))) (subst HasLast (sym f.left) still))
    | inr (e, ended, fin) ↦
        let o = Fetches-IsOver ev eq r h h' e f ended fin in
        inr (
          execute-IsOver (push_instructions r.group h')
            (record { no_tick = o.no_tick; rest = o.rest }))
  ]

  -- While the last event of the thread is still to come, a tick returns, and it neither loses nor
  -- adds nor reorders an instruction of the program; then that event is still to come, or the
  -- thread is over.
  pub tick-program :
      (h : Hart E Q)
      → IsReady h
      → HasLast (stream h.iss.event_queue)
      → (h' : Hart E Q) × (tick ev eq h ≡ done h')
        × IsReady h'
        × (program h' ≡ program h)
        × (HasLast (stream h'.iss.event_queue) ⊎ IsOver ev eq h')
  tick-program h ready ahead =
      let pc = h.cpu.next_pc in
      let limit = add64 pc h.cpu.fetch_width in
      let (r, spec) = fetch-HasLast pc limit (stream h.iss.event_queue) ahead in
      let t = fetch-Takes pc limit (stream h.iss.event_queue) r spec in
      let (h', returned, f) = tick_lem h r ready.valid ready.events ready.idle spec in
      let (ready', same) = settle h h' r pc limit ready f t in
      (
        execute (push_instructions r.group h'),
        returned,
        ready',
        same,
        settle-HasLast h h' r pc limit f t ahead,
      )

  -- The instruction that a tick executes: the oldest that waits, behind those fetched.
  pub execute_head :
      (h : Hart E Q) (i : StaticInst) (is : List StaticInst)
      → h.cpu.inst_buffer ≡ i ∷ is
      → ((execute h).trace ≡ h.trace ++ i ∷ [])
        × ((execute h).cpu.next_pc ≡ next_pc_of i)
        × ((execute h).cpu.instret ≡ h.cpu.instret + 1)
        × ((execute h).cpu.inst_buffer ≡ is)
  unfolding execute
  execute_head h i is e = ground arith

  -- The head of the events is the instruction at `pc`, and it fits into a fetch.
  abbrev pub Fits : Addr → ℕ → List ThreadEvent → Type 0
  Fits pc width [] = ⊥
  Fits pc width (e ∷ es) =
      (i : StaticInst) × (e.payload ≡ insn i)
      × (i.pc ≡ pc)
      × (ltb pc (add64 pc width) ≡ true)
      × (leb (add64 pc i.len) (add64 pc width) ≡ true)

  Fits-Takes :
      {limit cur : Addr} {es : List ThreadEvent} {r : Fetched} (width : ℕ)
      → Takes limit cur es r
      → limit ≡ add64 cur width
      → Fits cur width es
      → (i : StaticInst) × (is : List StaticInst) × (r.group ≡ i ∷ is)
  Fits-Takes width (full cur [] over) e fit = absurd fit
  Fits-Takes width (full cur (x ∷ es) over) e (i, p, at, below, room) = absurd (ground arith)
  Fits-Takes width (other cur x es lt none_there) e (i, p, at, below, room) = absurd (ground arith)
  Fits-Takes width (misfit cur j x es lt p over) e (i, q, at, below, room) =
      let same : j ≡ i = ground arith in absurd (ground arith)
  Fits-Takes width (last cur j x es lt p fits l) e fit = (j, [], refl)
  Fits-Takes width (more cur j x es {r} lt p fits l t) e fit = (j, r.group, refl)

  waiting :
      {limit cur : Addr} {es : List ThreadEvent} {r : Fetched} (width : ℕ) (b : List StaticInst)
      → Takes limit cur es r
      → limit ≡ add64 cur width
      → (b ≢ []) ⊎ Fits cur width es
      → (i : StaticInst) × (is : List StaticInst) × (b ++ r.group ≡ i ∷ is)
  waiting {r} width (i ∷ is) t e next = (i, is ++ r.group, refl)
  waiting width [] t e (inl full_buffer) = absurd (full_buffer refl)
  waiting width [] t e (inr fit) = Fits-Takes width t e fit

  -- While the last event of the thread is still to come, a tick of a ready hart executes exactly one instruction if one
  -- waits in the buffer, or if the next event is the instruction where the processor goes on and it fits
  -- into a fetch. It is the first of those that wait in the buffer and are to be read, in this order;
  -- behind it the others wait and are to be read, and the processor goes on where it points.
  pub tick_retires :
      (h : Hart E Q)
      → IsReady h
      → HasLast (stream h.iss.event_queue)
      → (h.cpu.inst_buffer ≢ []) ⊎ Fits h.cpu.next_pc h.cpu.fetch_width (stream h.iss.event_queue)
      → (h' : Hart E Q) × (i : StaticInst) × (is : List StaticInst) × (tick ev eq h ≡ done h')
        × (h.cpu.inst_buffer ++ insts (stream h.iss.event_queue) ≡ i ∷ is)
        × (h'.cpu.inst_buffer ++ insts (stream h'.iss.event_queue) ≡ is)
        × (h'.trace ≡ h.trace ++ i ∷ [])
        × (h'.cpu.instret ≡ h.cpu.instret + 1)
        × (h'.cpu.next_pc ≡ next_pc_of i)
  unfolding push_instructions
  tick_retires h ready ahead next =
      let pc = h.cpu.next_pc in
      let limit = add64 pc h.cpu.fetch_width in
      let (r, spec) = fetch-HasLast pc limit (stream h.iss.event_queue) ahead in
      let t = fetch-Takes pc limit (stream h.iss.event_queue) r spec in
      let (h', returned, f) = tick_lem h r ready.valid ready.events ready.idle spec in
      let k = Fetches-Keeps ev eq r h h' f in
      let (i, is, waits) = waiting h.cpu.fetch_width h.cpu.inst_buffer t refl next in
      let (tr, pc', ret, buf) =
        execute_head (push_instructions r.group h') i is
          (ap (λ b. b ++ r.group) k.inst_buffer ∙ waits) in
      (
        execute (push_instructions r.group h'),
        i,
        is ++ insts r.rest,
        returned,
        ap (λ l. h.cpu.inst_buffer ++ l) (insts-Takes t)
            ∙ sym (append_assoc h.cpu.inst_buffer r.group (insts r.rest))
            ∙ ap (λ l. l ++ insts r.rest) waits,
        ap (λ b. b ++ insts (stream (execute (push_instructions r.group h')).iss.event_queue)) buf
            ∙ ap (λ s. is ++ insts (stream s.event_queue))
                (execute-iss (push_instructions r.group h'))
            ∙ ap (λ es. is ++ insts es) f.left,
        tr ∙ ap (λ l. l ++ i ∷ []) k.trace,
        ret ∙ ap (λ n. n + 1) k.instret,
        pc',
      )
