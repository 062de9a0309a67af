-- ===== src/Hart/Leftover.antt =====
-- What a thread that has ended leaves behind: a fetch takes whole groups of instructions, a tick
-- executes one, and the fetch that takes the end of the thread ends the ticks.
use arch_xplore.Base.{List, [], ◌∷◌, ◌++◌, true, false, some, add64, done, ◌≡◌, ap, ◌∙◌}
use arch_xplore.Cpu.Insts.{StaticInst}
use arch_xplore.Cpu.Events.{ThreadEvent}
use arch_xplore.Cpu.Core.{UniqueEvent}
use arch_xplore.Iss.Queue.{EventQueue}
use arch_xplore.Hart.State.{Hart}
use arch_xplore.Hart.Spec.{Fetched, fetch}
use arch_xplore.Hart.Loops.{Fetches-Keeps}
use arch_xplore.Hart.FetchLaws.{Fetches-IsOver}
use arch_xplore.Hart.TickLaws.{IsReady, tick_lem, execute_head, execute-IsOver}
use arch_xplore.Hart.Tick.{tick, execute, push_instructions}

module _ {E Q : Type 0} {V : Q → Type 0} (ev : UniqueEvent E) (eq : EventQueue Q V) where
  open eq use {stream}

  -- If the fetch of a ready hart takes the last event of the thread, and more than one instruction
  -- waits then, the tick returns with the first of them executed and the others left in the buffer,
  -- and no tick is scheduled that would execute them.
  pub tick-leaves :
      (h : Hart E Q) (r : Fetched) (e : ThreadEvent) (i j : StaticInst) (is : List StaticInst)
      → IsReady ev eq h
      → fetch h.cpu.next_pc (add64 h.cpu.next_pc h.cpu.fetch_width) (stream h.iss.event_queue)
        ≡ some r
      → r.ended ≡ some e
      → e.is_last ≡ true
      → h.cpu.inst_buffer ++ r.group ≡ i ∷ j ∷ is
      → (h' : Hart E Q) × (tick ev eq h ≡ done h')
        × (h'.trace ≡ h.trace ++ i ∷ [])
        × (h'.cpu.inst_buffer ≡ j ∷ is)
        × (ev.is_scheduled h'.cpu.tick_event ≡ false)
  unfolding push_instructions
  tick-leaves h r e i j is ready spec ended fin there =
      let (h1, returned, f) = tick_lem ev eq h r ready.valid ready.events ready.idle spec in
      let k = Fetches-Keeps ev eq r h h1 f in
      let h2 = push_instructions r.group h1 in
      let o = Fetches-IsOver ev eq r h h1 e f ended fin in
      let over = execute-IsOver ev eq h2 (record { no_tick = o.no_tick; rest = o.rest }) in
      let (tr, _, _, left) =
        execute_head ev eq h2 i (j ∷ is) (ap (λ b. b ++ r.group) k.inst_buffer ∙ there) in
      (execute h2, returned, tr ∙ ap (λ t. t ++ i ∷ []) k.trace, left, over.no_tick)
