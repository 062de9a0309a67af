-- ===== src/Iss/Plugin/Tracing.antt =====
-- A run of a virtual processor: the events are the executed instructions, in order, each linked to
-- the next.
use arch_xplore.Base.{
  ℕ, ◌+◌, ◌<◌, ◌^◌, List, [], ◌∷◌, ◌++◌, map, EventId, length, add64, append_assoc, Outcome, done,
  ◌>>=◌, ◌≡◌, refl, sym, ap, ◌∙◌, arith, append-nil,
}
use arch_xplore.Cpu.Insts.{StaticInst}
use arch_xplore.Cpu.Events.{ThreadEvent, insn_event}
use arch_xplore.Hart.Spec.{insts}
use arch_xplore.Iss.Ports.{PublisherPort}
use arch_xplore.Iss.Cache.{InstCacheEntry}
use arch_xplore.Iss.Plugin.{Vcpu, execute_entry, link, next_inst}
use arch_xplore.Iss.Plugin.Publishing.{IsLive, events, execute_entry_first, execute_entry_next}

-- The events of the instructions `xs` behind the instruction `last`.
produced : EventId → EventId → StaticInst → List InstCacheEntry → List ThreadEvent
produced id uid last [] = []
produced id uid last (x ∷ xs) =
    insn_event id (link last x)
    ∷ produced (add64 id 1) (add64 uid 1) (next_inst (link last x) uid x) xs

-- The last instruction behind them.
final : EventId → StaticInst → List InstCacheEntry → StaticInst
final uid last [] = last
final uid last (x ∷ xs) = final (add64 uid 1) (next_inst (link last x) uid x) xs

pcs-produced :
    (id uid : EventId) (last : StaticInst) (xs : List InstCacheEntry)
    → map (λ i. i.pc) (insts (produced id uid last xs)) ++ (final uid last xs).pc ∷ []
      ≡ last.pc ∷ map (λ x. x.pc) xs
unfolding produced final insts link next_inst
pcs-produced id uid last [] = refl
pcs-produced id uid last (x ∷ xs) =
    ap (◌∷◌ last.pc) (pcs-produced (add64 id 1) (add64 uid 1) (next_inst (link last x) uid x) xs)

targets-produced :
    (id uid : EventId) (last : StaticInst) (xs : List InstCacheEntry)
    → map (λ i. i.br_info.target_pc) (insts (produced id uid last xs)) ≡ map (λ x. x.pc) xs
unfolding produced insts link
targets-produced id uid last [] = refl
targets-produced id uid last (x ∷ xs) =
    ap (◌∷◌ x.pc) (targets-produced (add64 id 1) (add64 uid 1) (next_inst (link last x) uid x) xs)

-- Consecutive numbers, as long as the list.
abbrev pub count_from : ℕ → List InstCacheEntry → List ℕ
count_from n [] = []
count_from n (x ∷ xs) = n ∷ count_from (n + 1) xs

ids-produced :
    (id uid : EventId) (last : StaticInst) (xs : List InstCacheEntry)
    → id + length xs < 2 ^ 64
    → map (λ e. e.event_id) (produced id uid last xs) ≡ count_from id xs
unfolding produced
ids-produced id uid last [] h = refl
ids-produced id uid last (x ∷ xs) h =
    let e : add64 id 1 ≡ id + 1 = omega arith in
    ap (◌∷◌ id) (
      ids-produced (add64 id 1) (add64 uid 1) (next_inst (link last x) uid x) xs (omega arith)
      ∙ ap (λ n. count_from n xs) e)

module _ {P : Type 0} (api : PublisherPort P) where
  -- The callback, once for each of a list of instructions.
  pub execute_entries : List InstCacheEntry → Vcpu P → Outcome (Vcpu P)
  execute_entries [] v = done v
  execute_entries (x ∷ xs) v = do v' ← execute_entry api x v; execute_entries xs v'

  execute_entries_later :
      (xs : List InstCacheEntry) (v : Vcpu P)
      → IsLive api v
      → 0 < v.inst_counter
      → v.inst_counter + length xs < 2 ^ 64
      → (v' : Vcpu P) × (execute_entries xs v ≡ done v')
        × IsLive api v'
        × (events api v' ≡ events api v ++ produced v.event_counter v.inst_counter v.last_inst xs)
        × (v'.last_inst ≡ final v.inst_counter v.last_inst xs)
  unfolding execute_entries produced final
  execute_entries_later [] v live pos room = (v, refl, live, sym (append-nil (events api v)), refl)
  execute_entries_later (x ∷ xs) v live pos room =
      let (w, returned, live', ev, n, id, l) = execute_entry_next api x v live (ground arith) in
      let (v', rest, live_end, ev', l') =
        execute_entries_later xs w live' (ground arith) (ground arith) in
      (
        v',
        rw returned rest,
        live_end,
        ev'
            ∙ rw (ev, id, n, l)
                (append_assoc (events api v) (insn_event v.event_counter (link v.last_inst x) ∷ [])
                  _),
        l' ∙ rw (n, l),
      )

  -- A fresh virtual processor that executes `x` and then `xs` publishes one event for each but the
  -- last, in order. Their addresses, and that of the last instruction, which is kept back, are those
  -- executed; each event's target is the address executed next; and the events are numbered 0, 1, ….
  pub execute_entries_lem :
      (x : InstCacheEntry) (xs : List InstCacheEntry) (v : Vcpu P)
      → IsLive api v
      → events api v ≡ []
      → v.inst_counter ≡ 0
      → v.event_counter ≡ 0
      → length (x ∷ xs) < 2 ^ 64
      → (v' : Vcpu P) × (execute_entries (x ∷ xs) v ≡ done v')
        × IsLive api v'
        × (map (λ i. i.pc) (insts (events api v')) ++ v'.last_inst.pc ∷ []
            ≡ map (λ y. y.pc) (x ∷ xs))
        × (map (λ i. i.br_info.target_pc) (insts (events api v')) ≡ map (λ y. y.pc) xs)
        × (map (λ e. e.event_id) (events api v') ≡ count_from 0 xs)
  unfolding execute_entries next_inst
  execute_entries_lem x xs v live none_yet first zero_events room =
      let w = record v {
        inst_counter = add64 v.inst_counter 1;
        last_inst = next_inst v.last_inst v.inst_counter x;
      } in
      let one : w.inst_counter ≡ 1 = omega arith in
      let (v', returned, live', ev, l) =
        execute_entries_later xs w live (omega arith) (omega arith) in
      let only : events api v' ≡ produced v.event_counter w.inst_counter w.last_inst xs =
        ev ∙ ap (λ es. es ++ produced v.event_counter w.inst_counter w.last_inst xs) none_yet in
      (
        v',
        ap (λ m. m >>= execute_entries xs) (execute_entry_first api x v first) ∙ returned,
        live',
        rw (only, l) (pcs-produced v.event_counter w.inst_counter w.last_inst xs),
        rw only (targets-produced v.event_counter w.inst_counter w.last_inst xs),
        rw only (
            ids-produced v.event_counter w.inst_counter w.last_inst xs (omega arith)
            ∙ ap (λ n. count_from n xs) zero_events),
      )
