-- ===== src/Iss/Plugin/Threads/Links.antt =====
-- The events of a thread, as the processor reads them: its instructions lead from one to the next.
use arch_xplore.Base.{
  ℕ, ◌+◌, ◌<◌, ◌≤◌, ◌^◌, List, [], ◌∷◌, true, map, Addr, EventId, length, add64, ◌≡◌, ◌≢◌, ◌⊎◌, inl,
  inr, ltb, Bool-cases, refl, sym, ap, arith, subst, All,
}
use arch_xplore.Cpu.Insts.{StaticInst}
use arch_xplore.Cpu.Events.{ThreadEvent, insn_event}
use arch_xplore.Hart.Spec.{insts, IsEvent}
use arch_xplore.Hart.Links.{IsFetchable, IsLinked, EndsLast, cons-EndsLast}
use arch_xplore.Hart.Tick.{next_pc_of}
use arch_xplore.Iss.Cache.{InstCacheEntry}
use arch_xplore.Iss.Plugin.{link, next_inst}
use arch_xplore.Iss.Plugin.Redirects.{next_pc_of-link}
use arch_xplore.Iss.Plugin.Threads.{
  Action, executes, accesses, calls, with_access, call_event, thread_events,
}

-- The addresses that the thread goes through.
abbrev pub executed : List Action → List Addr
executed [] = []
executed (executes x ∷ as_) = x.pc ∷ executed as_
executed (accesses vaddr size_shift is_store ∷ as_) = executed as_
executed (calls ∷ as_) = executed as_

-- Every instruction fits into a fetch.
abbrev pub AllFetchable : ℕ → List Action → Type 0
AllFetchable width [] = Unit
AllFetchable width (executes x ∷ as_) =
    ((0 < width) × (x.len ≤ width) × (x.pc + width < 2 ^ 64)) × AllFetchable width as_
AllFetchable width (accesses vaddr size_shift is_store ∷ as_) = AllFetchable width as_
AllFetchable width (calls ∷ as_) = AllFetchable width as_

-- The next instruction does not stand right before `pc`.
abbrev pub StartsAway : Addr → List Action → Type 0
StartsAway pc [] = Unit
StartsAway pc (executes x ∷ as_) = pc ≢ add64 x.pc x.len
StartsAway pc (accesses vaddr size_shift is_store ∷ as_) = StartsAway pc as_
StartsAway pc (calls ∷ as_) = StartsAway pc as_

-- What the processor reads of a thread: events of the right kinds, the last of them marked, and
-- instructions at these addresses that lead from one to the next.
pub record Reads (width : ℕ) (pcs : List Addr) (pc : Addr) (es : List ThreadEvent) : Type 0 where
  pub events : All IsEvent es
  pub ends : EndsLast es
  pub linked : IsLinked width pc (insts es)
  pub addresses : map (λ i. i.pc) (insts es) ≡ pcs

-- An event of another kind in front changes nothing.
call-Reads :
    (width : ℕ) (pcs : List Addr) (pc : Addr) (es : List ThreadEvent) (id : EventId)
    → Reads width pcs pc es
    → Reads width pcs pc (call_event id ∷ es)
unfolding insts
call-Reads width pcs pc es id r = record {
  events = (tt, r.events);
  ends = cons-EndsLast (call_event id) es refl r.ends;
  linked = r.linked;
  addresses = r.addresses;
}

insn-Reads :
    (width : ℕ) (pcs : List Addr) (es : List ThreadEvent) (id : EventId) (i : StaticInst)
    → IsFetchable width i
    → Reads width pcs (next_pc_of i) es
    → Reads width (i.pc ∷ pcs) i.pc (insn_event id i ∷ es)
unfolding insts
insn-Reads width pcs es id i fits r = record {
  events = (tt, r.events);
  ends = cons-EndsLast (insn_event id i) es refl r.ends;
  linked = (refl, fits, r.linked);
  addresses = ap (λ l. i.pc ∷ l) r.addresses;
}

link-redirect :
    (last : StaticInst) (x : InstCacheEntry)
    → (last.br_info.redirect ≡ true) ⊎ (last.pc ≢ add64 x.pc x.len)
    → (link last x).br_info.redirect ≡ true
unfolding link
link-redirect last x h = ground arith

-- Behind the first instruction: the thread is read from its last instruction on.
pub thread_events-Reads :
    (width max_harts : ℕ) (id uid : EventId) (last : StaticInst) (as_ : List Action)
    → 0 < uid
    → uid + length as_ < 2 ^ 64
    → IsFetchable width last
    → AllFetchable width as_
    → (last.br_info.redirect ≡ true) ⊎ StartsAway last.pc as_
    → Reads width (last.pc ∷ executed as_) last.pc (thread_events max_harts id uid last as_)
unfolding thread_events insts link next_inst
thread_events-Reads width max_harts id uid last [] some_before room fits all away = record {
  events = (tt, tt);
  ends = (refl, (last, refl));
  linked = (refl, fits, tt);
  addresses = refl;
}
thread_events-Reads width max_harts id uid last (accesses vaddr size_shift is_store ∷ as_)
      some_before room fits all away =
    thread_events-Reads width max_harts id uid (with_access last vaddr size_shift is_store) as_
      some_before (omega arith) fits all away
thread_events-Reads width max_harts id uid last (calls ∷ as_) some_before room fits all away =
    elim (Bool-cases (ltb 1 max_harts)) [
      | inl many ↦ rw many (
          call-Reads width (last.pc ∷ executed as_) last.pc
            (thread_events max_harts (add64 id 1) uid last as_) id
            (thread_events-Reads width max_harts (add64 id 1) uid last as_ some_before (omega arith)
              fits all away))
      | inr one ↦ rw one (
          thread_events-Reads width max_harts id uid last as_ some_before (omega arith) fits all
            away)
    ]
thread_events-Reads width max_harts id uid last (executes x ∷ as_) some_before room fits all away =
    let l = link last x in
    let next = next_inst l uid x in
    let rest = thread_events max_harts (add64 id 1) (add64 uid 1) next as_ in
    let deeper : Reads width (x.pc ∷ executed as_) x.pc rest =
      thread_events-Reads width max_harts (add64 id 1) (add64 uid 1) next as_ (omega arith)
        (omega arith) all.0 all.1 (inl (link-redirect last x away)) in
    let here : Reads width (x.pc ∷ executed as_) (next_pc_of l) rest =
      subst (λ pc. Reads width (x.pc ∷ executed as_) pc rest) (sym (next_pc_of-link last x away))
        deeper in
    subst (Reads width (last.pc ∷ x.pc ∷ executed as_) last.pc)
      (later uid id last x as_ some_before)
      (insn-Reads width (x.pc ∷ executed as_) rest id l fits here)
  where
    later :
        (uid id : EventId) (last : StaticInst) (x : InstCacheEntry) (as_ : List Action)
        → 0 < uid
        → insn_event id (link last x)
            ∷ thread_events max_harts (add64 id 1) (add64 uid 1) (next_inst (link last x) uid x) as_
          ≡ thread_events max_harts id uid last (executes x ∷ as_)
    later uid id last x as_ pos = ground arith
