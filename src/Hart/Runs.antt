-- ===== src/Hart/Runs.antt =====
-- What `generateFetchRequest` hands to the processor.
use arch_xplore.Base.{ℕ, ◌≤◌, [], ◌∷◌, ◌++◌, Addr, add64, done, ◌≡◌, ap, ◌∙◌, sym, All}
use arch_xplore.Cpu.Core.{UniqueEvent}
use arch_xplore.Iss.Queue.{EventQueue}
use arch_xplore.Hart.State.{Hart}
use arch_xplore.Hart.Spec.{Fetched, insts, IsEvent, HasLast, fetch-HasLast}
use arch_xplore.Hart.Takes.{fetch-Takes, insts-Takes, IsRun, Takes-IsRun}
use arch_xplore.Hart.Fetch.{generate_fetch_request}
use arch_xplore.Hart.FetchLaws.{generate_fetch_request_lem}

module _ {E Q : Type 0} {V : Q → Type 0} (ev : UniqueEvent E) (eq : EventQueue Q V) where
  open eq use {stream}

  -- While the last event of the thread is still to come, a fetch of `size` bytes from `addr` returns.
  -- Behind the groups that are waiting it puts one group: consecutive instructions from `addr` on,
  -- of which none goes past the end of the fetch (modulo 2 ^ 64). The group and the instructions
  -- that are left to read are, in order, those that there were.
  pub generate_fetch_request-IsRun :
      (addr : Addr) (size : ℕ) (h : Hart E Q)
      → V h.iss.event_queue
      → All IsEvent (stream h.iss.event_queue)
      → HasLast (stream h.iss.event_queue)
      → (r : Fetched) × (h' : Hart E Q) × (generate_fetch_request ev eq addr size h
          ≡ done (record h' {
            iss = record h'.iss { fetch_buffer = h.iss.fetch_buffer ++ r.group ∷ [] };
          }))
        × IsRun addr r.group
        × All (λ i. add64 i.pc i.len ≤ add64 addr size) r.group
        × (insts (stream h.iss.event_queue) ≡ r.group ++ insts (stream h'.iss.event_queue))
  generate_fetch_request-IsRun addr size h v evs ahead =
      let (r, spec) = fetch-HasLast addr (add64 addr size) (stream h.iss.event_queue) ahead in
      let (h', returned, f) = generate_fetch_request_lem ev eq addr size h r v evs spec in
      let t = fetch-Takes addr (add64 addr size) (stream h.iss.event_queue) r spec in
      let (run, within) = Takes-IsRun t in
      (r, h', returned, run, within, insts-Takes t ∙ ap (λ es. r.group ++ insts es) (sym f.left))
