-- ===== src/Sys/CleanUp.antt =====
-- The processes are numbered as they are registered, and cleaning up sends the signal 0 to those that still
-- run.
use arch_xplore.Base.{
  ℕ, suc, ◌+◌, ◌≤◌, ◌<◌, List, [], ◌∷◌, ◌++◌, Bool, true, false, not, some, length, get_elem?, set,
  ◌==◌, if◌then◌else◌, done, throws, out_of_range, arith, ◌≡◌, inl, inr, refl, sym, ap, ◌∙◌,
  Bool-cases, length-set, get_elem?-set_self, get_elem?-set_ne, get_elem?-some, ℕ_discrete,
}
use mathlib.Core.Option
use arch_xplore.Sys.Processes.{Process}
use arch_xplore.Sys.Boot.{QemuSystem, new_process, kill_running, clean_up}

-- The numbers of the processes are n, n + 1, ….
abbrev pub IsNumbered : ℕ → List Process → Type 0
IsNumbered n [] = Unit
IsNumbered n (p ∷ ps) = (p.pid ≡ n) × IsNumbered (suc n) ps

-- Whether the process with the number `j` is still running, if they are numbered from `n` on.
unfoldable pub is_running_at : ℕ → List Process → ℕ → Bool
is_running_at n [] j = false
is_running_at n (p ∷ ps) j = if n == j then not p.is_completed else is_running_at (suc n) ps j

IsNumbered-append :
    (n k : ℕ) (ps : List Process) (p : Process)
    → IsNumbered n ps
    → p.pid ≡ k
    → k ≡ n + length ps
    → IsNumbered n (ps ++ p ∷ [])
IsNumbered-append n k [] p h e f = (omega arith, tt)
IsNumbered-append n k (q ∷ ps) p h e f = (h.0, IsNumbered-append (suc n) k ps p h.1 e (omega arith))

-- Registering a process keeps the processes numbered from 0 on.
pub new_process-IsNumbered :
    {E Q H : Type 0} (p : Process) (s : QemuSystem E Q H)
    → IsNumbered 0 s.processes
    → IsNumbered 0 (new_process p s).processes
unfolding new_process
new_process-IsNumbered p s h =
    IsNumbered-append 0 (length s.processes) s.processes _ h refl (omega arith)

not_running_below : (n j : ℕ) (ps : List Process) → j < n → is_running_at n ps j ≡ false
unfolding is_running_at
not_running_below n j [] h = refl
not_running_below n j (p ∷ ps) h = ground (arith, not_running_below (suc n) j ps (omega arith))

module _ {H : Type 0} (kill : ℕ → H → H) where
  -- The handles of the running processes are sent the signal 0 once, the others are left alone.
  abbrev pub Signalled : ℕ → List Process → List H → List H → Type 0
  Signalled n ps hs hs' =
      (j : ℕ)
      → get_elem? hs' j
        ≡ (if is_running_at n ps j then Option.map (kill 0) (get_elem? hs j) else get_elem? hs j)

  kill_round :
      (p : Process) (ps : List Process) (hs : List H) (h : H)
      → p.is_completed ≡ false
      → get_elem? hs p.pid ≡ some h
      → kill_running kill (p ∷ ps) hs ≡ kill_running kill ps (set hs p.pid (kill 0 h))
  unfolding kill_running
  kill_round p ps hs h runs there = rw (runs, kill_running, there)

  kill_next :
      (n j : ℕ) (p : Process) (ps : List Process) (hs hs' : List H) (h : H)
      → p.is_completed ≡ false
      → n < length hs
      → get_elem? hs n ≡ some h
      → Signalled (suc n) ps (set hs n (kill 0 h)) hs'
      → get_elem? hs' j ≡ (
          if is_running_at n (p ∷ ps) j
          then Option.map (kill 0) (get_elem? hs j)
          else get_elem? hs j)
  unfolding is_running_at
  kill_next n j p ps hs hs' h runs within there sent = elim (ℕ_discrete j n) [
    | yes same ↦ rw same (
        ground (
          arith,
          sent n,
          there,
          not_running_below (suc n) n ps,
          get_elem?-set_self hs n (kill 0 h) within,
        ))
    | no other ↦ ground (arith, sent j, get_elem?-set_ne hs n j (kill 0 h) (λ e. other (sym e)))
  ]

  kill_running_lem :
      (n : ℕ) (ps : List Process) (hs : List H)
      → IsNumbered n ps
      → n + length ps ≤ length hs
      → (hs' : List H) × (kill_running kill ps hs ≡ done hs') × Signalled n ps hs hs'
  unfolding kill_running is_running_at
  kill_running_lem n [] hs num room = (hs, refl, λ j. refl)
  kill_running_lem n (p ∷ ps) hs num room = elim (Bool-cases p.is_completed) [
    | inl over ↦
        let (hs', rest, sent) = kill_running_lem (suc n) ps hs num.1 (omega arith) in
        (
          hs',
          rw (over, kill_running) rest,
          λ j. ground (arith, sent j, not_running_below (suc n) n ps),
        )
    | inr runs ↦
        let (h, there) = get_elem?-some hs n (omega arith) in
        let (hs', rest, sent) =
          kill_running_lem (suc n) ps (set hs n (kill 0 h)) num.1
            (omega (arith, length-set hs n (kill 0 h))) in
        (
          hs',
          kill_round p ps hs h runs (ap (get_elem? hs) num.0 ∙ there)
              ∙ ap (λ k. kill_running kill ps (set hs k (kill 0 h))) num.0
              ∙ rest,
          λ j. kill_next n j p ps hs hs' h runs (omega arith) there sent,
        )
  ]

  -- Before booting no process has a subprocess, and looking for one of a running process throws.
  kill_running_early :
      (n : ℕ) (ps : List Process) (j : ℕ)
      → is_running_at n ps j ≡ true
      → kill_running kill ps [] ≡ throws out_of_range
  unfolding kill_running is_running_at
  kill_running_early n [] j h = absurd (ground arith)
  kill_running_early n (p ∷ ps) j h = ground (arith, kill_running_early (suc n) ps j)

module _ {E Q H : Type 0} (kill : ℕ → H → H) where
  -- If the processes are numbered and each has a subprocess, cleaning up returns; it sends the signal 0
  -- to the subprocesses of the processes that are not completed, once to each, and to no other.
  pub clean_up_lem :
      (s : QemuSystem E Q H)
      → IsNumbered 0 s.processes
      → length s.processes ≤ length s.subprocesses
      → (s' : QemuSystem E Q H) × (clean_up kill s ≡ done s')
        × (s'.processes ≡ s.processes)
        × Signalled kill 0 s.processes s.subprocesses s'.subprocesses
  unfolding clean_up
  clean_up_lem s num booted =
      let (hs, returned, sent) =
        kill_running_lem kill 0 s.processes s.subprocesses num (omega arith) in
      (record s { subprocesses = hs }, rw returned, refl, sent)

  -- While there are no subprocesses, cleaning up throws if a process is registered that is not
  -- completed.
  pub clean_up_early :
      (s : QemuSystem E Q H) (j : ℕ)
      → s.subprocesses ≡ []
      → is_running_at 0 s.processes j ≡ true
      → clean_up kill s ≡ throws out_of_range
  unfolding clean_up
  clean_up_early s j unbooted runs = rw (unbooted, kill_running_early kill 0 s.processes j runs)
