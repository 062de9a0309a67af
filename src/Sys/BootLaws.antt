-- ===== src/Sys/BootLaws.antt =====
-- Booting gives every process its own harts.
use arch_xplore.Base.{
  ℕ, zero, suc, ◌+◌, ◌^◌, ◌≤◌, ◌<◌, List, [], ◌∷◌, ◌++◌, true, false, ◌&&◌, Option, some, none,
  Text, length, get_elem?, set, ltb, leb, to_u16, if◌then◌else◌, Outcome, done, ◌>>=◌, arith, ◌≡◌,
  inl, inr, refl, sym, ap, ◌∙◌, subst, Bool-cases, length-set, get_elem?-set_self, get_elem?-set_ne,
  get_elem?-some, length-append, ℕ_discrete,
}
use mathlib.Core.Option
use arch_xplore.Cpu.Core.{UniqueEvent}
use arch_xplore.Hart.State.{Hart}
use arch_xplore.Hart.Tick.{set_process}
use arch_xplore.Iss.Queue.{EventQueue}
use arch_xplore.Sys.Processes.{Process}
use arch_xplore.Sys.Boot.{
  QemuSystem, get_cpu_ptr, boot_harts, new_qemu_process, boot_processes, boot_system, get_cpu_count,
  command_vec,
}

-- The harts that a list of processes asks for.
abbrev pub harts_of : List Process → ℕ
harts_of [] = 0
harts_of (p ∷ ps) = p.max_harts + harts_of ps

-- The processes behind one another, from hart `u` on.
unfoldable pub place : ℕ → List Process → List Process
place u [] = []
place u (p ∷ ps) = record p { boot_hart = u } ∷ place (u + p.max_harts) ps

-- The process that hart `j` runs, if the processes are placed from hart `u` on.
unfoldable pub owner : ℕ → List Process → ℕ → Option Process
owner u [] j = none
owner u (p ∷ ps) j =
    if leb u j && ltb j (u + p.max_harts)
    then some (record p { boot_hart = u })
    else owner (u + p.max_harts) ps j

owner_below : (u : ℕ) (ps : List Process) (j : ℕ) → j < u → owner u ps j ≡ none
unfolding owner
owner_below u [] j below = refl
owner_below u (p ∷ ps) j below =
    let rest = owner_below (u + p.max_harts) ps j (omega arith) in
    let no_hit : (leb u j && ltb j (u + p.max_harts)) ≡ false = ground arith in rw no_hit rest

module _ {E Q H : Type 0} {V : Q → Type 0} (ev : UniqueEvent E) (eq : EventQueue Q V)
    (popen : List Text → Outcome H)
    (starts : (args : List Text) → (h : H) × (popen args ≡ done h)) where
  unfoldable pub assign : Option Process → Hart E Q → Hart E Q
  assign none h = h
  assign (some p) h = set_process ev eq p h

  -- The harts from `lo` up to `hi` are given to `p`, the others are left as they are.
  abbrev Given : Process → ℕ → ℕ → List (Hart E Q) → List (Hart E Q) → Type 0
  Given p lo hi cpus cpus' =
      (j : ℕ)
      → get_elem? cpus' j ≡ (
          if leb lo j && ltb j hi
          then Option.map (set_process ev eq p) (get_elem? cpus j)
          else get_elem? cpus j)

  get_cpu_ptr_lem :
      (s : QemuSystem E Q H) (i : ℕ)
      → i < length s.cpus
      → (h : Hart E Q) × (get_cpu_ptr i s ≡ done h) × (get_elem? s.cpus i ≡ some h)
  unfolding get_cpu_ptr
  get_cpu_ptr_lem s i lt =
      let (h, e) = get_elem?-some s.cpus i lt in
      let below : ltb i (length s.cpus) ≡ true = ground arith in (h, rw (below, e), e)

  -- One hart more, at the front of the range.
  give_next :
      (p : Process) (lo hi : ℕ) (cpus cs : List (Hart E Q)) (h : Hart E Q)
      → lo < hi
      → lo < length cpus
      → get_elem? cpus lo ≡ some h
      → Given p (lo + 1) hi (set cpus lo (set_process ev eq p h)) cs
      → Given p lo hi cpus cs
  give_next p lo hi cpus cs h lt within there given j = elim (ℕ_discrete j lo) [
    | yes same ↦
        rw same (
          ground
            (arith, given lo, there, get_elem?-set_self cpus lo (set_process ev eq p h) within))
    | no other ↦
        ground
          (arith, given j, get_elem?-set_ne cpus lo j (set_process ev eq p h) (λ e. other (sym e)))
  ]

  boot_round :
      (fuel o : ℕ) (p : Process) (s : QemuSystem E Q H) (h : Hart E Q)
      → ltb o p.max_harts ≡ true
      → get_cpu_ptr (to_u16 (p.boot_hart + o)) s ≡ done h
      → boot_harts ev eq popen (suc fuel) o p s
        ≡ boot_harts ev eq popen fuel
            (to_u16 (o + 1))
            p
            (record s { cpus = set s.cpus (to_u16 (p.boot_hart + o)) (set_process ev eq p h) })
  unfolding boot_harts
  boot_round fuel o p s h more ptr = rw (more, ptr)

  boot_harts_lem :
      (fuel o : ℕ) (p : Process) (s : QemuSystem E Q H)
      → o ≤ p.max_harts
      → p.max_harts < fuel + o
      → p.boot_hart + p.max_harts ≤ length s.cpus
      → length s.cpus < 2 ^ 16
      → (cs : List (Hart E Q)) × (boot_harts ev eq popen fuel o p s ≡ done (record s { cpus = cs }))
        × (length cs ≡ length s.cpus)
        × Given p (p.boot_hart + o) (p.boot_hart + p.max_harts) s.cpus cs
  unfolding boot_harts
  boot_harts_lem zero o p s le enough fits small = absurd (omega arith)
  boot_harts_lem (suc fuel) o p s le enough fits small = elim (Bool-cases (ltb o p.max_harts)) [
    | inl more ↦
        let i = p.boot_hart + o in
        let fits16 : to_u16 i ≡ i = ground arith in
        let next16 : to_u16 (o + 1) ≡ o + 1 = ground arith in
        let (h, ptr, there) = get_cpu_ptr_lem s i (ground arith) in
        let s1 = record s { cpus = set s.cpus i (set_process ev eq p h) } in
        let len1 = length-set s.cpus i (set_process ev eq p h) in
        let (cs, returned, len, given) =
          boot_harts_lem fuel (o + 1) p s1 (ground arith) (omega arith) (omega (arith, len1))
            (omega (arith, len1)) in
        let given1 : Given p (i + 1) (p.boot_hart + p.max_harts) s1.cpus cs =
          subst (λ n. Given p n (p.boot_hart + p.max_harts) s1.cpus cs) (omega arith) given in
        (
          cs,
          boot_round fuel o p s h more (ap (λ k. get_cpu_ptr k s) fits16 ∙ ptr)
              ∙ ap
                  (λ k.
                    boot_harts ev eq popen fuel (to_u16 (o + 1)) p
                      (record s { cpus = set s.cpus k (set_process ev eq p h) }))
                  fits16
              ∙ ap (λ k. boot_harts ev eq popen fuel k p s1) next16
              ∙ returned,
          len ∙ len1,
          give_next p i (p.boot_hart + p.max_harts) s.cpus cs h (ground arith) (ground arith) there
              given1,
        )
    | inr over ↦ (s.cpus, rw over, refl, λ j. ground arith)
  ]

  -- A new process gets a subprocess of its own and its harts.
  pub new_qemu_process_lem :
      (p : Process) (s : QemuSystem E Q H)
      → p.boot_hart + p.max_harts ≤ length s.cpus
      → length s.cpus < 2 ^ 16
      → (cs : List (Hart E Q)) × (hs : List H) × (new_qemu_process ev eq popen p s
          ≡ done (record s { cpus = cs; subprocesses = hs }))
        × (length cs ≡ length s.cpus)
        × (length hs ≡ length s.subprocesses + 1)
        × Given p p.boot_hart (p.boot_hart + p.max_harts) s.cpus cs
  unfolding new_qemu_process
  new_qemu_process_lem p s fits small =
      let (h, started) = starts (command_vec p s) in
      let hs = s.subprocesses ++ h ∷ [] in
      let (cs, returned, len, given) =
        boot_harts_lem (suc (2 ^ 16)) 0 p (record s { subprocesses = hs }) (omega arith)
          (omega arith) fits small in
      (
        cs,
        hs,
        ap
              (λ o. o >>= (λ k.
                boot_harts ev eq popen (suc (2 ^ 16)) 0 p
                  (record s { subprocesses = s.subprocesses ++ k ∷ [] })))
              started
            ∙ returned,
        len,
        length-append s.subprocesses (h ∷ []),
        subst (λ n. Given p n (p.boot_hart + p.max_harts) s.cpus cs) (omega arith) given,
      )

  -- Each hart is given the process that owns it.
  abbrev pub Owned : ℕ → List Process → List (Hart E Q) → List (Hart E Q) → Type 0
  Owned u ps cpus cpus' =
      (j : ℕ) → get_elem? cpus' j ≡ Option.map (assign (owner u ps j)) (get_elem? cpus j)

  assign-none : (o : Option (Hart E Q)) → o ≡ Option.map (assign none) o
  unfolding assign
  assign-none none = refl
  assign-none (some h) = refl

  own_next :
      (u j : ℕ) (p : Process) (ps : List Process) (cpus c1 cs : List (Hart E Q))
      → Given (record p { boot_hart = u }) u (u + p.max_harts) cpus c1
      → Owned (u + p.max_harts) ps c1 cs
      → get_elem? cs j ≡ Option.map (assign (owner u (p ∷ ps) j)) (get_elem? cpus j)
  unfolding owner assign
  own_next u j p ps cpus c1 cs given owned =
      elim (Bool-cases (leb u j && ltb j (u + p.max_harts))) [
        | inl mine ↦
            let behind = owner_below (u + p.max_harts) ps j (ground arith) in
            owned j
            ∙ ap (λ o. Option.map (assign o) (get_elem? c1 j)) behind
            ∙ sym (assign-none (get_elem? c1 j))
            ∙ given j
            ∙ rw (mine, owner) (mapped (record p { boot_hart = u }) (get_elem? cpus j))
        | inr other ↦
            rw (other, owner)
              (owned j
                ∙ ap (Option.map (assign (owner (u + p.max_harts) ps j))) (given j ∙ rw other))
      ]
    where
      mapped :
          (q : Process) (o : Option (Hart E Q))
          → Option.map (set_process ev eq q) o ≡ Option.map (assign (some q)) o
      mapped q o = refl

  boot_step :
      (u : ℕ) (p : Process) (ps qs : List Process) (s s1 s2 : QemuSystem E Q H)
      → leb (to_u16 (u + p.max_harts)) (length s.cpus) ≡ true
      → new_qemu_process ev eq popen (record p { boot_hart = u }) s ≡ done s1
      → boot_processes ev eq popen (to_u16 (u + p.max_harts)) ps s1 ≡ done (qs, s2)
      → boot_processes ev eq popen u (p ∷ ps) s ≡ done (record p { boot_hart = u } ∷ qs, s2)
  unfolding boot_processes get_cpu_count
  boot_step u p ps qs s s1 s2 room first rest = rw (room, first, rest)

  boot_processes_lem :
      (u : ℕ) (ps : List Process) (s : QemuSystem E Q H)
      → u + harts_of ps ≤ length s.cpus
      → length s.cpus < 2 ^ 16
      → (cs : List (Hart E Q)) × (hs : List H) × (boot_processes ev eq popen u ps s
          ≡ done (place u ps, record s { cpus = cs; subprocesses = hs }))
        × (length hs ≡ length s.subprocesses + length ps)
        × Owned u ps s.cpus cs
  unfolding boot_processes place owner
  boot_processes_lem u [] s fits small =
      (s.cpus, s.subprocesses, refl, omega arith, λ j. assign-none (get_elem? s.cpus j))
  boot_processes_lem u (p ∷ ps) s fits small =
      let p' = record p { boot_hart = u } in
      let used : to_u16 (u + p.max_harts) ≡ u + p.max_harts = ground arith in
      let room : leb (u + p.max_harts) (length s.cpus) ≡ true = ground arith in
      let (c1, h1, first, len, count1, given) = new_qemu_process_lem p' s (omega arith) small in
      let (cs, hs, rest, count, owned) =
        boot_processes_lem (u + p.max_harts) ps (record s { cpus = c1; subprocesses = h1 })
          (omega arith) (omega arith) in
      (
        cs,
        hs,
        boot_step u p ps (place (u + p.max_harts) ps) s _ _
            (ap (λ k. leb k (length s.cpus)) used ∙ room) first
            (ap (λ k. boot_processes ev eq popen k ps (record s { cpus = c1; subprocesses = h1 }))
                used
              ∙ rest),
        omega arith,
        λ j. own_next u j p ps s.cpus c1 cs given owned,
      )

  -- If every emulator starts, and the processes together ask for no more harts than there are, booting
  -- returns. The processes
  -- stand behind one another from hart 0 on; each has a new subprocess; and every hart is given the
  -- process that owns it, and nothing else is changed of the harts.
  pub boot_system_lem :
      (s : QemuSystem E Q H)
      → harts_of s.processes ≤ length s.cpus
      → length s.cpus < 2 ^ 16
      → (s' : QemuSystem E Q H) × (boot_system ev eq popen s ≡ done s')
        × (s'.processes ≡ place 0 s.processes)
        × (length s'.subprocesses ≡ length s.subprocesses + length s.processes)
        × Owned 0 s.processes s.cpus s'.cpus
  unfolding boot_system
  boot_system_lem s fits small =
      let (cs, hs, returned, count, owned) =
        boot_processes_lem 0 s.processes s (omega arith) small in
      (
        record s { processes = place 0 s.processes; cpus = cs; subprocesses = hs },
        rw returned,
        refl,
        count,
        owned,
      )
