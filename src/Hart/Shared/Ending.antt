-- ===== src/Hart/Shared/Ending.antt =====
-- The simulation of a process can always be brought to its end.
use arch_xplore.Base.{
  ℕ, suc, ◌<◌, List, [], ◌∷◌, ◌++◌, true, false, ◌==◌, All, All-append, append-nil, length,
  replicate, map, get_elem?, get_elem?-lt, some, done, ◌≡◌, ◌≢◌, inl, inr, refl, sym, ap, ◌∙◌,
  subst, arith, ℕ_discrete,
}
use arch_xplore.Cpu.Status.{completed}
use arch_xplore.Cpu.Core.{UniqueEvent}
use arch_xplore.Iss.Queue.{EventQueue}
use arch_xplore.Hart.State.{Hart}
use arch_xplore.Hart.Spec.{insts}
use arch_xplore.Hart.TickLaws.{program}
use arch_xplore.Hart.Running.{IsRunning}
use arch_xplore.Hart.Shared.{ProcessHarts, fire_harts}
use arch_xplore.Hart.Shared.Phases.{Phase}
use arch_xplore.Hart.Shared.Interleaving.{fire_harts_lem}
use arch_xplore.Hart.Shared.Sweep.{done-injective, fire_harts-append, sweep, replicate_small}
use arch_xplore.Hart.Shared.Acts.{
  IsRead, Before, Behind, GoesOn, settle_act, IsOver, finish_act, boot_runs, Behind-apart,
}

all_of :
    {A : Type 0} (P : A → Type 0) (xs : List A)
    → ((j : ℕ) (x : A) → get_elem? xs j ≡ some x → P x)
    → All P xs
all_of P [] h = tt
all_of P (x ∷ xs) h = (h 0 x refl, all_of P xs (λ j y e. h (suc j) y e))

map_same :
    {A B : Type 0} (f g : A → B) (xs : List A)
    → ((j : ℕ) (x : A) → get_elem? xs j ≡ some x → f x ≡ g x)
    → map f xs ≡ map g xs
map_same f g [] h = refl
map_same f g (x ∷ xs) h =
    ap (λ y. y ∷ map f xs) (h 0 x refl) ∙ ap (◌∷◌ (g x)) (map_same f g xs (λ j y e. h (suc j) y e))

module _ {E Q : Type 0} {V : Q → Type 0} (ev : UniqueEvent E) (eq : EventQueue Q V) where
  open eq use {stream}

  read-program :
      (x : Hart E Q)
      → stream x.iss.event_queue ≡ []
      → x.trace ++ x.cpu.inst_buffer ≡ program ev eq x
  unfolding insts
  read-program x left =
      ap (λ b. x.trace ++ b) (sym (append-nil x.cpu.inst_buffer))
      ∙ ap (λ es. x.trace ++ (x.cpu.inst_buffer ++ insts es)) (sym left)

  -- What an order of events makes of the programs, where nothing is left to be read.
  executed :
      (order : List ℕ) (m m' : ProcessHarts E Q)
      → All (λ i. i < length m.harts) order
      → All (Phase ev eq) m.harts
      → fire_harts ev eq order m ≡ done m'
      → ((j : ℕ) (k : Hart E Q) → get_elem? m'.harts j ≡ some k → stream k.iss.event_queue ≡ [])
      → map (λ k. k.trace ++ k.cpu.inst_buffer) m'.harts ≡ map (program ev eq) m.harts
  executed order m m' small phases ran read =
      let (k, ran', _, prog, _, _) = fire_harts_lem ev eq order m small phases in
      let same = done-injective m' k (sym ran ∙ ran') in
      map_same (λ k. k.trace ++ k.cpu.inst_buffer) (program ev eq) m'.harts
        (λ j x there. read-program x (read j x there))
      ∙ ap (λ x. map (program ev eq) x.harts) same
      ∙ prog

  -- What is known of a hart of the process before it is run: it is in a phase and not completed, and
  -- the one at place `b` alone has the number of the boot hart.
  pub record IsDue (b boot j : ℕ) (h : Hart E Q) : Type 0 where
    pub phase : Phase ev eq h
    pub going : h.cpu.status ≢ completed
    pub id : (h.cpu.hart_id == boot) ≡ (j == b)

  due-Before :
      (b boot j : ℕ) (h k : Hart E Q) (m : ProcessHarts E Q)
      → get_elem? m.harts b ≡ some h
      → get_elem? m.harts j ≡ some k
      → IsRunning ev eq h
      → IsDue b boot j k
      → Before ev eq b boot j k
  due-Before b boot j h k m found there run due = elim (ℕ_discrete j b) [
    | yes at_b ↦
        let same : h ≡ k =
          ground (arith, subst (λ i. get_elem? m.harts i ≡ some k) at_b there, found) in
        let equal : (j == b) ≡ true = ground arith in
        inl (at_b, subst (IsRunning ev eq) same run, due.id ∙ equal)
    | no away ↦
        let apart : (j == b) ≡ false = ground arith in
        inr (away, due.phase, due.going, due.id ∙ apart)
  ]

  -- A process goes on. None of its harts is completed: each sleeps with an empty buffer and is to get a
  -- thread that is not over with its first fetch, or is in the middle of a thread whose instructions
  -- lead from one to the next, or sleeps and no event is to come. The hart at place `b` alone is the
  -- boot hart, and it is in the middle of its thread. Then there is an order of the events of the harts
  -- behind which the process is completed and so is each hart, and each hart has executed, with what is
  -- left in its buffer, its whole program, in order: what it had executed before, what was in its
  -- buffer, and the instructions of the events that were to come.
  pub process_ends :
      (b : ℕ) (h : Hart E Q) (m : ProcessHarts E Q)
      → get_elem? m.harts b ≡ some h
      → IsRunning ev eq h
      → m.process.is_completed ≡ false
      → ((j : ℕ) (k : Hart E Q) → get_elem? m.harts j ≡ some k → IsDue b m.process.boot_hart j k)
      → (order : List ℕ) × (m' : ProcessHarts E Q) × (fire_harts ev eq order m ≡ done m')
        × (m'.process.is_completed ≡ true)
        × All (λ k. k.cpu.status ≡ completed) m'.harts
        × (map (λ k. k.trace ++ k.cpu.inst_buffer) m'.harts ≡ map (program ev eq) m.harts)
  process_ends b h m found run goes_on due =
      let boot = m.process.boot_hart in
      let phases : All (Phase ev eq) m.harts =
        all_of (Phase ev eq) m.harts (λ j k there. (due j k there).phase) in
      let before : (j : ℕ) (k : Hart E Q) → get_elem? m.harts j ≡ some k → Before ev eq b boot j k =
        λ j k there. due-Before b boot j h k m found there run (due j k there) in
      let (o1, m1, ran1, small1, s1) =
        sweep ev eq (GoesOn ev eq boot) (Before ev eq b boot) (Behind ev eq b boot)
          (Behind-apart ev eq b boot) (settle_act ev eq b boot) (length m.harts) m (refl, goes_on)
          before (omega arith) in
      let b_small = get_elem?-lt m.harts b h found in
      let (n, m2, ran2, over, len2, read) =
        boot_runs ev eq b boot m1 (subst (λ n. b < n) (sym s1.len) b_small) s1.good.0 (λ j k there.
          s1.brought j k there (subst (λ l. j < l) s1.len (get_elem?-lt m1.harts j k there))) in
      let (o3, m3, ran3, small3, s3) =
        sweep ev eq (λ p. p.is_completed ≡ true) (λ j. IsRead ev eq) (IsOver ev eq) (λ j p k st. st)
          (finish_act ev eq) (length m2.harts) m2 over read (omega arith) in
      let last : (j : ℕ) (k : Hart E Q) → get_elem? m3.harts j ≡ some k → IsOver ev eq j k =
        λ j k there.
          s3.brought j k there (subst (λ l. j < l) s3.len (get_elem?-lt m3.harts j k there)) in
      let order = o1 ++ (replicate n b ++ o3) in
      let ran : fire_harts ev eq order m ≡ done m3 =
        fire_harts-append ev eq o1 (replicate n b ++ o3) m m1 m3 ran1
          (fire_harts-append ev eq (replicate n b) o3 m1 m2 m3 ran2 ran3) in
      let small : All (λ i. i < length m.harts) order =
        All-append (λ i. i < length m.harts) o1 (replicate n b ++ o3) small1
          (All-append (λ i. i < length m.harts) (replicate n b) o3
            (replicate_small n b (length m.harts) b_small)
            (subst (λ l. All (λ i. i < l) o3) (len2 ∙ s1.len) small3)) in
      (
        order,
        m3,
        ran,
        s3.good,
        all_of (λ k. k.cpu.status ≡ completed) m3.harts (λ j k there. (last j k there).0),
        executed order m m3 small phases ran (λ j k there. (last j k there).1),
      )
