-- ===== src/Hart/Shared/Interleaving.antt =====
-- The harts of a process, in every order of their events.
use arch_xplore.Base.{
  ℕ, zero, suc, ◌<◌, List, [], ◌∷◌, All, length, length-set, get_elem?, get_elem?-some, set, map,
  some, done, ◌>>=◌, ◌≡◌, refl, sym, ap, ◌∙◌, subst, arith,
}
use arch_xplore.Cpu.Insts.{StaticInst}
use arch_xplore.Cpu.Core.{UniqueEvent}
use arch_xplore.Iss.Queue.{EventQueue}
use arch_xplore.Hart.TickLaws.{program}
use arch_xplore.Hart.Shared.{ProcessHarts, share, fire_hart, fire_harts}
use arch_xplore.Hart.Shared.Phases.{Phase, share-Phase}
use arch_xplore.Hart.Shared.Steps.{fire-Fires}

module _ {A : Type 0} where
  pub All-get :
      (P : A → Type 0) (xs : List A) (i : ℕ) (x : A) → All P xs → get_elem? xs i ≡ some x → P x
  All-get P [] i x h e = absurd (ground arith)
  All-get P (y ∷ xs) zero x (p, h) e = let same : y ≡ x = ground arith in subst P same p
  All-get P (y ∷ xs) (suc i) x (p, h) e = All-get P xs i x h e

  All-set : (P : A → Type 0) (xs : List A) (i : ℕ) (x : A) → All P xs → P x → All P (set xs i x)
  All-set P [] i x h p = tt
  All-set P (y ∷ xs) zero x (q, h) p = (p, h)
  All-set P (y ∷ xs) (suc i) x (q, h) p = (q, All-set P xs i x h p)

  map-set_same :
      {B : Type 0} (f : A → B) (xs : List A) (i : ℕ) (x y : A)
      → get_elem? xs i ≡ some x
      → f y ≡ f x
      → map f (set xs i y) ≡ map f xs
  map-set_same f [] i x y e same = refl
  map-set_same f (z ∷ xs) zero x y e same =
      let here : z ≡ x = ground arith in ap (λ b. b ∷ map f xs) (same ∙ ap f (sym here))
  map-set_same f (z ∷ xs) (suc i) x y e same = ap (◌∷◌ (f z)) (map-set_same f xs i x y e same)

module _ {E Q : Type 0} {V : Q → Type 0} (ev : UniqueEvent E) (eq : EventQueue Q V) where
  -- The programs of the harts: what each has executed, has in its buffer, and is to read.
  abbrev pub programs : ProcessHarts E Q → List (List StaticInst)
  programs m = map (program ev eq) m.harts

  abbrev Goes : ProcessHarts E Q → ProcessHarts E Q → Type 0
  Goes m m' =
      All (Phase ev eq) m'.harts
      × (programs m' ≡ programs m)
      × (m'.process.boot_hart ≡ m.process.boot_hart)
      × (length m'.harts ≡ length m.harts)

  fire_hart-Goes :
      (i : ℕ) (m : ProcessHarts E Q)
      → i < length m.harts
      → All (Phase ev eq) m.harts
      → (m' : ProcessHarts E Q) × (fire_hart ev eq i m ≡ done m') × Goes m m'
  unfolding fire_hart
  fire_hart-Goes i m small phases =
      let (h, found) = get_elem?-some m.harts i small in
      let phase = share-Phase ev eq m.process h (All-get (Phase ev eq) m.harts i h phases found) in
      let (h', fired, (phase', prog, who)) = fire-Fires ev eq (share m.process h) phase in
      (
        record { process = h'.process; harts = set m.harts i h' },
        rw (found, fired),
        (
          All-set (Phase ev eq) m.harts i h' phases phase',
          map-set_same (program ev eq) m.harts i h h' found prog,
          who.boot,
          length-set m.harts i h',
        ),
      )

  still_small :
      (n n' : ℕ) (order : List ℕ) → n' ≡ n → All (λ i. i < n) order → All (λ i. i < n') order
  still_small n n' order same small = subst (λ k. All (λ i. i < k) order) (sym same) small

  -- In whatever order the harts of a process take out their next events, no handler throws or waits
  -- for ever, each hart stays in a phase (before a thread, in it, behind it, or completed), and the
  -- instructions that it has executed, has in its buffer and has still to read are those that they
  -- were, in order. Each hart is to be in a phase at first: it sleeps, its buffer is empty and a thread
  -- that is not over with its first fetch is to come; or it is in the middle of a thread whose
  -- instructions lead from one to the next; or it sleeps and no event is to come; or it is completed.
  pub fire_harts_lem :
      (order : List ℕ) (m : ProcessHarts E Q)
      → All (λ i. i < length m.harts) order
      → All (Phase ev eq) m.harts
      → (m' : ProcessHarts E Q) × (fire_harts ev eq order m ≡ done m')
        × All (Phase ev eq) m'.harts
        × (map (program ev eq) m'.harts ≡ map (program ev eq) m.harts)
        × (m'.process.boot_hart ≡ m.process.boot_hart)
        × (length m'.harts ≡ length m.harts)
  unfolding fire_harts
  fire_harts_lem [] m small phases = (m, refl, phases, refl, refl, refl)
  fire_harts_lem (i ∷ order) m (first, small) phases =
      let (m1, fired, (phases1, prog1, boot1, len1)) = fire_hart-Goes i m first phases in
      let (m2, ran, phases2, prog2, boot2, len2) =
        fire_harts_lem order m1 (still_small (length m.harts) (length m1.harts) order len1 small)
          phases1 in
      (
        m2,
        ap (λ o. o >>= fire_harts ev eq order) fired ∙ ran,
        phases2,
        prog2 ∙ prog1,
        boot2 ∙ boot1,
        len2 ∙ len1,
      )
