-- ===== src/Hart/Shared/Sweep.antt =====
-- One hart of a process runs while the others wait, and then the next.
use arch_xplore.Base.{
  ℕ, zero, suc, ◌<◌, ◌≤◌, List, [], ◌∷◌, ◌++◌, All, All-append, length, length-set, replicate,
  get_elem?, get_elem?-some, get_elem?-set_self, get_elem?-set_ne, get_elem?-lt, set, some, done,
  ◌>>=◌, >>=-eq-done, ◌≡◌, ◌≢◌, refl, sym, ap, ◌∙◌, subst, arith, ℕ_discrete,
}
use arch_xplore.Cpu.Core.{UniqueEvent}
use arch_xplore.Sys.Processes.{Process}
use arch_xplore.Iss.Queue.{EventQueue}
use arch_xplore.Hart.State.{Hart}
use arch_xplore.Hart.Running.{fire, run_events}
use arch_xplore.Hart.Shared.{ProcessHarts, share, fire_hart, fire_harts}

pub done-injective : {A : Type 0} (a b : A) → done a ≡ done b → a ≡ b
done-injective a b h = ground arith

pub replicate_small : (n i k : ℕ) → i < k → All (λ j. j < k) (replicate n i)
replicate_small zero i k small = tt
replicate_small (suc n) i k small = (small, replicate_small n i k small)

module _ {E Q : Type 0} {V : Q → Type 0} (ev : UniqueEvent E) (eq : EventQueue Q V) where
  pub fire_harts-append :
      (os os' : List ℕ) (m m1 m2 : ProcessHarts E Q)
      → fire_harts ev eq os m ≡ done m1
      → fire_harts ev eq os' m1 ≡ done m2
      → fire_harts ev eq (os ++ os') m ≡ done m2
  unfolding fire_harts
  fire_harts-append [] os' m m1 m2 first second =
      let same : m ≡ m1 = done-injective m m1 first in
      subst (λ k. fire_harts ev eq os' k ≡ done m2) (sym same) second
  fire_harts-append (o ∷ os) os' m m1 m2 first second =
      let (k, fired, rest) = >>=-eq-done (fire_hart ev eq o m) (fire_harts ev eq os) first in
      ap (λ x. x >>= fire_harts ev eq (os ++ os')) fired
      ∙ fire_harts-append os os' k m1 m2 rest second

  -- What is left when hart `i` has taken out events alone, until it is `h'`.
  pub record Alone (i : ℕ) (m m' : ProcessHarts E Q) (h' : Hart E Q) : Type 0 where
    pub process : m'.process ≡ h'.process
    pub hart : Hart E Q
    pub found : get_elem? m'.harts i ≡ some hart
    pub same : share m'.process hart ≡ h'
    pub others : (j : ℕ) → j ≢ i → get_elem? m'.harts j ≡ get_elem? m.harts j
    pub len : length m'.harts ≡ length m.harts

  pub run-Alone :
      (i n : ℕ) (m : ProcessHarts E Q) (h h' : Hart E Q)
      → get_elem? m.harts i ≡ some h
      → run_events ev eq n (share m.process h) ≡ done h'
      → (m' : ProcessHarts E Q) × (fire_harts ev eq (replicate n i) m ≡ done m') × Alone i m m' h'
  unfolding fire_harts run_events fire_hart
  run-Alone i zero m h h' found ran =
      let same = done-injective (share m.process h) h' ran in
      (
        m,
        refl,
        record {
          process = ap (λ k. k.process) same;
          hart = h;
          found = found;
          same = same;
          others = λ j away. refl;
          len = refl;
        },
      )
  run-Alone i (suc n) m h h' found ran =
      let (k, fired, rest) =
        >>=-eq-done (fire ev eq (share m.process h)) (run_events ev eq n) ran in
      let m1 : ProcessHarts E Q = record { process = k.process; harts = set m.harts i k } in
      let there = get_elem?-set_self m.harts i k (get_elem?-lt m.harts i h found) in
      let (m2, ran2, a) = run-Alone i n m1 k h' there rest in
      let first : fire_hart ev eq i m ≡ done m1 = rw (found, fired) in
      (
        m2,
        ap (λ x. x >>= fire_harts ev eq (replicate n i)) first ∙ ran2,
        record {
          process = a.process;
          hart = a.hart;
          found = a.found;
          same = a.same;
          others = λ j away. a.others j away ∙ get_elem?-set_ne m.harts i j k (λ e. away (sym e));
          len = a.len ∙ length-set m.harts i k;
        },
      )

  -- Every hart is brought from `R` to `P` by its own events, which keep `Good` of the process.
  module _ (Good : Process → Type 0) (R P : ℕ → Hart E Q → Type 0)
      (apart : (j : ℕ) (p : Process) (h : Hart E Q) → P j (share p h) → P j h)
      (act : (j : ℕ) (p : Process) (h : Hart E Q)
        → Good p
        → R j h
        → (n : ℕ) × (h' : Hart E Q) × (run_events ev eq n (share p h) ≡ done h')
          × P j h'
          × Good h'.process) where
    pub record Swept (n : ℕ) (m m' : ProcessHarts E Q) : Type 0 where
      pub good : Good m'.process
      pub len : length m'.harts ≡ length m.harts
      pub brought : (j : ℕ) (h : Hart E Q) → get_elem? m'.harts j ≡ some h → j < n → P j h
      pub waiting : (j : ℕ) → n ≤ j → get_elem? m'.harts j ≡ get_elem? m.harts j

    pub sweep :
        (n : ℕ) (m : ProcessHarts E Q)
        → Good m.process
        → ((j : ℕ) (h : Hart E Q) → get_elem? m.harts j ≡ some h → R j h)
        → n ≤ length m.harts
        → (order : List ℕ) × (m' : ProcessHarts E Q) × (fire_harts ev eq order m ≡ done m')
          × All (λ i. i < length m.harts) order
          × Swept n m m'
    unfolding fire_harts
    sweep zero m good r within = (
      [],
      m,
      refl,
      tt,
      record {
        good = good;
        len = refl;
        brought = λ j h found small. absurd (omega arith);
        waiting = λ j le. refl;
      },
    )
    sweep (suc n) m good r within =
        let (order, m1, ran, small, s) = sweep n m good r (omega arith) in
        let (h, found) = get_elem?-some m.harts n (omega arith) in
        let found1 : get_elem? m1.harts n ≡ some h = s.waiting n (omega arith) ∙ found in
        let (c, h', alone, brought, good') = act n m1.process h s.good (r n h found) in
        let (m2, ran2, a) = run-Alone n c m1 h h' found1 alone in
        (
          order ++ replicate c n,
          m2,
          fire_harts-append order (replicate c n) m m1 m2 ran ran2,
          All-append (λ i. i < length m.harts) order (replicate c n) small
              (replicate_small c n (length m.harts) (omega arith)),
          record {
            good = subst Good (sym a.process) good';
            len = a.len ∙ s.len;
            brought = λ j k there small_j. elim (ℕ_discrete j n) [
              | yes same ↦
                  let found_k : get_elem? m2.harts n ≡ some k =
                    subst (λ i. get_elem? m2.harts i ≡ some k) same there in
                  let is_k : a.hart ≡ k = ground (arith, a.found) in
                  apart j m2.process k (
                    subst (λ i. P i (share m2.process k)) (sym same)
                      (subst (λ x. P n (share m2.process x)) is_k
                        (subst (P n) (sym a.same) brought)))
              | no away ↦ s.brought j k (sym (a.others j away) ∙ there) (omega (arith, away))
            ];
            waiting =
                λ j le. a.others j (λ e. absurd (omega (arith, e))) ∙ s.waiting j (omega arith);
          },
        )
