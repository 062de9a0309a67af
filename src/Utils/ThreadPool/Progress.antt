-- ===== src/Utils/ThreadPool/Progress.antt =====
-- The destructor comes to its end: in a stopped pool no worker is left asleep for good, and every step
-- leaves less to do.
use arch_xplore.Base.{
  ℕ, zero, suc, ◌+◌, ◌*◌, ◌<◌, ◌≤◌, List, [], ◌∷◌, Bool, true, none, some, length, get_elem?, set,
  map, All, if◌then◌else◌, done, arith, ◌≡◌, ◌≢◌, ◌⊎◌, inl, inr, refl, sym, ap, ◌∙◌, Bool-cases,
}
use arch_xplore.Utils.ThreadPool.{
  Worker, ready, asleep, busy, exited, ThreadPool, enqueue, take_task, request_stop, set_worker,
  woken, notify_all, NoneAsleep, History, initial, OwnStep, accept, announce, announce_nobody,
  sleep, begin, finish, exit, halt, announce_stop, Step, goes, wakes_by_itself, Reaches, here,
  then_step,
}
use arch_xplore.Utils.ThreadPool.Invariant.{take_task-some, take_task-none, get_elem?-set_back}
use arch_xplore.Utils.ThreadPool.Joining.{HasExited}

module _ {T : Type 0} where
  -- Behind notify_all the pool is stopped and no worker sleeps.
  abbrev IsAwake : History T → Type 0
  IsAwake s = s.joining ≡ true → (s.pool.stop ≡ true) × NoneAsleep s.pool.workers

  -- A worker that is set to something else than sleep.
  set_worker-IsAwake :
      (s : History T) (i : ℕ) (w : Worker T) (p : ThreadPool T)
      → p.workers ≡ s.pool.workers
      → p.stop ≡ s.pool.stop
      → w ≢ asleep
      → IsAwake s
      → IsAwake (record s { pool = set_worker p i w })
  unfolding set_worker
  set_worker-IsAwake s i w p ws st up a joins = (
    st ∙ (a joins).0,
    λ j e.
        (a joins).1 j (ap (λ l. get_elem? l j) (sym ws) ∙ get_elem?-set_back p.workers i j w up e),
  )

  woken-NoneAsleep : (ws : List (Worker T)) → NoneAsleep (map woken ws)
  woken-NoneAsleep [] i h = ground arith
  woken-NoneAsleep (ready ∷ ws) zero h = ground arith
  woken-NoneAsleep (asleep ∷ ws) zero h = ground arith
  woken-NoneAsleep (busy t ∷ ws) zero h = ground arith
  woken-NoneAsleep (exited ∷ ws) zero h = ground arith
  woken-NoneAsleep (w ∷ ws) (suc i) h = woken-NoneAsleep ws i h

  -- A stopped pool accepts nothing, and none of its workers goes to sleep.
  stopped-enqueue : (p p' : ThreadPool T) (t : T) → p.stop ≡ true → enqueue t p ≡ done p' → ⊥
  unfolding enqueue
  stopped-enqueue p p' t st h = ground arith

  stopped-take_task : (p : ThreadPool T) → p.stop ≡ true → take_task p ≢ none
  unfolding take_task
  stopped-take_task p st h = from p.task_queue refl
    where
      from : (ts : List T) → p.task_queue ≡ ts → ⊥
      from [] e = ground arith
      from (t ∷ ts) e = ground arith

  -- What is left to do for a worker.
  abbrev pub left : Worker T → ℕ
  left ready = 1
  left asleep = 2
  left (busy t) = 2
  left exited = 0

  unfoldable pub left_all : List (Worker T) → ℕ
  left_all [] = 0
  left_all (w ∷ ws) = left w + left_all ws

  left_all-set :
      (ws : List (Worker T)) (i : ℕ) (w v : Worker T)
      → get_elem? ws i ≡ some w
      → left_all (set ws i v) + left w ≡ left_all ws + left v
  unfolding left_all
  left_all-set [] i w v h = absurd (ground arith)
  left_all-set (x ∷ ws) zero w v h = let same : x ≡ w = ground arith in rw same (omega arith)
  left_all-set (x ∷ ws) (suc i) w v h = omega (arith, left_all-set ws i w v h)

  left_all-woken : (ws : List (Worker T)) → left_all (map woken ws) ≤ left_all ws
  unfolding left_all
  left_all-woken [] = omega arith
  left_all-woken (ready ∷ ws) = omega (arith, left_all-woken ws)
  left_all-woken (asleep ∷ ws) = omega (arith, left_all-woken ws)
  left_all-woken (busy t ∷ ws) = omega (arith, left_all-woken ws)
  left_all-woken (exited ∷ ws) = omega (arith, left_all-woken ws)

  unfoldable pub remaining : History T → ℕ
  remaining s =
      3 * length s.pool.task_queue
      + left_all s.pool.workers
      + s.unannounced
      + (if s.joining then 0 else 1)

  -- Either all workers have returned, or there is one that has not.
  some_left :
      (ws : List (Worker T))
      → All HasExited ws ⊎ ((i : ℕ) × (w : Worker T) × (get_elem? ws i ≡ some w) × (w ≢ exited))
  some_left [] = inl tt
  some_left (ready ∷ ws) = inr (0, ready, refl, λ c. cc)
  some_left (asleep ∷ ws) = inr (0, asleep, refl, λ c. cc)
  some_left (busy t ∷ ws) = inr (0, busy t, refl, λ c. cc)
  some_left (exited ∷ ws) = elim (some_left ws) [
    | inl all_exited ↦ inl (refl, all_exited)
    | inr (i, w, there, going) ↦ inr (suc i, w, there, going)
  ]

module _ {T : Type 0} (returns : T → Bool) where
  OwnStep-IsAwake : {s t : History T} → OwnStep returns s t → IsAwake s → IsAwake t
  unfolding request_stop notify_all
  OwnStep-IsAwake (accept s task p h) a joins = absurd (stopped-enqueue s.pool p task (a joins).0 h)
  OwnStep-IsAwake (announce s i n some_left w) a joins = absurd ((a joins).1 i w)
  OwnStep-IsAwake (announce_nobody s n some_left nobody) a joins = a joins
  OwnStep-IsAwake (sleep s i w h) a joins = absurd (stopped-take_task s.pool (a joins).0 h)
  OwnStep-IsAwake (begin s i task p w h) a joins =
      let (q, ws, st) = take_task-some s.pool p task h in
      set_worker-IsAwake s i (busy task) p ws st (λ c. cc) a joins
  OwnStep-IsAwake (finish s i task w ends) a joins =
      set_worker-IsAwake s i ready s.pool refl refl (λ c. cc) a joins
  OwnStep-IsAwake (exit s i p w h) a joins =
      let (same, _, _) = take_task-none s.pool p h in
      set_worker-IsAwake s i exited p (ap (λ q. q.workers) same) (ap (λ q. q.stop) same) (λ c. cc) a
        joins
  OwnStep-IsAwake (halt s open_yet) a joins = (refl, (a joins).1)
  OwnStep-IsAwake (announce_stop s st early) a joins = (st, woken-NoneAsleep s.pool.workers)

  Reaches-IsAwake : (n : ℕ) (s : History T) → Reaches returns (initial n) s → IsAwake s
  Reaches-IsAwake n s here joins = absurd (ground arith)
  Reaches-IsAwake n s (then_step t u r (goes st)) joins =
      OwnStep-IsAwake st (Reaches-IsAwake n t r) joins
  Reaches-IsAwake n s (then_step t u r (wakes_by_itself v i w)) joins =
      absurd ((Reaches-IsAwake n t r joins).1 i w)

  -- What a step of a stopped pool leaves to do.
  abbrev Lessens : History T → History T → Type 0
  Lessens s t = (t.pool.stop ≡ true) × (remaining t < remaining s)

  -- Every step of a stopped pool leaves less to do, and the pool stopped: it cannot go on for ever.
  OwnStep-Lessens : {s t : History T} → OwnStep returns s t → s.pool.stop ≡ true → Lessens s t
  unfolding set_worker remaining notify_all
  OwnStep-Lessens (accept s task p h) st = absurd (stopped-enqueue s.pool p task st h)
  OwnStep-Lessens (announce s i n some_left w) st =
      (st, omega (arith, left_all-set s.pool.workers i asleep ready w))
  OwnStep-Lessens (announce_nobody s n some_left nobody) st = (st, omega arith)
  OwnStep-Lessens (sleep s i w h) st = absurd (stopped-take_task s.pool st h)
  OwnStep-Lessens (begin s i task p w h) st =
      let (q, ws, same) = take_task-some s.pool p task h in
      let longer = ap length q in
      let others = ap (λ l. left_all (set l i (busy task))) ws in
      (same ∙ st, omega (arith, longer, others, left_all-set s.pool.workers i ready (busy task) w))
  OwnStep-Lessens (finish s i task w ends) st =
      (st, omega (arith, left_all-set s.pool.workers i (busy task) ready w))
  OwnStep-Lessens (exit s i p w h) st =
      let (same, _, _) = take_task-none s.pool p h in
      let queue = ap (λ q. length q.task_queue) same in
      let others = ap (λ q. left_all (set q.workers i exited)) same in
      (
        ap (λ q. q.stop) same ∙ st,
        omega (arith, queue, others, left_all-set s.pool.workers i ready exited w),
      )
  OwnStep-Lessens (halt s open_yet) st = absurd (ground arith)
  OwnStep-Lessens (announce_stop s _ early) st =
      let one_more = ap {B = ℕ} (λ b. if b then 0 else 1) early in
      (st, omega (arith, one_more, left_all-woken s.pool.workers))

  Step-Lessens : {s t : History T} → Step returns s t → s.pool.stop ≡ true → Lessens s t
  unfolding set_worker remaining
  Step-Lessens (goes step) st = OwnStep-Lessens step st
  Step-Lessens (wakes_by_itself s i w) st =
      (st, omega (arith, left_all-set s.pool.workers i asleep ready w))

  -- A worker of a stopped pool that is ready takes a task or returns.
  ready-steps :
      (s : History T) (i : ℕ) (ts : List T)
      → s.pool.task_queue ≡ ts
      → s.pool.stop ≡ true
      → get_elem? s.pool.workers i ≡ some ready
      → (t : History T) × OwnStep returns s t
  unfolding take_task
  ready-steps s i [] q st w = (_, exit s i s.pool w (ground arith))
  ready-steps s i (t ∷ ts) q st w =
      (_, begin s i t (record s.pool { task_queue = ts }) w (ground arith))

  -- A worker that has not returned does a step, behind notify_all.
  worker-steps :
      (s : History T) (i : ℕ) (w : Worker T)
      → s.pool.stop ≡ true
      → NoneAsleep s.pool.workers
      → ((j : ℕ) (t : T) → get_elem? s.pool.workers j ≡ some (busy t) → returns t ≡ true)
      → w ≢ exited
      → get_elem? s.pool.workers i ≡ some w
      → (t : History T) × OwnStep returns s t
  worker-steps s i ready st awake ends going there = ready-steps s i s.pool.task_queue refl st there
  worker-steps s i asleep st awake ends going there = absurd (awake i there)
  worker-steps s i (busy t) st awake ends going there = (_, finish s i t there (ends i t there))
  worker-steps s i exited st awake ends going there = absurd (going refl)

  -- A new pool has come, by steps of its callers, its destructor and its workers in any order, to a
  -- state in which it is stopped. If the tasks that are running return, then all its workers have
  -- returned, or a step of the code is possible, without a worker waking up by itself; that step leaves
  -- less to do and the pool stopped.
  pub stopped-progress :
      (n : ℕ) (s : History T)
      → Reaches returns (initial n) s
      → s.pool.stop ≡ true
      → ((i : ℕ) (t : T) → get_elem? s.pool.workers i ≡ some (busy t) → returns t ≡ true)
      → All HasExited s.pool.workers
        ⊎ ((t : History T) × OwnStep returns s t
            × (t.pool.stop ≡ true)
            × (remaining t < remaining s))
  stopped-progress n s run st ends = elim (some_left s.pool.workers) [
    | inl joined ↦ inl joined
    | inr (i, w, there, going) ↦
        let next : (t : History T) × OwnStep returns s t = elim (Bool-cases s.joining) [
          | inr early ↦ (_, announce_stop s st early)
          | inl joins ↦ worker-steps s i w st (Reaches-IsAwake n s run joins).1 ends going there
        ] in
        let (t, step) = next in
        let (still, less) = OwnStep-Lessens step st in inr (t, step, still, less)
  ]
