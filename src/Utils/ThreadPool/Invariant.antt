-- ===== src/Utils/ThreadPool/Invariant.antt =====
-- Tasks are taken in the order in which they were accepted, and none is lost or taken twice.
use arch_xplore.Base.{
  ℕ, zero, suc, ◌+◌, List, [], ◌∷◌, ◌++◌, Bool, true, none, some, get_elem?, set, replicate,
  if◌then◌else◌, arith, ◌≡◌, ◌≢◌, inl, inr, refl, sym, ap, map, ◌∙◌, Bool-cases, append_assoc,
  ℕ_discrete, get_elem?-lt, get_elem?-set_self, get_elem?-set_ne, length-set,
}
use arch_xplore.Utils.ThreadPool.{
  Worker, ready, asleep, busy, exited, ThreadPool, construct, enqueue, take_task, request_stop,
  set_worker, woken, notify_all, History, initial, OwnStep, accept, announce, announce_nobody,
  sleep, begin, finish, exit, halt, announce_stop, Step, goes, wakes_by_itself, Reaches, here,
  then_step,
}

abbrev pub one : Bool → ℕ
one b = if b then 1 else 0

module _ {T : Type 0} where
  -- How many of the tasks pass a test; tasks are the same, up to their order, if all tests agree.
  unfoldable pub count : (T → Bool) → List T → ℕ
  count f [] = 0
  count f (t ∷ ts) = one (f t) + count f ts

  count-append : (f : T → Bool) (ts us : List T) → count f (ts ++ us) ≡ count f ts + count f us
  unfolding count
  count-append f [] us = omega arith
  count-append f (t ∷ ts) us = omega (arith, count-append f ts us)

  abbrev pub held : (T → Bool) → Worker T → ℕ
  held f (busy t) = one (f t)
  held f _ = 0

  -- How many of the tasks that are running pass a test.
  unfoldable pub count_running : (T → Bool) → List (Worker T) → ℕ
  count_running f [] = 0
  count_running f (w ∷ ws) = held f w + count_running f ws

  count_running-set :
      (f : T → Bool) (ws : List (Worker T)) (i : ℕ) (w v : Worker T)
      → get_elem? ws i ≡ some w
      → count_running f (set ws i v) + held f w ≡ count_running f ws + held f v
  unfolding count_running
  count_running-set f [] i w v h = absurd (ground arith)
  count_running-set f (x ∷ ws) zero w v h = let same : x ≡ w = ground arith in rw same (omega arith)
  count_running-set f (x ∷ ws) (suc i) w v h = omega (arith, count_running-set f ws i w v h)

  -- No task is lost or taken twice, and a worker returns only when the pool is stopped and empty.
  pub record IsSound (s : History T) : Type 0 where
    pub in_order : s.accepted ≡ s.begun ++ s.pool.task_queue
    pub kept :
        (f : T → Bool) → count f s.begun ≡ count f s.finished + count_running f s.pool.workers
    pub drained :
        (i : ℕ)
        → get_elem? s.pool.workers i ≡ some exited
        → (s.pool.stop ≡ true) × (s.pool.task_queue ≡ [])

  -- What taking a task does, and when a worker returns.
  pub take_task-some :
      (p p' : ThreadPool T) (t : T)
      → take_task p ≡ some (some t, p')
      → (p.task_queue ≡ t ∷ p'.task_queue) × (p'.workers ≡ p.workers) × (p'.stop ≡ p.stop)
  unfolding take_task
  take_task-some p p' t h = from p.task_queue refl
    where
      from :
          (ts : List T)
          → p.task_queue ≡ ts
          → (p.task_queue ≡ t ∷ p'.task_queue) × (p'.workers ≡ p.workers) × (p'.stop ≡ p.stop)
      from [] e = elim (Bool-cases p.stop) [
        | inl b ↦ absurd (ground arith)
        | inr b ↦ absurd (ground arith)
      ]
      from (u ∷ ts) e = elim (Bool-cases p.stop) [ inl b ↦ ground arith | inr b ↦ ground arith ]

  pub take_task-none :
      (p p' : ThreadPool T)
      → take_task p ≡ some (none, p')
      → (p' ≡ p) × (p.stop ≡ true) × (p.task_queue ≡ [])
  unfolding take_task
  take_task-none p p' h = from p.task_queue refl
    where
      from : (ts : List T) → p.task_queue ≡ ts → (p' ≡ p) × (p.stop ≡ true) × (p.task_queue ≡ [])
      from [] e = elim (Bool-cases p.stop) [ inl b ↦ ground arith | inr b ↦ absurd (ground arith) ]
      from (u ∷ ts) e = elim (Bool-cases p.stop) [
        | inl b ↦ absurd (ground arith)
        | inr b ↦ absurd (ground arith)
      ]

  -- A worker that is what the one that was set is not was it before.
  pub get_elem?-set_back :
      (ws : List (Worker T)) (i j : ℕ) (v : Worker T) {w : Worker T}
      → v ≢ w
      → get_elem? (set ws i v) j ≡ some w
      → get_elem? ws j ≡ some w
  get_elem?-set_back ws i j v {w} n h = elim (ℕ_discrete i j) [
    | yes same ↦
        let within = get_elem?-lt (set ws i v) j w h in
        absurd (
          n (
            let there = get_elem?-set_self ws i v (omega (arith, length-set ws i v)) in
            ground arith))
    | no other ↦ sym (get_elem?-set_ne ws i j v other) ∙ h
  ]

  -- A worker without a task goes on without one.
  idle-IsSound :
      (s : History T) (i n : ℕ) (w w' : Worker T)
      → get_elem? s.pool.workers i ≡ some w
      → ((f : T → Bool) → held f w ≡ held f w')
      → w' ≢ exited
      → IsSound s
      → IsSound (record s { pool = set_worker s.pool i w'; unannounced = n })
  unfolding set_worker
  idle-IsSound s i n w w' there same stays v = record {
    in_order = v.in_order;
    kept = λ f. omega (arith, v.kept f, same f, count_running-set f s.pool.workers i w w' there);
    drained = λ j e. v.drained j (get_elem?-set_back s.pool.workers i j w' stays e);
  }

  woken-running :
      (f : T → Bool) (ws : List (Worker T)) → count_running f (map woken ws) ≡ count_running f ws
  unfolding count_running
  woken-running f [] = refl
  woken-running f (ready ∷ ws) = omega (arith, woken-running f ws)
  woken-running f (asleep ∷ ws) = omega (arith, woken-running f ws)
  woken-running f (busy t ∷ ws) = omega (arith, woken-running f ws)
  woken-running f (exited ∷ ws) = omega (arith, woken-running f ws)

  woken-exited :
      (ws : List (Worker T)) (i : ℕ)
      → get_elem? (map woken ws) i ≡ some exited
      → get_elem? ws i ≡ some exited
  woken-exited [] i h = absurd (ground arith)
  woken-exited (ready ∷ ws) zero h = h
  woken-exited (asleep ∷ ws) zero h = absurd (ground arith)
  woken-exited (busy t ∷ ws) zero h = h
  woken-exited (exited ∷ ws) zero h = h
  woken-exited (w ∷ ws) (suc i) h = woken-exited ws i h

module _ {T : Type 0} (returns : T → Bool) where
  OwnStep-IsSound : {s t : History T} → OwnStep returns s t → IsSound s → IsSound t
  unfolding enqueue set_worker request_stop notify_all count
  OwnStep-IsSound (accept s task p h) v = elim (Bool-cases s.pool.stop) [
    | inl b ↦ absurd (ground arith)
    | inr b ↦
        let same : p ≡ record s.pool { task_queue = s.pool.task_queue ++ task ∷ [] } =
          ground arith in
        record {
          in_order = simp (same, v.in_order, append_assoc);
          kept = λ f. rw same (v.kept f);
          drained = rw same (λ i e. absurd (ground (arith, v.drained i e)));
        }
  ]
  OwnStep-IsSound (announce s i n some_left w) v =
      idle-IsSound s i n asleep ready w (λ f. refl) (λ c. cc) v
  OwnStep-IsSound (announce_nobody s n some_left nobody) v = record {
    in_order = v.in_order;
    kept = v.kept;
    drained = v.drained;
  }
  OwnStep-IsSound (sleep s i w h) v =
      idle-IsSound s i s.unannounced ready asleep w (λ f. refl) (λ c. cc) v
  OwnStep-IsSound (begin s i task p w h) v =
      let (q, ws, st) = take_task-some s.pool p task h in
      record {
        in_order = simp (v.in_order, q, append_assoc);
        kept = λ f. rw ws (
            omega (
              arith,
              v.kept f,
              count-append f s.begun (task ∷ []),
              count_running-set f s.pool.workers i ready (busy task) w,
            ));
        drained = λ j e.
            let old =
              v.drained j
                (get_elem?-set_back s.pool.workers i j (busy task) (λ c. cc) (rw ws at e)) in
            absurd (ground arith);
      }
  OwnStep-IsSound (finish s i task w ends) v = record {
    in_order = v.in_order;
    kept = λ f. omega (
      arith,
      v.kept f,
      count-append f s.finished (task ∷ []),
      count_running-set f s.pool.workers i (busy task) ready w,
    );
    drained = λ j e. v.drained j (get_elem?-set_back s.pool.workers i j ready (λ c. cc) e);
  }
  OwnStep-IsSound (exit s i p w h) v =
      let (same, st, q) = take_task-none s.pool p h in
      record {
        in_order = rw same v.in_order;
        kept = λ f.
            rw same (omega (arith, v.kept f, count_running-set f s.pool.workers i ready exited w));
        drained = λ j e. (rw same st, rw same q);
      }
  OwnStep-IsSound (halt s open_yet) v = record {
    in_order = v.in_order;
    kept = v.kept;
    drained = λ j e. (refl, (v.drained j e).1);
  }
  OwnStep-IsSound (announce_stop s st early) v = record {
    in_order = v.in_order;
    kept = λ f. v.kept f ∙ ap (◌+◌ (count f s.finished)) (sym (woken-running f s.pool.workers));
    drained = λ j e. v.drained j (woken-exited s.pool.workers j e);
  }

  pub Step-IsSound : {s t : History T} → Step returns s t → IsSound s → IsSound t
  unfolding set_worker
  Step-IsSound (goes st) v = OwnStep-IsSound st v
  Step-IsSound (wakes_by_itself s i w) v =
      idle-IsSound s i s.unannounced asleep ready w (λ f. refl) (λ c. cc) v

  initial-running : (f : T → Bool) (n : ℕ) → count_running f (replicate n ready) ≡ 0
  unfolding count_running
  initial-running f zero = refl
  initial-running f (suc n) = omega (arith, initial-running f n)

  none_exited : (n i : ℕ) → get_elem? (replicate {A = Worker T} n ready) i ≢ some exited
  none_exited zero i h = ground arith
  none_exited (suc n) zero h = ground arith
  none_exited (suc n) (suc i) h = none_exited n i h

  initial-IsSound : (n : ℕ) → IsSound (initial {T = T} n)
  unfolding construct count
  initial-IsSound n = record {
    in_order = refl;
    kept = λ f. omega (arith, initial-running f n);
    drained = λ i e. absurd (none_exited n i e);
  }

  -- In every state that a new pool reaches, the accepted tasks are those taken and those ready, in
  -- order; those taken are those ended and those running, each as often; and a worker has returned
  -- only if the pool is stopped and no task waits.
  pub Reaches-IsSound : (n : ℕ) (s : History T) → Reaches returns (initial n) s → IsSound s
  Reaches-IsSound n s here = initial-IsSound n
  Reaches-IsSound n s (then_step t u r st) = Step-IsSound st (Reaches-IsSound n t r)
