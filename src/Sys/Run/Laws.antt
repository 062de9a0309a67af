-- ===== src/Sys/Run/Laws.antt =====
-- Once the system is finalized, the bound-weave event runs every rank once and goes on until all are
-- finished, in whatever order the tasks of the ranks end.
use arch_xplore.Base.{
  ℕ, ◌+◌, ◌-◌, ◌<◌, max, List, [], ◌∷◌, ◌++◌, Bool, true, false, ◌&&◌, not, Option, some, length,
  map, drop, ltb, ◌==◌, All, length-replicate, if◌then◌else◌, Outcome, done, throws, pool_stopped,
  ◌>>=◌, ◌≡◌, ◌⊎◌, inl, inr, refl, sym, ap, ◌∙◌, arith, append_assoc, append-nil, Bool-cases,
}
use arch_xplore.Utils.ThreadPool.{ThreadPool, Worker, construct, enqueue, ready}
use arch_xplore.Utils.ThreadPool.Invariant.{count}
use arch_xplore.Sys.Run.{
  RankScheduler, MainScheduler, Runner, RankTask, is_in, taken, finalize, hand_out, run_task,
  end_task, end_tasks, enqueue_ranks, get_futures, run_phase_event, handle_bound_weave_event,
  threads_of, make_pool, finalize_rank,
}

module _ {S M X : Type 0} (rs : RankScheduler S) (ms : MainScheduler M) (boot : X → Outcome X) where
  -- A rank after an interval, and whether all ranks are finished.
  abbrev pub run_rank : ℕ → ℕ × S → ℕ × S
  run_rank interval (rank, s) = (rank, rs.run interval s)

  unfoldable pub all_finished : List (ℕ × S) → Bool
  all_finished [] = true
  all_finished (r ∷ ranks) = rs.is_finished r.1 && all_finished ranks

  -- A pool with a worker, which is not stopped and has no task left; or there is nothing to hand to it.
  abbrev pub HasPool : Option (ThreadPool ℕ) → List (ℕ × S) → Type 0
  HasPool pool ranks =
      (ranks ≡ [])
      ⊎ ((p : ThreadPool ℕ) × (pool ≡ some p)
          × (0 < length p.workers)
          × (p.stop ≡ false)
          × (p.task_queue ≡ []))

  abbrev pub IsRunnable : Runner S M X → Type 0
  IsRunnable r = HasPool r.thread_pool r.bound_phase × HasPool r.thread_pool r.weave_phase

  -- The tasks of the ranks have ended, each once, and no other.
  abbrev pub HaveEnded : List ℕ → List (ℕ × S) → Type 0
  HaveEnded ended ranks =
      (length ended ≡ length ranks)
      × All (λ r. count (λ t. r.0 == t) ended ≡ 1) ranks
      × All (λ t. is_in t (map (λ r. r.0) ranks) ≡ true) ended

  taken-all :
      (queue ended : List ℕ) → All (λ t. is_in t queue ≡ true) ended → taken queue ended ≡ ended
  unfolding taken
  taken-all queue [] h = refl
  taken-all queue (t ∷ ended) h = rw h.0 (ap (◌∷◌ t) (taken-all queue ended h.1))

  enqueue_ranks_lem :
      (ranks : List (ℕ × S)) (p : ThreadPool ℕ)
      → p.stop ≡ false
      → enqueue_ranks rs ms boot ranks p
        ≡ done (record p { task_queue = p.task_queue ++ map (λ r. r.0) ranks })
  unfolding enqueue_ranks enqueue
  enqueue_ranks_lem [] p open_yet =
      ap (λ q. done (record p { task_queue = q })) (sym (append-nil p.task_queue))
  enqueue_ranks_lem (r ∷ ranks) p open_yet =
      let p' = record p { task_queue = p.task_queue ++ r.0 ∷ [] } in
      ap (λ b. (if b then throws pool_stopped else done p') >>= enqueue_ranks rs ms boot ranks)
        open_yet
      ∙ enqueue_ranks_lem ranks p' open_yet
      ∙ ap (λ q. done (record p { task_queue = q }))
          (append_assoc p.task_queue (r.0 ∷ []) (map (λ x. x.0) ranks))

  -- What the ends of the tasks do to the task of one rank.
  unfoldable end_one : ℕ → List ℕ → RankTask S → RankTask S
  end_one interval [] t = t
  end_one interval (rank ∷ ended) t = end_one interval ended (end_task rs ms boot interval rank t)

  end_tasks_lem :
      (interval : ℕ) (ended : List ℕ) (ts : List (RankTask S))
      → end_tasks rs ms boot interval ended ts ≡ map (end_one interval ended) ts
  unfolding end_tasks end_one
  end_tasks_lem interval [] ts = sym (map_id ts)
    where
      map_id : (us : List (RankTask S)) → map (λ u. u) us ≡ us
      map_id [] = refl
      map_id (u ∷ us) = ap (◌∷◌ u) (map_id us)
  end_tasks_lem interval (rank ∷ ended) ts =
      end_tasks_lem interval ended (map (end_task rs ms boot interval rank) ts) ∙ fuse ts
    where
      fuse :
          (us : List (RankTask S))
          → map (end_one interval ended) (map (end_task rs ms boot interval rank) us)
            ≡ map (λ u. end_one interval ended (end_task rs ms boot interval rank u)) us
      fuse [] = refl
      fuse (u ∷ us) =
          ap (◌∷◌ (end_one interval ended (end_task rs ms boot interval rank u))) (fuse us)

  end_one-none :
      (interval : ℕ) (ended : List ℕ) (t : RankTask S)
      → count (λ k. t.rank == k) ended ≡ 0
      → end_one interval ended t ≡ t
  unfolding end_one count
  end_one-none interval [] t h = refl
  end_one-none interval (rank ∷ ended) t h = elim (Bool-cases (t.rank == rank)) [
    | inl own ↦ absurd (ground arith)
    | inr other ↦
        ap (λ b. end_one interval ended (if b then run_task rs ms boot interval t else t)) other
        ∙ end_one-none interval ended t (ground arith)
  ]

  end_one-once :
      (interval : ℕ) (ended : List ℕ) (t : RankTask S)
      → count (λ k. t.rank == k) ended ≡ 1
      → end_one interval ended t ≡ run_task rs ms boot interval t
  unfolding end_one count
  end_one-once interval [] t h = absurd (omega arith)
  end_one-once interval (rank ∷ ended) t h = elim (Bool-cases (t.rank == rank)) [
    | inl own ↦
        ap (λ b. end_one interval ended (if b then run_task rs ms boot interval t else t)) own
        ∙ end_one-none interval ended (run_task rs ms boot interval t) (ground arith)
    | inr other ↦
        ap (λ b. end_one interval ended (if b then run_task rs ms boot interval t else t)) other
        ∙ end_one-once interval ended t (ground arith)
  ]

  -- In whatever order the tasks have ended, each rank has run once.
  end_tasks-once :
      (interval : ℕ) (ended : List ℕ) (ranks : List (ℕ × S))
      → All (λ r. count (λ t. r.0 == t) ended ≡ 1) ranks
      → end_tasks rs ms boot interval ended (map (hand_out rs ms boot) ranks)
        ≡ map (λ r. run_task rs ms boot interval (hand_out rs ms boot r)) ranks
  end_tasks-once interval ended ranks once =
      end_tasks_lem interval ended (map (hand_out rs ms boot) ranks) ∙ each ranks once
    where
      each :
          (rest : List (ℕ × S))
          → All (λ r. count (λ t. r.0 == t) ended ≡ 1) rest
          → map (end_one interval ended) (map (hand_out rs ms boot) rest)
            ≡ map (λ r. run_task rs ms boot interval (hand_out rs ms boot r)) rest
      each [] h = refl
      each (r ∷ rest) h =
          ap (λ t. t ∷ map (end_one interval ended) (map (hand_out rs ms boot) rest))
            (end_one-once interval ended (hand_out rs ms boot r) h.0)
          ∙ ap (◌∷◌ (run_task rs ms boot interval (hand_out rs ms boot r))) (each rest h.1)

  get_futures_lem :
      (interval : ℕ) (ranks : List (ℕ × S)) (finished : Bool)
      → get_futures rs ms boot finished
          (map (λ r. run_task rs ms boot interval (hand_out rs ms boot r)) ranks)
        ≡ done (finished && all_finished (map (run_rank interval) ranks))
  unfolding get_futures all_finished
  get_futures_lem interval [] finished = ground arith
  get_futures_lem interval (r ∷ ranks) finished =
      let over = rs.is_finished (rs.run interval r.1) in
      get_futures_lem interval ranks (if not over then false else finished)
      ∙ ap done (by_value finished over (all_finished (map (run_rank interval) ranks)))
    where
      by_value : (a b c : Bool) → ((if not b then false else a) && c) ≡ (a && (b && c))
      by_value true true c = refl
      by_value true false c = refl
      by_value false true c = refl
      by_value false false c = refl

  schedulers_lem :
      (interval : ℕ) (ranks : List (ℕ × S))
      → map
          (λ t. (t.rank, t.scheduler))
          (map (λ r. run_task rs ms boot interval (hand_out rs ms boot r)) ranks)
        ≡ map (run_rank interval) ranks
  schedulers_lem interval [] = refl
  schedulers_lem interval (r ∷ ranks) =
      ap (◌∷◌ (run_rank interval r)) (schedulers_lem interval ranks)

  drop-all : (n : ℕ) (ranks : List (ℕ × S)) → n ≡ length ranks → drop n (map (λ r. r.0) ranks) ≡ []
  drop-all n [] h = rw h
  drop-all n (r ∷ ranks) h = rw h (drop-all (length ranks) ranks refl)

  run_phase_event_lem :
      (interval : ℕ) (ended : List ℕ) (pool : Option (ThreadPool ℕ)) (ranks : List (ℕ × S))
      → HasPool pool ranks
      → HaveEnded ended ranks
      → run_phase_event rs ms boot interval ended pool ranks
        ≡ done (all_finished (map (run_rank interval) ranks), pool, map (run_rank interval) ranks)
  unfolding run_phase_event all_finished
  run_phase_event_lem interval ended pool [] h e = refl
  run_phase_event_lem interval ended pool (r ∷ ranks) (inl none_there) e = absurd (ground arith)
  run_phase_event_lem interval ended pool (r ∷ ranks) (inr (p, there, some_worker, open_yet, q)) e =
      let all = r ∷ ranks in
      let ran : taken (p.task_queue ++ map (λ x. x.0) all) ended ≡ ended =
        ap (λ ts. taken (ts ++ map (λ x. x.0) all) ended) q
        ∙ taken-all (map (λ x. x.0) all) ended e.2 in
      let left : drop (length ended) (p.task_queue ++ map (λ x. x.0) all) ≡ p.task_queue =
        ap (λ ts. drop (length ended) (ts ++ map (λ x. x.0) all)) q
        ∙ drop-all (length ended) all e.0
        ∙ sym q in
      rw (
        there,
        enqueue_ranks_lem all p open_yet,
        ran,
        end_tasks-once interval ended all e.1,
        get_futures_lem interval all true,
        schedulers_lem interval all,
        left,
      )

  map-nil : (f : ℕ × S → ℕ × S) (ranks : List (ℕ × S)) → ranks ≡ [] → map f ranks ≡ []
  map-nil f ranks h = ap (map f) h

  HasPool-map :
      (f : ℕ × S → ℕ × S) (pool : Option (ThreadPool ℕ)) (ranks : List (ℕ × S))
      → HasPool pool ranks
      → HasPool pool (map f ranks)
  HasPool-map f pool ranks (inl h) = inl (map-nil f ranks h)
  HasPool-map f pool ranks (inr h) = inr h

  -- The bound-weave event of a system whose phases are empty or have a pool with a worker, which is
  -- neither stopped nor has a task left, returns if the tasks of the ranks end, each once and no other, in
  -- whatever order. The schedulers of all ranks of both phases have then run once, for one interval, and the pool
  -- is as it was. If all of them are finished the main scheduler is stopped and restarted at the last
  -- tick of the interval; if not, the event is scheduled for the next interval.
  pub handle_bound_weave_event_lem :
      (ended_bound ended_weave : List ℕ) (r : Runner S M X)
      → IsRunnable r
      → HaveEnded ended_bound r.bound_phase
      → HaveEnded ended_weave r.weave_phase
      → (r' : Runner S M X) × (handle_bound_weave_event rs ms boot ended_bound ended_weave r
          ≡ done r')
        × IsRunnable r'
        × (r'.bound_phase ≡ map (run_rank r.bound_weave_interval) r.bound_phase)
        × (r'.weave_phase ≡ map (run_rank r.bound_weave_interval) r.weave_phase)
        × (r'.thread_pool ≡ r.thread_pool)
        × (r'.main_scheduler ≡ (
            if all_finished r'.bound_phase && all_finished r'.weave_phase
            then ms.restart_at
                (ms.current_tick r.main_scheduler + r.bound_weave_interval - 1)
                (ms.stop_running r.main_scheduler)
            else ms.schedule_bound_weave r.bound_weave_interval r.main_scheduler))
  unfolding handle_bound_weave_event
  handle_bound_weave_event_lem ended_bound ended_weave r (b, w) eb ew =
      let bound = map (run_rank r.bound_weave_interval) r.bound_phase in
      let weave = map (run_rank r.bound_weave_interval) r.weave_phase in
      (
        record r {
          bound_phase = bound;
          weave_phase = weave;
          main_scheduler =
              if all_finished bound && all_finished weave
              then ms.restart_at (ms.current_tick r.main_scheduler + r.bound_weave_interval - 1)
                  (ms.stop_running r.main_scheduler)
              else ms.schedule_bound_weave r.bound_weave_interval r.main_scheduler;
        },
        rw (
          run_phase_event_lem r.bound_weave_interval ended_bound r.thread_pool r.bound_phase b eb,
          run_phase_event_lem r.bound_weave_interval ended_weave r.thread_pool r.weave_phase w ew,
        ),
        (HasPool-map _ r.thread_pool r.bound_phase b, HasPool-map _ r.thread_pool r.weave_phase w),
        refl,
        refl,
        refl,
        refl,
      )

  workers_of : (n : ℕ) → 0 < n → 0 < length (construct {T = ℕ} n).workers
  unfolding construct
  workers_of n pos = omega (arith, length-replicate {A = Worker ℕ} n ready)

  pool_there :
      (r r' : Runner S M X) (ranks : List (ℕ × S))
      → length ranks < 1 + max (length r.bound_phase) (length r.weave_phase)
      → r'.thread_pool ≡ (
          if ltb 0 (threads_of rs ms boot r)
          then some (construct (threads_of rs ms boot r))
          else r.thread_pool)
      → HasPool r'.thread_pool (map (finalize_rank rs ms boot) ranks)
  unfolding construct
  pool_there r r' [] fits e = inl refl
  pool_there r r' (x ∷ ranks) fits e =
      let pos : 0 < threads_of rs ms boot r = ground arith in
      inr (
        construct (threads_of rs ms boot r),
        ground arith,
        workers_of (threads_of rs ms boot r) pos,
        refl,
        refl,
      )

  -- Finalizing returns if booting does. Then each of the two phases is empty or has a pool with a
  -- worker at least, which is what the bound-weave event needs.
  pub finalize-IsRunnable :
      (r : Runner S M X) (x : X)
      → boot r.system ≡ done x
      → (r' : Runner S M X) × (finalize rs ms boot r ≡ done r') × IsRunnable r' × (r'.system ≡ x)
  unfolding finalize
  finalize-IsRunnable r x booted =
      let r' = record r {
        main_scheduler = ms.finalize r.main_scheduler;
        bound_phase = map (finalize_rank rs ms boot) r.bound_phase;
        weave_phase = map (finalize_rank rs ms boot) r.weave_phase;
        max_threads = threads_of rs ms boot r;
        thread_pool = make_pool rs ms boot (threads_of rs ms boot r) r.thread_pool;
        system = x;
      } in
      (
        r',
        rw booted,
        (
          pool_there r r' r.bound_phase (omega arith) refl,
          pool_there r r' r.weave_phase (omega arith) refl,
        ),
        refl,
      )
