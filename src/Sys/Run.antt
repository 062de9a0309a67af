-- ===== src/Sys/Run.antt =====
-- Running: `finalize`, `run` and the bound-weave event of src/system/AbstractSystem.cpp. The
-- schedulers are those of sparta. The tasks of a phase are handed to the thread pool, and end in an order
-- that is an argument: each of them runs the scheduler of its own rank. What the harts of different ranks
-- share, their process, is not part of a scheduler here (Hart/Shared is about it). `system` stands for
-- the rest of the system, which `bootSystem` changes.
pub mod Laws
mod Tests
use arch_xplore.Base.{
  ℕ, ◌+◌, ◌-◌, ◌%◌, max, List, [], ◌∷◌, Bool, true, false, ◌&&◌, ◌||◌, not, Option, none, some,
  length, map, drop, ltb, ◌==◌, if◌then◌else◌, Outcome, done, throws, assertion,
  undefined_behaviour, blocked, div_by_zero, check, or_throw, ◌>>=◌, ◌>>◌,
}
use arch_xplore.Utils.ThreadPool.{ThreadPool, construct, enqueue}

-- The scheduler of a rank, and the main scheduler with the bound-weave event in it.
pub record RankScheduler (S : Type 0) : Type 0 where
  pub finalize : S → S
  pub run : ℕ → S → S
  pub is_finished : S → Bool

pub record MainScheduler (M : Type 0) : Type 0 where
  pub finalize : M → M
  pub run : ℕ → M → M
  pub stop_running : M → M
  pub current_tick : M → ℕ
  pub restart_at : ℕ → M → M
  pub schedule_bound_weave : ℕ → M → M
  pub indefinite : ℕ

-- A task of the pool is known by the rank that it runs.
pub record Runner (S M X : Type 0) : Type 0 where
  pub max_threads : ℕ
  pub bound_weave_enabled : Bool
  pub bound_weave_interval : ℕ
  pub bound_phase : List (ℕ × S)
  pub weave_phase : List (ℕ × S)
  pub main_scheduler : M
  pub thread_pool : Option (ThreadPool ℕ)
  pub finalized : Bool
  pub system : X

unfoldable pub is_in : ℕ → List ℕ → Bool
is_in rank [] = false
is_in rank (task ∷ queue) = rank == task || is_in rank queue

-- The workers run a task only if it is in the queue.
unfoldable pub taken : List ℕ → List ℕ → List ℕ
taken queue [] = []
taken queue (rank ∷ ended) =
    let rest = taken queue ended in if is_in rank queue then rank ∷ rest else rest

-- The task of a rank, which the pool knows by the rank, and the future of its value.
pub record RankTask (S : Type 0) : Type 0 where
  pub rank : ℕ
  pub scheduler : S
  pub future : Option Bool

module _ {S M X : Type 0} (rs : RankScheduler S) (ms : MainScheduler M) (boot : X → Outcome X) where
  abbrev pub finalize_rank : ℕ × S → ℕ × S
  finalize_rank (rank, s) = (rank, rs.finalize s)

  abbrev pub make_pool : ℕ → Option (ThreadPool ℕ) → Option (ThreadPool ℕ)
  make_pool threads pool = if ltb 0 threads then some (construct threads) else pool

  abbrev pub threads_of : Runner S M X → ℕ
  threads_of r =
      if r.max_threads == 0
      then max (length r.bound_phase) (length r.weave_phase)
      else r.max_threads

  unfoldable pub finalize : Runner S M X → Outcome (Runner S M X)
  finalize r = do
    let ready = record r {
      main_scheduler = ms.finalize r.main_scheduler;
      bound_phase = map finalize_rank r.bound_phase;
      weave_phase = map finalize_rank r.weave_phase;
      max_threads = threads_of r;
      thread_pool = make_pool (threads_of r) r.thread_pool;
    }
    system ← boot ready.system
    done (record ready { system = system })

  -- A task that is handed to the pool, and the end of the task of a rank: its scheduler has run, and its
  -- future has its value. A phase is a map from ranks, so that a rank has one task.
  abbrev pub hand_out : ℕ × S → RankTask S
  hand_out (rank, s) = record { rank = rank; scheduler = s; future = none }

  abbrev pub run_task : ℕ → RankTask S → RankTask S
  run_task interval t =
      let s = rs.run interval t.scheduler in
      record t { scheduler = s; future = some (not (rs.is_finished s)) }

  abbrev pub end_task : ℕ → ℕ → RankTask S → RankTask S
  end_task interval rank t = if t.rank == rank then run_task interval t else t

  -- The tasks end in the order `ended`.
  unfoldable pub end_tasks : ℕ → List ℕ → List (RankTask S) → List (RankTask S)
  end_tasks interval [] ts = ts
  end_tasks interval (rank ∷ ended) ts = end_tasks interval ended (map (end_task interval rank) ts)

  unfoldable pub enqueue_ranks : List (ℕ × S) → ThreadPool ℕ → Outcome (ThreadPool ℕ)
  enqueue_ranks [] p = done p
  enqueue_ranks (r ∷ ranks) p = do p' ← enqueue r.0 p; enqueue_ranks ranks p'

  -- The loop of f.get(), which waits for a task that has not ended.
  unfoldable pub get_futures : Bool → List (RankTask S) → Outcome Bool
  get_futures finished [] = done finished
  get_futures finished (t ∷ ts) = elim t.future [
    | none ↦ blocked
    | some goes_on ↦ get_futures (if goes_on then false else finished) ts
  ]

  -- `ended` are the tasks that end before their futures are waited for no longer, in order; the workers
  -- have taken as many from the queue.
  unfoldable pub run_phase_event :
      ℕ
      → List ℕ
      → Option (ThreadPool ℕ)
      → List (ℕ × S)
      → Outcome (Bool × Option (ThreadPool ℕ) × List (ℕ × S))
  run_phase_event interval ended pool [] = done (true, pool, [])
  run_phase_event interval ended pool (r ∷ ranks) = do
    p ← or_throw pool undefined_behaviour
    p' ← enqueue_ranks (r ∷ ranks) p
    let ran = taken p'.task_queue ended
    let ts = end_tasks interval ran (map hand_out (r ∷ ranks))
    finished ← get_futures true ts
    let p'' = record p' { task_queue = drop (length ran) p'.task_queue }
    done (finished, some p'', map (λ t. (t.rank, t.scheduler)) ts)

  unfoldable pub handle_bound_weave_event : List ℕ → List ℕ → Runner S M X → Outcome (Runner S M X)
  handle_bound_weave_event ended_bound ended_weave r = do
    (bound_finished, pool, bound) ←
        run_phase_event r.bound_weave_interval ended_bound r.thread_pool r.bound_phase
    (weave_finished, pool', weave) ←
        run_phase_event r.bound_weave_interval ended_weave pool r.weave_phase
    let main = r.main_scheduler
    let main' =
        if bound_finished && weave_finished
        then ms.restart_at (ms.current_tick main + r.bound_weave_interval - 1)
            (ms.stop_running main)
        else ms.schedule_bound_weave r.bound_weave_interval main
    done (record r {
      bound_phase = bound;
      weave_phase = weave;
      main_scheduler = main';
      thread_pool = pool';
    })

  -- The test of `tick`, once the system is finalized.
  unfoldable pub run_main : ℕ → Runner S M X → Outcome (Runner S M X)
  run_main tick r = do
    check (not (r.bound_weave_enabled && r.bound_weave_interval == 0)) div_by_zero
    check (not r.bound_weave_enabled || tick % r.bound_weave_interval == 0 || tick == ms.indefinite)
        assertion
    done (record r { main_scheduler = ms.run tick r.main_scheduler })

  unfoldable pub run : ℕ → Runner S M X → Outcome (Runner S M X)
  run tick r =
      if not r.finalized
      then (do r' ← finalize r; run_main tick (record r' { finalized = true }))
      else run_main tick r
