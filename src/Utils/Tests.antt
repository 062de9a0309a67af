-- ===== src/Utils/Tests.antt =====
-- Tests of the thread pool at concrete states.
use arch_xplore.Base.{
  ℕ, ◌<◌, List, [], ◌∷◌, Bool, true, false, some, get_elem?, All, arith, ◌≡◌, ◌⊎◌, refl,
}
use arch_xplore.Utils.ThreadPool.{
  Worker, ready, asleep, busy, exited, construct, enqueue, take_task, request_stop, set_worker,
  notify_all, History, initial, OwnStep, accept, announce, sleep, begin, finish, exit, halt,
  announce_stop, goes, Reaches, here, then_step,
}
use arch_xplore.Utils.ThreadPool.Invariant.{IsSound, Reaches-IsSound, count}
use arch_xplore.Utils.ThreadPool.Joining.{HasExited, joined-all_run}
use arch_xplore.Utils.ThreadPool.Progress.{remaining, stopped-progress}

abbrev always : ℕ → Bool
always t = true

-- A pool of one worker, by the worker's state, the tasks that wait, the callers that are to notify, and
-- whether it is stopped and joins.
abbrev state : Worker ℕ → List ℕ → ℕ → Bool → Bool → List ℕ → List ℕ → List ℕ → History ℕ
state w ts n st joining accepted begun finished = record {
  pool = record { workers = w ∷ []; task_queue = ts; stop = st };
  unannounced = n;
  joining = joining;
  accepted = accepted;
  begun = begun;
  finished = finished;
}

-- The worker sleeps; the task 7 is accepted, and the worker is woken.
abbrev sleeping : History ℕ
sleeping = state asleep [] 0 false false [] [] []

abbrev handed : History ℕ
handed = state asleep (7 ∷ []) 1 false false (7 ∷ []) [] []

abbrev woken_up : History ℕ
woken_up = state ready (7 ∷ []) 0 false false (7 ∷ []) [] []

-- It takes the task, and ends it.
abbrev running : History ℕ
running = state (busy 7) [] 0 false false (7 ∷ []) (7 ∷ []) []

abbrev idle : History ℕ
idle = state ready [] 0 false false (7 ∷ []) (7 ∷ []) (7 ∷ [])

-- It sleeps again when the pool is stopped; then it is woken and returns.
abbrev resting : History ℕ
resting = state asleep [] 0 false false (7 ∷ []) (7 ∷ []) (7 ∷ [])

abbrev stopped : History ℕ
stopped = state asleep [] 0 true false (7 ∷ []) (7 ∷ []) (7 ∷ [])

abbrev notified : History ℕ
notified = state ready [] 0 true true (7 ∷ []) (7 ∷ []) (7 ∷ [])

abbrev at_end : History ℕ
at_end = state exited [] 0 true true (7 ∷ []) (7 ∷ []) (7 ∷ [])

run_stopped : Reaches always (initial 1) stopped
unfolding construct enqueue take_task request_stop set_worker
run_stopped =
    then_step resting stopped
      (then_step idle resting
        (then_step running idle
          (then_step woken_up running
            (then_step handed woken_up
              (then_step sleeping handed
                (then_step (initial 1) sleeping here (goes (sleep (initial 1) 0 refl refl)))
                (goes (accept sleeping 7 _ refl)))
              (goes (announce handed 0 0 (omega arith) refl)))
            (goes (begin woken_up 0 7 _ refl refl)))
          (goes (finish running 0 7 refl refl)))
        (goes (sleep idle 0 refl refl)))
      (goes (halt resting refl))

run_7 : Reaches always (initial 1) at_end
unfolding take_task set_worker notify_all
run_7 =
    then_step notified at_end
      (then_step stopped notified run_stopped (goes (announce_stop stopped refl refl)))
      (goes (exit notified 0 _ refl refl))

Reaches-IsSound_example : IsSound at_end
Reaches-IsSound_example = Reaches-IsSound always 1 at_end run_7

joined-all_run_example :
    (at_end.pool.task_queue ≡ []) × ((f : ℕ → Bool) → count f (7 ∷ []) ≡ count f (7 ∷ []))
joined-all_run_example = joined-all_run always 1 at_end run_7 (omega arith) (refl, tt)

none_running : (i t : ℕ) → get_elem? stopped.pool.workers i ≡ some (busy t) → always t ≡ true
none_running i t h = refl

stopped-progress_example :
    All HasExited stopped.pool.workers
    ⊎ ((t : History ℕ) × OwnStep always stopped t
        × (t.pool.stop ≡ true)
        × (remaining t < remaining stopped))
stopped-progress_example = stopped-progress always 1 stopped run_stopped refl none_running
