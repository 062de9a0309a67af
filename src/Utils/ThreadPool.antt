-- ===== src/Utils/ThreadPool.antt =====
-- include/utils/ThreadPool.hpp: workers that take tasks from a queue. What is done under the lock is
-- one step, and so is each notification, which comes behind it and without the lock. A worker that finds
-- the condition false sleeps until it is notified or wakes up by itself; then it tests the condition
-- again. A task runs outside the lock: between the step that takes it and the step that ends it other
-- steps may come.
pub mod Invariant
pub mod Joining
pub mod Progress
use arch_xplore.Base.{
  ℕ, suc, ◌+◌, map, ◌≢◌, List, [], ◌∷◌, ◌++◌, Bool, true, false, ◌&&◌, ◌||◌, not, Option, none,
  some, get_elem?, set, replicate, if◌then◌else◌, Outcome, done, throws, pool_stopped, ◌≡◌,
}

-- `ready`: the worker is to get the lock and to test the condition. `asleep`: it is blocked in the wait of
-- the condition variable.
pub data Worker (T : Type 0) : Type 0 where
  ready : Worker T
  asleep : Worker T
  busy : T → Worker T
  exited : Worker T

pub record ThreadPool (T : Type 0) : Type 0 where
  pub workers : List (Worker T)
  pub task_queue : List T
  pub stop : Bool

module _ {T : Type 0} where
  unfoldable pub construct : ℕ → ThreadPool T
  construct num_threads = record {
    workers = replicate num_threads ready;
    task_queue = [];
    stop = false;
  }

  abbrev pub is_empty : List T → Bool
  is_empty [] = true
  is_empty (t ∷ ts) = false

  unfoldable pub enqueue : T → ThreadPool T → Outcome (ThreadPool T)
  enqueue task p =
      if p.stop
      then throws pool_stopped
      else done (record p { task_queue = p.task_queue ++ task ∷ [] })

  -- What a worker does with the queue, by the queue.
  abbrev pub pop_task : List T → ThreadPool T → Option (Option T × ThreadPool T)
  pop_task [] p = none
  pop_task (task ∷ rest) p = some (some task, record p { task_queue = rest })

  -- The locked part of a worker's loop. `none`: the condition does not hold, and the worker sleeps;
  -- `some (none, p)`: the worker returns.
  unfoldable pub take_task : ThreadPool T → Option (Option T × ThreadPool T)
  take_task p =
      if p.stop || not (is_empty p.task_queue)
      then if p.stop && is_empty p.task_queue then some (none, p) else pop_task p.task_queue p
      else none

  -- The first part of the destructor.
  unfoldable pub request_stop : ThreadPool T → ThreadPool T
  request_stop p = record p { stop = true }

  unfoldable pub set_worker : ThreadPool T → ℕ → Worker T → ThreadPool T
  set_worker p i w = record p { workers = set p.workers i w }

  abbrev pub woken : Worker T → Worker T
  woken asleep = ready
  woken w = w

  -- condition.notify_all().
  unfoldable pub notify_all : ThreadPool T → ThreadPool T
  notify_all p = record p { workers = map woken p.workers }

  abbrev pub NoneAsleep : List (Worker T) → Type 0
  NoneAsleep ws = (i : ℕ) → get_elem? ws i ≢ some asleep

-- A pool, where its callers and its destructor are, and its history. `unannounced`: how many callers of
-- `enqueue` are between the lock and notify_one. `joining`: the destructor is behind notify_all. The last
-- three are not state of the program: the tasks that were accepted, taken and ended, in order.
pub record History (T : Type 0) : Type 0 where
  pub pool : ThreadPool T
  pub unannounced : ℕ
  pub joining : Bool
  pub accepted : List T
  pub begun : List T
  pub finished : List T

abbrev pub initial : {T : Type 0} → ℕ → History T
initial num_threads = record {
  pool = construct num_threads;
  unannounced = 0;
  joining = false;
  accepted = [];
  begun = [];
  finished = [];
}

-- `returns` says of a task whether it returns.
module _ {T : Type 0} (returns : T → Bool) where
  -- A step of the code: of a caller, of the destructor, or of a worker.
  pub data OwnStep : History T → History T → Type 0 where
    accept :
        (s : History T) (task : T) (p : ThreadPool T)
        → enqueue task s.pool ≡ done p
        → OwnStep s (record s {
          pool = p;
          unannounced = s.unannounced + 1;
          accepted = s.accepted ++ task ∷ [];
        })
    -- condition.notify_one() wakes a worker that sleeps, if there is one.
    announce :
        (s : History T) (i n : ℕ)
        → s.unannounced ≡ suc n
        → get_elem? s.pool.workers i ≡ some asleep
        → OwnStep s (record s { pool = set_worker s.pool i ready; unannounced = n })
    announce_nobody :
        (s : History T) (n : ℕ)
        → s.unannounced ≡ suc n
        → NoneAsleep s.pool.workers
        → OwnStep s (record s { unannounced = n })
    sleep :
        (s : History T) (i : ℕ)
        → get_elem? s.pool.workers i ≡ some ready
        → take_task s.pool ≡ none
        → OwnStep s (record s { pool = set_worker s.pool i asleep })
    begin :
        (s : History T) (i : ℕ) (task : T) (p : ThreadPool T)
        → get_elem? s.pool.workers i ≡ some ready
        → take_task s.pool ≡ some (some task, p)
        → OwnStep s (record s { pool = set_worker p i (busy task); begun = s.begun ++ task ∷ [] })
    finish :
        (s : History T) (i : ℕ) (task : T)
        → get_elem? s.pool.workers i ≡ some (busy task)
        → returns task ≡ true
        → OwnStep s
            (record s { pool = set_worker s.pool i ready; finished = s.finished ++ task ∷ [] })
    exit :
        (s : History T) (i : ℕ) (p : ThreadPool T)
        → get_elem? s.pool.workers i ≡ some ready
        → take_task s.pool ≡ some (none, p)
        → OwnStep s (record s { pool = set_worker p i exited })
    -- The destructor, first under the lock and then without it.
    halt :
        (s : History T) → s.pool.stop ≡ false → OwnStep s (record s { pool = request_stop s.pool })
    announce_stop :
        (s : History T)
        → s.pool.stop ≡ true
        → s.joining ≡ false
        → OwnStep s (record s { pool = notify_all s.pool; joining = true })

  -- A step of the code, or a worker that wakes up without being notified, as condition variables allow.
  pub data Step : History T → History T → Type 0 where
    goes : {s t : History T} → OwnStep s t → Step s t
    wakes_by_itself :
        (s : History T) (i : ℕ)
        → get_elem? s.pool.workers i ≡ some asleep
        → Step s (record s { pool = set_worker s.pool i ready })

  pub data Reaches (s : History T) : History T → Type 0 where
    here : Reaches s s
    then_step : (t u : History T) → Reaches s t → Step t u → Reaches s u
