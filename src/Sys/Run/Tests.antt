-- ===== src/Sys/Run/Tests.antt =====
-- Tests of running at concrete states: a rank's scheduler is the ticks it has run, and so is the main
-- scheduler, beside the tick at which the bound-weave event is to come.
use arch_xplore.Base.{
  ℕ, ◌+◌, [], ◌∷◌, true, false, ◌&&◌, Option, none, some, leb, if◌then◌else◌, Outcome, done, arith,
  ◌≡◌, inl, inr, refl,
}
use arch_xplore.Utils.ThreadPool.{ThreadPool, ready}
use arch_xplore.Utils.ThreadPool.Invariant.{count}
use arch_xplore.Sys.Run.{
  RankScheduler, MainScheduler, Runner, is_in, finalize, handle_bound_weave_event,
}
use arch_xplore.Sys.Run.Laws.{
  IsRunnable, all_finished, handle_bound_weave_event_lem, finalize-IsRunnable,
}

abbrev ranks : RankScheduler ℕ
ranks = record { finalize = λ s. s; run = λ n s. s + n; is_finished = λ s. leb 2000 s }

abbrev main : MainScheduler (ℕ × ℕ)
main = record {
  finalize = λ m. m;
  run = λ n m. (m.0 + n, m.1);
  stop_running = λ m. m;
  current_tick = λ m. m.0;
  restart_at = λ n m. (n, m.1);
  schedule_bound_weave = λ n m. (m.0, m.0 + n);
  indefinite = 0;
}

abbrev booting : ℕ → Outcome ℕ
booting n = done (n + 1)

-- Two ranks in the bound phase, of which one is not finished after another interval.
abbrev runner : Option (ThreadPool ℕ) → Runner ℕ (ℕ × ℕ) ℕ
runner pool = record {
  max_threads = 0;
  bound_weave_enabled = true;
  bound_weave_interval = 1000;
  bound_phase = (0, 1500) ∷ (1, 0) ∷ [];
  weave_phase = [];
  main_scheduler = (3000, 0);
  thread_pool = pool;
  finalized = false;
  system = 0;
}

abbrev pool : ThreadPool ℕ
pool = record { workers = ready ∷ ready ∷ []; task_queue = []; stop = false }

handle_bound_weave_event_lem_example :
    (r' : Runner ℕ (ℕ × ℕ) ℕ) × (handle_bound_weave_event ranks main booting
        (1 ∷ 0 ∷ [])
        []
        (runner (some pool))
      ≡ done r')
    × IsRunnable ranks main booting r'
    × (r'.bound_phase ≡ (0, 2500) ∷ (1, 1000) ∷ [])
    × (r'.weave_phase ≡ [])
    × (r'.thread_pool ≡ some pool)
    × (r'.main_scheduler ≡ (
        if all_finished ranks main booting r'.bound_phase
          && all_finished ranks main booting r'.weave_phase
        then (3999, 0)
        else (3000, 4000)))
unfolding count is_in
handle_bound_weave_event_lem_example =
    handle_bound_weave_event_lem ranks main booting (1 ∷ 0 ∷ []) [] (runner (some pool))
      (inr (pool, refl, omega arith, refl, refl), inl refl)
      (refl, (refl, (refl, tt)), (refl, (refl, tt))) (refl, tt, tt)

finalize-IsRunnable_example :
    (r' : Runner ℕ (ℕ × ℕ) ℕ) × (finalize ranks main booting (runner none) ≡ done r')
    × IsRunnable ranks main booting r'
    × (r'.system ≡ 1)
finalize-IsRunnable_example = finalize-IsRunnable ranks main booting (runner none) 1 refl
