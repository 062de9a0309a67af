-- ===== src/Utils/ThreadPool/Joining.antt =====
-- The destructor: when all workers have returned, every accepted task has been run.
use arch_xplore.Base.{
  ℕ, ◌<◌, List, [], ◌∷◌, ◌++◌, Bool, some, length, get_elem?, All, arith, ◌≡◌, refl, ap, ◌∙◌,
  append-nil,
}
use arch_xplore.Utils.ThreadPool.{Worker, exited, History, initial, Reaches}
use arch_xplore.Utils.ThreadPool.Invariant.{Reaches-IsSound, count, count_running, held}

module _ {T : Type 0} where
  abbrev pub HasExited : Worker T → Type 0
  HasExited w = w ≡ exited

  running-exited : (f : T → Bool) (ws : List (Worker T)) → All HasExited ws → count_running f ws ≡ 0
  unfolding count_running
  running-exited f [] h = refl
  running-exited f (w ∷ ws) h =
      let rest = running-exited f ws h.1 in let none_held : held f w ≡ 0 = rw h.0 in omega arith

  first_exited :
      (ws : List (Worker T)) → 0 < length ws → All HasExited ws → get_elem? ws 0 ≡ some exited
  first_exited [] pos h = absurd (omega arith)
  first_exited (w ∷ ws) pos h = ap some h.0

  -- When every worker of a pool with a worker has returned, no task waits, and the tasks that have
  -- been run to their end are those that were accepted, each as often.
  pub joined-all_run :
      (returns : T → Bool) (n : ℕ) (s : History T)
      → Reaches returns (initial n) s
      → 0 < length s.pool.workers
      → All HasExited s.pool.workers
      → (s.pool.task_queue ≡ []) × ((f : T → Bool) → count f s.accepted ≡ count f s.finished)
  joined-all_run returns n s r pos joined =
      let v = Reaches-IsSound returns n s r in
      let (st, q) = v.drained 0 (first_exited s.pool.workers pos joined) in
      (
        q,
        λ f.
            let taken : s.accepted ≡ s.begun =
              v.in_order ∙ ap (λ ts. s.begun ++ ts) q ∙ append-nil s.begun in
            ap (count f) taken ∙ omega (arith, v.kept f, running-exited f s.pool.workers joined),
      )
