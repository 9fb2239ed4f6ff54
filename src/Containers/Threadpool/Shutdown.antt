-- ===== src/Containers/Threadpool/Shutdown.antt =====
-- The destructor's joins: what is left to do for the threads of the pool.
use dag_blockchain.Prelude.{
  List, [], arith, get_elem?, length, none, refl, set, some, suc, true, zero, ℕ, ◌*◌, ◌+◌, ◌<◌, ◌∷◌,
  ◌≡◌, ◌≢◌,
}
use dag_blockchain.Containers.Threadpool.{
  Threadpool, Phase, waiting, running, returned, worker, step, take_task,
}
use dag_blockchain.Containers.Threadpool.Steps.{
  step-WorkerStep, WorkerStep, takes, finishes, returns,
}

module _ {ℓ} {A : Type ℓ} where
  -- What is left to do for a thread, and for the pool.
  abbrev phase_work : Phase A → ℕ
  phase_work waiting = 1
  phase_work (running task) = 2
  phase_work returned = 0

  abbrev threads_work : List (Phase A) → ℕ
  threads_work [] = 0
  threads_work (phase ∷ phases) = phase_work phase + threads_work phases

  abbrev pub work : Threadpool A → ℕ
  work p = 2 * length p.task_queue + threads_work p.threads

  threads_work-set :
      (phases : List (Phase A)) (i : ℕ) (old phase : Phase A)
      → get_elem? phases i ≡ some old
      → threads_work (set phases i phase) + phase_work old ≡ threads_work phases + phase_work phase
  threads_work-set [] i old phase h = absurd (ground arith)
  threads_work-set (x ∷ xs) zero old phase h = let e : x ≡ old = ground arith in rw e (omega arith)
  threads_work-set (x ∷ xs) (suc i) old phase h = omega (arith, threads_work-set xs i old phase h)

  -- Every step of a thread leaves less to do: two for a queued task, and for a thread one if it
  -- waits, two if it runs a task and none if it has returned.
  pub worker-work : (i : ℕ) (p q : Threadpool A) → step (worker i) p ≡ some q → work q < work p
  worker-work i p q h = go (step-WorkerStep i p q h)
    where
      go : WorkerStep i p q → work q < work p
      go (takes task rest w e f) =
          rw (f, e) (omega (arith, threads_work-set p.threads i waiting (running task) w))
      go (finishes task w f) =
          rw f (omega (arith, threads_work-set p.threads i (running task) waiting w))
      go (returns w e s f) = rw f (omega (arith, threads_work-set p.threads i waiting returned w))

  take_task-ne-none :
      (i : ℕ) (p : Threadpool A) (tasks : List A) → p.stop ≡ true → take_task i tasks p ≢ none
  unfolding take_task
  take_task-ne-none i p [] s h = ground arith
  take_task-ne-none i p (task ∷ rest) s h = ground arith

  -- Once `stop` is set, a thread that has not returned never sleeps.
  pub worker-ne-none :
      (i : ℕ) (p : Threadpool A) (phase : Phase A)
      → p.stop ≡ true
      → get_elem? p.threads i ≡ some phase
      → phase ≢ returned
      → step (worker i) p ≢ none
  unfolding step
  worker-ne-none i p waiting s e n h = take_task-ne-none i p p.task_queue s (ground arith)
  worker-ne-none i p (running task) s e n h = ground arith
  worker-ne-none i p returned s e n h = n refl
