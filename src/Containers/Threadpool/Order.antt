-- ===== src/Containers/Threadpool/Order.antt =====
-- The order of the tasks in the queue of the pool.
use dag_blockchain.Prelude.{
  >>=-eq-some, List, [], ap, append-nil, append_assoc, refl, some, sym, ℕ, ◌++◌, ◌∙◌, ◌∷◌, ◌≡◌,
}
use dag_blockchain.Containers.Threadpool.{
  Threadpool, Event, enqueues, worker, destroys, step, run, enqueued, new_pool,
}
use dag_blockchain.Containers.Threadpool.Steps.{
  step-WorkerStep, WorkerStep, takes, finishes, returns,
}

module _ {ℓ} {A : Type ℓ} where
  -- A step of a thread moves at most the head of the queue to the tasks that were started.
  worker-order :
      (i : ℕ) (p q : Threadpool A)
      → WorkerStep i p q
      → q.started ++ q.task_queue ≡ p.started ++ p.task_queue
  worker-order i p q (takes task rest w e f) = rw (f, e) (append_assoc p.started (task ∷ []) rest)
  worker-order i p q (finishes task w f) = rw f refl
  worker-order i p q (returns w e s f) = rw f refl

  run-order :
      (events : List (Event A)) (p q : Threadpool A)
      → run events p ≡ some q
      → q.started ++ q.task_queue ≡ p.started ++ (p.task_queue ++ enqueued events)
  unfolding run step
  run-order [] p q h = rw (append-nil p.task_queue) (cc)
  run-order (enqueues task ∷ events) p q h =
      run-order events _ q h
      ∙ ap (λ t. p.started ++ t) (append_assoc p.task_queue (task ∷ []) (enqueued events))
  run-order (worker i ∷ events) p q h =
      let (p', s, r) = >>=-eq-some (step (worker i) p) (run events) h in
      run-order events p' q r
      ∙ sym (append_assoc p'.started p'.task_queue (enqueued events))
      ∙ ap (λ t. t ++ enqueued events) (worker-order i p p' (step-WorkerStep i p p' s))
      ∙ append_assoc p.started p.task_queue (enqueued events)
  run-order (destroys ∷ events) p q h = run-order events _ q h

  -- Whatever the threads of a new pool do: the tasks started so far, followed by those still
  -- queued, are the tasks that were enqueued, in that order.
  pub run-fifo :
      (num_threads : ℕ) (events : List (Event A)) (q : Threadpool A)
      → run events (new_pool num_threads) ≡ some q
      → q.started ++ q.task_queue ≡ enqueued events
  unfolding new_pool
  run-fifo num_threads events q h = run-order events (new_pool num_threads) q h
