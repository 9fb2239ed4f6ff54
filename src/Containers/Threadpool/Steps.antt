-- ===== src/Containers/Threadpool/Steps.antt =====
-- What one step of a thread can be.
use dag_blockchain.Prelude.{
  Bool-cases, List, Option, [], arith, get_elem?, inl, inr, none, refl, set, some, true, ℕ, ◌++◌,
  ◌∷◌, ◌≡◌,
}
use dag_blockchain.Containers.Threadpool.{
  Threadpool, Phase, waiting, running, returned, worker, take_task, step,
}

module _ {ℓ} {A : Type ℓ} where
  pub data WorkerStep (i : ℕ) (p q : Threadpool A) : Type ℓ where
    takes :
        (task : A) (rest : List A)
        → get_elem? p.threads i ≡ some waiting
        → p.task_queue ≡ task ∷ rest
        → q ≡ record p {
          task_queue = rest;
          threads = set p.threads i (running task);
          started = p.started ++ task ∷ [];
        }
        → WorkerStep i p q
    finishes :
        (task : A)
        → get_elem? p.threads i ≡ some (running task)
        → q ≡ record p { threads = set p.threads i waiting; finished = p.finished ++ task ∷ [] }
        → WorkerStep i p q
    returns :
        get_elem? p.threads i ≡ some waiting
        → p.task_queue ≡ []
        → p.stop ≡ true
        → q ≡ record p { threads = set p.threads i returned }
        → WorkerStep i p q

  take_task-WorkerStep :
      (i : ℕ) (p q : Threadpool A) (tasks : List A)
      → get_elem? p.threads i ≡ some waiting
      → p.task_queue ≡ tasks
      → take_task i tasks p ≡ some q
      → WorkerStep i p q
  unfolding take_task
  take_task-WorkerStep i p q [] w e h = elim (Bool-cases p.stop) [
    | inl s ↦ returns w e s (ground (arith, s))
    | inr s ↦ absurd (ground (arith, s))
  ]
  take_task-WorkerStep i p q (task ∷ rest) w e h = takes task rest w e (cc)

  phase-WorkerStep :
      (i : ℕ) (p q : Threadpool A) (phase : Option (Phase A))
      → get_elem? p.threads i ≡ phase
      → step (worker i) p ≡ some q
      → WorkerStep i p q
  unfolding step
  phase-WorkerStep i p q none e h = absurd (ground arith)
  phase-WorkerStep i p q (some waiting) e h =
      take_task-WorkerStep i p q p.task_queue e refl (ground arith)
  phase-WorkerStep i p q (some (running task)) e h = finishes task e (ground arith)
  phase-WorkerStep i p q (some returned) e h = absurd (ground arith)

  pub step-WorkerStep : (i : ℕ) (p q : Threadpool A) → step (worker i) p ≡ some q → WorkerStep i p q
  step-WorkerStep i p q h = phase-WorkerStep i p q (get_elem? p.threads i) refl h
