-- ===== src/Containers/Threadpool.antt =====
-- Threadpool of threadsafe.h as a state machine: each event is one critical section of a thread, or
-- the run of one task. A task is a value; what it does when it runs is no part of the pool.
pub mod Steps
pub mod Order
pub mod Shutdown
pub mod Accounts
pub mod Drain
use dag_blockchain.Prelude.{
  Bool, List, Option, [], false, get_elem?, if◌then◌else◌, none, replicate, set, some, true, ℕ,
  ◌++◌, ◌>>=◌, ◌∷◌,
}

-- A thread of the pool: at `qcv.wait`, inside `task.execute()`, or past its `return`.
pub data Phase {ℓ} (A : Type ℓ) : Type ℓ where
  waiting : Phase A
  running : A → Phase A
  returned : Phase A

pub record Threadpool {ℓ} (A : Type ℓ) : Type ℓ where
  pub task_queue : List A
  pub stop : Bool
  pub threads : List (Phase A)
  -- The tasks in the order in which they were popped, and in which their runs ended.
  pub started : List A
  pub finished : List A

pub data Event {ℓ} (A : Type ℓ) : Type ℓ where
  enqueues : A → Event A
  worker : ℕ → Event A
  destroys : Event A

module _ {ℓ} {A : Type ℓ} where
  -- Threadpool(num_threads)
  unfoldable pub new_pool : ℕ → Threadpool A
  new_pool num_threads = record {
    task_queue = [];
    stop = false;
    threads = replicate num_threads waiting;
    started = [];
    finished = [];
  }

  unfoldable pub enqueue : A → Threadpool A → Threadpool A
  enqueue task p = record p { task_queue = p.task_queue ++ task ∷ [] }

  -- The body of the loop of worker_thread from the wake-up to the unlock. `none`: the thread sleeps.
  unfoldable pub take_task : ℕ → List A → Threadpool A → Option (Threadpool A)
  take_task i [] p = if p.stop then some (record p { threads = set p.threads i returned }) else none
  take_task i (task ∷ rest) p = some (record p {
    task_queue = rest;
    threads = set p.threads i (running task);
    started = p.started ++ task ∷ [];
  })

  -- One step of thread `i`.
  unfoldable pub worker_thread : ℕ → Threadpool A → Option (Threadpool A)
  unfolding take_task
  worker_thread i p = elim (get_elem? p.threads i) [
    | none ↦ none
    | some phase ↦ elim phase [
      | waiting ↦ take_task i p.task_queue p
      | running task ↦
          some (record p { threads = set p.threads i waiting; finished = p.finished ++ task ∷ [] })
      | returned ↦ none
    ]
  ]

  -- ~Threadpool up to the joins: `stop` is set and all threads are woken.
  unfoldable pub destroy : Threadpool A → Threadpool A
  destroy p = record p { stop = true }

  unfoldable pub step : Event A → Threadpool A → Option (Threadpool A)
  unfolding enqueue worker_thread destroy
  step (enqueues task) p = some (enqueue task p)
  step (worker i) p = worker_thread i p
  step destroys p = some (destroy p)

  unfoldable pub run : List (Event A) → Threadpool A → Option (Threadpool A)
  run [] p = some p
  run (event ∷ events) p = step event p >>= run events

  -- The tasks that the events enqueue.
  abbrev pub enqueued : List (Event A) → List A
  enqueued [] = []
  enqueued (enqueues task ∷ events) = task ∷ enqueued events
  enqueued (worker i ∷ events) = enqueued events
  enqueued (destroys ∷ events) = enqueued events
