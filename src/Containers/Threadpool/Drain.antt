-- ===== src/Containers/Threadpool/Drain.antt =====
-- The thread pool from its constructor to the end of its destructor.
use dag_blockchain.Prelude.{
  >>=-eq-some, All, List, [], ap, append-nil, arith, false, inl, inr, length, length-replicate,
  length-set, map, refl, replicate, set, some, subst, suc, sym, zero, ℕ, ◌++◌, ◌<◌, ◌>>=◌, ◌∙◌, ◌∷◌,
  ◌≡◌, ◌≢◌, ◌⊎◌,
}
use dag_blockchain.Containers.Threadpool.Order.{run-fifo}
use mathlib.Core.List.{Perm}
use mathlib.Core.List.Perm
use dag_blockchain.Containers.Threadpool.{
  Threadpool, Phase, waiting, running, returned, run, step, Event, enqueues, worker, new_pool,
  enqueued, destroys,
}
use dag_blockchain.Containers.Threadpool.Steps.{
  WorkerStep, takes, finishes, returns, step-WorkerStep,
}
use dag_blockchain.Containers.Threadpool.Accounts.{busy, IsAccounted, run-IsAccounted}

module _ {ℓ} {A : Type ℓ} where
  abbrev IsBack : Phase A → Type ℓ
  IsBack phase = phase ≡ returned

  abbrev IsOut : Phase A → Type ℓ
  IsOut phase = phase ≢ returned

  All-set :
      (phases : List (Phase A)) (i : ℕ) (phase : Phase A)
      → IsOut phase
      → All IsOut phases
      → All IsOut (set phases i phase)
  All-set [] i phase o all = all
  All-set (x ∷ xs) zero phase o all = (o, all.1)
  All-set (x ∷ xs) (suc i) phase o all = (all.0, All-set xs i phase o all.1)

  -- No thread returns before the shutdown.
  abbrev IsOpen : Threadpool A → Type ℓ
  IsOpen p = (p.stop ≡ false) × All IsOut p.threads

  worker-IsOpen : (i : ℕ) (p q : Threadpool A) → WorkerStep i p q → IsOpen p → IsOpen q
  worker-IsOpen i p q (takes task rest w e f) o =
      rw f (o.0, All-set p.threads i (running task) (λ h. cc) o.1)
  worker-IsOpen i p q (finishes task w f) o = rw f (o.0, All-set p.threads i waiting (λ h. cc) o.1)
  worker-IsOpen i p q (returns w e s f) o = absurd (cc (s, o.0))

  -- After it, none returns before the queue is empty.
  abbrev IsClosing : Threadpool A → Type ℓ
  IsClosing p = (p.task_queue ≡ []) ⊎ All IsOut p.threads

  worker-IsClosing : (i : ℕ) (p q : Threadpool A) → WorkerStep i p q → IsClosing p → IsClosing q
  worker-IsClosing i p q (takes task rest w e f) (inl n) = absurd (cc (e, n))
  worker-IsClosing i p q (takes task rest w e f) (inr o) =
      rw f (inr (All-set p.threads i (running task) (λ h. cc) o))
  worker-IsClosing i p q (finishes task w f) (inl n) = rw f (inl n)
  worker-IsClosing i p q (finishes task w f) (inr o) =
      rw f (inr (All-set p.threads i waiting (λ h. cc) o))
  worker-IsClosing i p q (returns w e s f) c = rw f (inl e)

  -- The turns of the threads, by their numbers.
  abbrev pub turns : List ℕ → List (Event A)
  turns is = map worker is

  turns-IsClosing :
      (is : List ℕ) (p q : Threadpool A) → run (turns is) p ≡ some q → IsClosing p → IsClosing q
  unfolding run
  turns-IsClosing [] p q h c = let e : p ≡ q = cc in subst IsClosing e c
  turns-IsClosing (i ∷ is) p q h c =
      let (p', s, r) = >>=-eq-some (step (worker i) p) (run (turns is)) h in
      turns-IsClosing is p' q r (worker-IsClosing i p p' (step-WorkerStep i p p' s) c)

  -- Events before the destructor.
  abbrev pub IsUse : Event A → Type 0
  IsUse (enqueues task) = Unit {0}
  IsUse (worker i) = Unit {0}
  IsUse destroys = ⊥

  run-IsOpen :
      (events : List (Event A)) (p q : Threadpool A)
      → All IsUse events
      → run events p ≡ some q
      → IsOpen p
      → IsOpen q
  unfolding run step
  run-IsOpen [] p q u h o = let e : p ≡ q = cc in subst IsOpen e o
  run-IsOpen (enqueues task ∷ events) p q u h o = run-IsOpen events _ q u.1 h o
  run-IsOpen (worker i ∷ events) p q u h o =
      let (p', s, r) = >>=-eq-some (step (worker i) p) (run events) h in
      run-IsOpen events p' q u.1 r (worker-IsOpen i p p' (step-WorkerStep i p p' s) o)
  run-IsOpen (destroys ∷ events) p q u h o = absurd u.0

  length-worker :
      (i : ℕ) (p q : Threadpool A) → WorkerStep i p q → length q.threads ≡ length p.threads
  length-worker i p q (takes task rest w e f) = rw f (length-set p.threads i (running task))
  length-worker i p q (finishes task w f) = rw f (length-set p.threads i waiting)
  length-worker i p q (returns w e s f) = rw f (length-set p.threads i returned)

  length-threads :
      (events : List (Event A)) (p q : Threadpool A)
      → run events p ≡ some q
      → length q.threads ≡ length p.threads
  unfolding run step
  length-threads [] p q h = let e : p ≡ q = cc in rw e refl
  length-threads (enqueues task ∷ events) p q h = length-threads events _ q h
  length-threads (worker i ∷ events) p q h =
      let (p', s, r) = >>=-eq-some (step (worker i) p) (run events) h in
      length-threads events p' q r ∙ length-worker i p p' (step-WorkerStep i p p' s)
  length-threads (destroys ∷ events) p q h = length-threads events _ q h

  run-append :
      (xs ys : List (Event A)) (p q : Threadpool A)
      → run (xs ++ ys) p ≡ some q
      → (m : Threadpool A) × (run xs p ≡ some m) × (run ys m ≡ some q)
  unfolding run
  run-append [] ys p q h = (p, refl, h)
  run-append (x ∷ xs) ys p q h =
      let (p', s, r) = >>=-eq-some (step x p) (run (xs ++ ys)) h in
      let (m, a, b) = run-append xs ys p' q r in (m, ap (λ o. o >>= run xs) s ∙ a, b)

  busy-IsBack : (phases : List (Phase A)) → All IsBack phases → busy phases ≡ []
  busy-IsBack [] b = refl
  busy-IsBack (waiting ∷ phases) b = absurd (cc b.0)
  busy-IsBack (running task ∷ phases) b = absurd (cc b.0)
  busy-IsBack (returned ∷ phases) b = busy-IsBack phases b.1

  IsOut-replicate : (n : ℕ) (phase : Phase A) → IsOut phase → All IsOut (replicate n phase)
  IsOut-replicate zero phase o = tt
  IsOut-replicate (suc n) phase o = (o, IsOut-replicate n phase o)

  busy-replicate : (n : ℕ) → busy {A = A} (replicate n waiting) ≡ []
  busy-replicate zero = refl
  busy-replicate (suc n) = busy-replicate n

  enqueued-append : (xs ys : List (Event A)) → enqueued (xs ++ ys) ≡ enqueued xs ++ enqueued ys
  enqueued-append [] ys = refl
  enqueued-append (enqueues task ∷ xs) ys = ap (◌∷◌ task) (enqueued-append xs ys)
  enqueued-append (worker i ∷ xs) ys = enqueued-append xs ys
  enqueued-append (destroys ∷ xs) ys = enqueued-append xs ys

  enqueued-turns : (is : List ℕ) → enqueued (turns is) ≡ []
  enqueued-turns [] = refl
  enqueued-turns (i ∷ is) = enqueued-turns is

  closed-empty :
      (p : Threadpool A)
      → IsClosing p
      → All IsBack p.threads
      → 0 < length p.threads
      → p.task_queue ≡ []
  closed-empty p (inl empty) back some_thread = empty
  closed-empty p (inr out) back some_thread = absurd (go p.threads out back some_thread)
    where
      go : (phases : List (Phase A)) → All IsOut phases → All IsBack phases → 0 < length phases → ⊥
      go [] o b h = omega arith
      go (phase ∷ phases) o b h = o.0 b.0

  done : (p : Threadpool A) → All IsBack p.threads → IsAccounted p → Perm p.started p.finished
  done p back a =
      subst (Perm p.started)
        (ap (λ t. p.finished ++ t) (busy-IsBack p.threads back) ∙ append-nil p.finished) a

  order :
      (num_threads : ℕ) (before : List (Event A)) (is : List ℕ) (q : Threadpool A)
      → run (before ++ destroys ∷ turns is) (new_pool num_threads) ≡ some q
      → q.task_queue ≡ []
      → q.started ≡ enqueued before
  order num_threads before is q h empty =
      sym (append-nil q.started)
      ∙ ap (λ t. q.started ++ t) (sym empty)
      ∙ run-fifo num_threads (before ++ destroys ∷ turns is) q h
      ∙ enqueued-append before (destroys ∷ turns is)
      ∙ ap (λ t. enqueued before ++ t) (enqueued-turns is)
      ∙ append-nil (enqueued before)

  -- A pool with a thread is used, then destroyed, and its threads take turns until all of them have
  -- returned: then the queue is empty, and the tasks that were run are those that were enqueued
  -- before, each once.
  pub drained :
      (num_threads : ℕ) (before : List (Event A)) (is : List ℕ) (q : Threadpool A)
      → 0 < num_threads
      → All IsUse before
      → run (before ++ destroys ∷ turns is) (new_pool num_threads) ≡ some q
      → All IsBack q.threads
      → (q.task_queue ≡ []) × Perm q.finished (enqueued before)
  unfolding new_pool run step
  drained num_threads before is q some_thread uses h back =
      let start = new_pool num_threads in
      let (m, first, second) = run-append before (destroys ∷ turns is) start q h in
      let open_start : IsOpen start = (refl, IsOut-replicate num_threads waiting (λ e. cc)) in
      let closing : IsClosing q =
        turns-IsClosing is _ q second (inr (run-IsOpen before start m uses first open_start).1) in
      let threads : length q.threads ≡ num_threads =
        length-threads (before ++ destroys ∷ turns is) start q h
        ∙ length-replicate num_threads waiting in
      let empty : q.task_queue ≡ [] = closed-empty q closing back (omega (arith, threads)) in
      let accounted : IsAccounted q =
        run-IsAccounted (before ++ destroys ∷ turns is) start q h
          (subst (λ t. Perm [] t) (sym (busy-replicate num_threads)) Perm.nil) in
      (
        empty,
        Perm.trans (Perm.symm (done q back accounted))
            (subst (Perm q.started) (order num_threads before is q h empty) (Perm.refl q.started)),
      )
