-- ===== src/Containers/Threadpool/Accounts.antt =====
-- The tasks that the pool has started: those that are done and those that run.
use dag_blockchain.Prelude.{
  >>=-eq-some, List, [], ap, append_assoc, arith, get_elem?, refl, set, some, subst, suc, zero, ℕ,
  ◌++◌, ◌∷◌, ◌≡◌,
}
use mathlib.Core.List.{Perm, perm_append_comm, perm_middle}
use mathlib.Core.List.Perm
use dag_blockchain.Containers.Threadpool.{
  Threadpool, Phase, waiting, running, returned, run, step, Event, enqueues, worker, destroys,
}
use dag_blockchain.Containers.Threadpool.Steps.{
  WorkerStep, takes, finishes, returns, step-WorkerStep,
}

module _ {ℓ} {A : Type ℓ} where
  -- The tasks inside `execute`.
  abbrev pub busy : List (Phase A) → List A
  busy [] = []
  busy (waiting ∷ phases) = busy phases
  busy (running task ∷ phases) = task ∷ busy phases
  busy (returned ∷ phases) = busy phases

  busy-add :
      (phases : List (Phase A)) (i : ℕ) (task : A)
      → get_elem? phases i ≡ some waiting
      → Perm (busy (set phases i (running task))) (task ∷ busy phases)
  busy-add [] i task h = absurd (ground arith)
  busy-add (waiting ∷ xs) zero task h = Perm.refl _
  busy-add (running u ∷ xs) zero task h = absurd (ground arith)
  busy-add (returned ∷ xs) zero task h = absurd (ground arith)
  busy-add (waiting ∷ xs) (suc i) task h = busy-add xs i task h
  busy-add (running u ∷ xs) (suc i) task h =
      Perm.trans (Perm.cons u (busy-add xs i task h)) (Perm.swap task u (busy xs))
  busy-add (returned ∷ xs) (suc i) task h = busy-add xs i task h

  busy-remove :
      (phases : List (Phase A)) (i : ℕ) (task : A)
      → get_elem? phases i ≡ some (running task)
      → Perm (busy phases) (task ∷ busy (set phases i waiting))
  busy-remove [] i task h = absurd (ground arith)
  busy-remove (waiting ∷ xs) zero task h = absurd (ground arith)
  busy-remove (running u ∷ xs) zero task h = let e : u ≡ task = ground arith in rw e (Perm.refl _)
  busy-remove (returned ∷ xs) zero task h = absurd (ground arith)
  busy-remove (waiting ∷ xs) (suc i) task h = busy-remove xs i task h
  busy-remove (running u ∷ xs) (suc i) task h =
      Perm.trans (Perm.cons u (busy-remove xs i task h)) (Perm.swap task u _)
  busy-remove (returned ∷ xs) (suc i) task h = busy-remove xs i task h

  busy-return :
      (phases : List (Phase A)) (i : ℕ)
      → get_elem? phases i ≡ some waiting
      → busy (set phases i returned) ≡ busy phases
  busy-return [] i h = absurd (ground arith)
  busy-return (waiting ∷ xs) zero h = refl
  busy-return (running u ∷ xs) zero h = absurd (ground arith)
  busy-return (returned ∷ xs) zero h = absurd (ground arith)
  busy-return (waiting ∷ xs) (suc i) h = busy-return xs i h
  busy-return (running u ∷ xs) (suc i) h = ap (◌∷◌ u) (busy-return xs i h)
  busy-return (returned ∷ xs) (suc i) h = busy-return xs i h

  -- The tasks that were started are those that are done and those that run.
  abbrev pub IsAccounted : Threadpool A → Type ℓ
  IsAccounted p = Perm p.started (p.finished ++ busy p.threads)

  worker-IsAccounted :
      (i : ℕ) (p q : Threadpool A) → WorkerStep i p q → IsAccounted p → IsAccounted q
  worker-IsAccounted i p q (takes task rest w e f) a = rw f (
      Perm.trans (perm_append_comm p.started (task ∷ [])) (
        Perm.trans (Perm.cons task a) (
          Perm.trans (Perm.symm (perm_middle p.finished (busy p.threads)))
            (Perm.append_left p.finished (Perm.symm (busy-add p.threads i task w))))))
  worker-IsAccounted i p q (finishes task w f) a =
      rw (f, append_assoc p.finished (task ∷ []) (busy (set p.threads i waiting)))
        (Perm.trans a (Perm.append_left p.finished (busy-remove p.threads i task w)))
  worker-IsAccounted i p q (returns w e s f) a = rw (f, busy-return p.threads i w) a

  pub run-IsAccounted :
      (events : List (Event A)) (p q : Threadpool A)
      → run events p ≡ some q
      → IsAccounted p
      → IsAccounted q
  unfolding run step
  run-IsAccounted [] p q h a = let e : p ≡ q = cc in subst IsAccounted e a
  run-IsAccounted (enqueues task ∷ events) p q h a = run-IsAccounted events _ q h a
  run-IsAccounted (worker i ∷ events) p q h a =
      let (p', s, r) = >>=-eq-some (step (worker i) p) (run events) h in
      run-IsAccounted events p' q r (worker-IsAccounted i p p' (step-WorkerStep i p p' s) a)
  run-IsAccounted (destroys ∷ events) p q h a = run-IsAccounted events _ q h a
