-- ===== src/Containers/Lock/Race.antt =====
-- Threads that are in the table of a container at the same time, in a method with a temporary lock.
use dag_blockchain.Prelude.{
  Bool, List, Option, [], ap, arith, beq_refl, false, nat_eq, none, refl, some, true, ℕ, ◌==◌,
  ◌>>=◌, ◌∙◌, ◌∷◌, ◌≡◌, ◌≢◌,
}
use dag_blockchain.Containers.Lock.{
  SetMethod, set_keeps_lock, outside, accesses, Lock, LockEvent, calls, goes_on, put, next, enter,
  lock_step, lock_run, Place, waits, locked, released,
}

put_self {ℓ} : {M : Type ℓ} (i : ℕ) (here : Place M) (f : ℕ → Place M) → put i here f i ≡ here
unfolding put
put_self i here f = rw (beq_refl i) refl

put_away {ℓ} :
    {M : Type ℓ} (i j : ℕ) (here : Place M) (f : ℕ → Place M)
    → (j == i) ≡ false
    → put i here f j ≡ f j
unfolding put
put_away i j here f apart = rw apart refl

module _ {ℓ} {M : Type ℓ} (keeps_lock : M → Bool) where
  -- A step of a thread, from its place.
  step-calls :
      (i : ℕ) (m : M) (s : Lock M)
      → s.place i ≡ outside
      → lock_step keeps_lock (calls i m) s ≡ some (record s { place = put i (waits m) s.place })
  unfolding lock_step enter
  step-calls i m s at = ap (λ here. enter keeps_lock here i m s) at

  step-locks :
      (i : ℕ) (m : M) (s : Lock M)
      → s.owner ≡ none
      → s.place i ≡ waits m
      → lock_step keeps_lock (goes_on i) s
        ≡ some (record { owner = some i; place = put i (locked m) s.place })
  unfolding lock_step next
  step-locks i m s free at = ap (λ here. next keeps_lock here i s) at ∙ rw (next, free) refl

  step-releases :
      (i : ℕ) (m : M) (s : Lock M)
      → keeps_lock m ≡ false
      → s.place i ≡ locked m
      → lock_step keeps_lock (goes_on i) s
        ≡ some (record { owner = none; place = put i (released m) s.place })
  unfolding lock_step next
  step-releases i m s drops at = ap (λ here. next keeps_lock here i s) at ∙ rw (next, drops) refl

  step-reads :
      (i : ℕ) (m : M) (s : Lock M)
      → s.place i ≡ released m
      → lock_step keeps_lock (goes_on i) s ≡ some (record s { place = put i (accesses m) s.place })
  unfolding lock_step next
  step-reads i m s at = ap (λ here. next keeps_lock here i s) at

  step-writes :
      (i : ℕ) (m : M) (s : Lock M)
      → keeps_lock m ≡ true
      → s.place i ≡ locked m
      → lock_step keeps_lock (goes_on i) s ≡ some (record s { place = put i (accesses m) s.place })
  unfolding lock_step next
  step-writes i m s keeps at = ap (λ here. next keeps_lock here i s) at ∙ rw (next, keeps) refl

  then-run :
      (e : LockEvent M) (es : List (LockEvent M)) (s s' : Lock M) {o : Option (Lock M)}
      → lock_step keeps_lock e s ≡ some s'
      → lock_run keeps_lock es s' ≡ o
      → lock_run keeps_lock (e ∷ es) s ≡ o
  unfolding lock_run
  then-run e es s s' h r = ap (λ m. m >>= lock_run keeps_lock es) h ∙ r

  run-nil : (s : Lock M) → lock_run keeps_lock [] s ≡ some s
  unfolding lock_run
  run-nil s = refl

  -- A thread by itself: into the table under a temporary lock, and under one that it keeps.
  reader-run :
      (j : ℕ) (n : M) (s : Lock M) (es : List (LockEvent M))
      → s.owner ≡ none
      → s.place j ≡ outside
      → keeps_lock n ≡ false
      → (s' : Lock M) × ((i : ℕ) → (i == j) ≡ false → s'.place i ≡ s.place i)
        × (s'.owner ≡ none)
        × (s'.place j ≡ accesses n)
        × (lock_run keeps_lock (calls j n ∷ goes_on j ∷ goes_on j ∷ goes_on j ∷ es) s
            ≡ lock_run keeps_lock es s')
  reader-run j n s es free out drops =
      let p₁ = put j (waits n) s.place in
      let p₂ = put j (locked n) p₁ in
      let p₃ = put j (released n) p₂ in
      let p₄ = put j (accesses n) p₃ in
      (
        record { owner = none; place = p₄ },
        λ i apart.
            put_away j i (accesses n) p₃ apart
            ∙ put_away j i (released n) p₂ apart
            ∙ put_away j i (locked n) p₁ apart
            ∙ put_away j i (waits n) s.place apart,
        refl,
        put_self j (accesses n) p₃,
        then-run _ _ _ _ (step-calls j n s out) (
            then-run _ _ _ _ (step-locks j n _ free (put_self j (waits n) s.place)) (
              then-run _ _ _ _ (step-releases j n _ drops (put_self j (locked n) p₁))
                (then-run _ _ _ _ (step-reads j n _ (put_self j (released n) p₂)) refl))),
      )

  writer-run :
      (i : ℕ) (m : M) (s : Lock M)
      → s.owner ≡ none
      → s.place i ≡ outside
      → keeps_lock m ≡ true
      → (s' : Lock M) × ((j : ℕ) → (j == i) ≡ false → s'.place j ≡ s.place j)
        × (s'.place i ≡ accesses m)
        × (lock_run keeps_lock (calls i m ∷ goes_on i ∷ goes_on i ∷ []) s ≡ some s')
  writer-run i m s free out keeps =
      let p₁ = put i (waits m) s.place in
      let p₂ = put i (locked m) p₁ in
      let p₃ = put i (accesses m) p₂ in
      (
        record { owner = some i; place = p₃ },
        λ j apart.
            put_away i j (accesses m) p₂ apart
            ∙ put_away i j (locked m) p₁ apart
            ∙ put_away i j (waits m) s.place apart,
        put_self i (accesses m) p₂,
        then-run _ _ _ _ (step-calls i m s out) (
            then-run _ _ _ _ (step-locks i m _ free (put_self i (waits m) s.place))
              (then-run _ _ _ _ (step-writes i m _ keeps (put_self i (locked m) p₁)) (run-nil _))),
      )

  -- The reader gets to the table and stays there, while the writer goes through its lock.
  abbrev pub meeting : ℕ → M → ℕ → M → List (LockEvent M)
  meeting i m j n =
      calls j n ∷ goes_on j ∷ goes_on j ∷ goes_on j ∷ calls i m ∷ goes_on i ∷ goes_on i ∷ []

  lock_race :
      (s : Lock M) (i j : ℕ) (m n : M)
      → s.owner ≡ none
      → s.place i ≡ outside
      → s.place j ≡ outside
      → (i == j) ≡ false
      → keeps_lock m ≡ true
      → keeps_lock n ≡ false
      → (s' : Lock M) × (lock_run keeps_lock (meeting i m j n) s ≡ some s')
        × (s'.place i ≡ accesses m)
        × (s'.place j ≡ accesses n)
  lock_race s i j m n free out out' apart keeps drops =
      let other : (j == i) ≡ false = ground (arith, apart) in
      let (s₁, same, free', reads, run) =
        reader-run j n s (calls i m ∷ goes_on i ∷ goes_on i ∷ []) free out' drops in
      let (s', same', writes, run') = writer-run i m s₁ free' (same i apart ∙ out) keeps in
      (s', run ∙ run', writes, same' j other ∙ reads)

-- From any state in which the mutex of the set is free and two threads are outside of its methods:
-- one of them gets to the table in emplace while the other is in the table in find or size.
pub set_race :
    (s : Lock SetMethod) (i j : ℕ) (n : SetMethod)
    → s.owner ≡ none
    → s.place i ≡ outside
    → s.place j ≡ outside
    → (i == j) ≡ false
    → n ≢ SetMethod.emplace
    → (s' : Lock SetMethod) × (lock_run set_keeps_lock
          (meeting set_keeps_lock i SetMethod.emplace j n)
          s
        ≡ some s')
      × (s'.place i ≡ accesses SetMethod.emplace)
      × (s'.place j ≡ accesses n)
unfolding set_keeps_lock
set_race s i j SetMethod.emplace free out out' apart other = absurd (other refl)
set_race s i j SetMethod.find free out out' apart other =
    lock_race set_keeps_lock s i j SetMethod.emplace SetMethod.find free out out' apart refl refl
set_race s i j SetMethod.size free out out' apart other =
    lock_race set_keeps_lock s i j SetMethod.emplace SetMethod.size free out out' apart refl refl
