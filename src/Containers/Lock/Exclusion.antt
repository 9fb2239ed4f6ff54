-- ===== src/Containers/Lock/Exclusion.antt =====
-- Which threads are in the table at the same time.
use dag_blockchain.Prelude.{
  >>=-eq-some, Bool, Bool-cases, List, Option, Option-cases, [], ap, arith, false, inl, inr,
  nat_beq_iff, nat_eq, none, refl, some, subst, sym, true, ℕ, ◌==◌, ◌∙◌, ◌∷◌, ◌≡◌,
}
use mathlib.Core.Option.{some-injective}
use dag_blockchain.Containers.Lock.{
  MapMethod, map_keeps_lock, Place, outside, waits, locked, released, accesses, Lock, LockEvent,
  put, next, lock_step, lock_run, unlocked, enter, calls, goes_on,
}

module _ {ℓ} {M : Type ℓ} (keeps_lock : M → Bool) where
  -- The thread needs the mutex for what it does.
  abbrev inside : Place M → Bool
  inside outside = false
  inside (waits m) = false
  inside (locked m) = true
  inside (released m) = keeps_lock m
  inside (accesses m) = keeps_lock m

  abbrev IsGuarded : Lock M → Type 0
  IsGuarded s = (j : ℕ) → inside (s.place j) ≡ true → s.owner ≡ some j

  put-IsGuarded :
      (s : Lock M) (i : ℕ) (here : Place M) (owner : Option ℕ)
      → (inside here ≡ true → owner ≡ some i)
      → ((j : ℕ) → (j == i) ≡ false → inside (s.place j) ≡ true → owner ≡ some j)
      → IsGuarded (record { owner = owner; place = put i here s.place })
  unfolding put
  put-IsGuarded s i here owner mine others j h = elim (Bool-cases (j == i)) [
    | inl same ↦
        let e : i ≡ j = sym ((nat_beq_iff j i).0 same) in
        subst (λ k. owner ≡ some k) e (mine (rw same at h))
    | inr apart ↦ others j apart (rw apart at h)
  ]

  -- Once the owner is known, no other thread is inside.
  alone :
      (s : Lock M) (i j : ℕ) (owner : Option ℕ)
      → IsGuarded s
      → s.owner ≡ some i
      → (j == i) ≡ false
      → inside (s.place j) ≡ true
      → owner ≡ some j
  alone s i j owner guarded mine apart h =
      let e : j ≡ i = some-injective _ _ (sym (guarded j h) ∙ mine) in
      absurd (ground (arith, e, apart))

  state_or : Lock M → Option (Lock M) → Lock M
  state_or s none = s
  state_or s (some s') = s'

  next-IsGuarded :
      (here : Place M) (i : ℕ) (s s' : Lock M)
      → s.place i ≡ here
      → IsGuarded s
      → next keeps_lock here i s ≡ some s'
      → IsGuarded s'
  unfolding next state_or
  next-IsGuarded outside i s s' at guarded h = absurd (cc h)
  next-IsGuarded (waits m) i s s' at guarded h = elim (Option-cases s.owner) [
    | inl free ↦ subst IsGuarded (ap (state_or s') (rw (next, free) at h)) (
        put-IsGuarded s i (locked m) (some i) (λ _. refl)
          (λ j apart inj. absurd (cc (free, guarded j inj))))
    | inr (k, taken) ↦ absurd (cc (rw (next, taken) at h))
  ]
  next-IsGuarded (locked m) i s s' at guarded h =
      let mine : s.owner ≡ some i = guarded i (ap inside at) in
      elim (Bool-cases (keeps_lock m)) [
        | inl keeps ↦
            subst IsGuarded (ap (state_or s') (rw keeps at h))
              (put-IsGuarded s i (accesses m) s.owner (λ _. mine) (λ j _ inj. guarded j inj))
        | inr drops ↦ subst IsGuarded (ap (state_or s') (rw drops at h)) (
            put-IsGuarded s i (released m) none (λ no. absurd (cc (drops, no)))
              (λ j apart inj. alone s i j none guarded mine apart inj))
      ]
  next-IsGuarded (released m) i s s' at guarded h = subst IsGuarded (ap (state_or s') h) (
      put-IsGuarded s i (accesses m) s.owner (λ keeps. guarded i (ap inside at ∙ keeps))
        (λ j _ inj. guarded j inj))
  next-IsGuarded (accesses m) i s s' at guarded h = elim (Bool-cases (keeps_lock m)) [
    | inl keeps ↦ subst IsGuarded (ap (state_or s') (rw keeps at h)) (
        put-IsGuarded s i outside none (λ no. absurd (cc no))
          (λ j apart inj. alone s i j none guarded (guarded i (ap inside at ∙ keeps)) apart inj))
    | inr drops ↦
        subst IsGuarded (ap (state_or s') (rw drops at h))
          (put-IsGuarded s i outside s.owner (λ no. absurd (cc no)) (λ j _ inj. guarded j inj))
  ]

  enter-IsGuarded :
      (here : Place M) (i : ℕ) (m : M) (s s' : Lock M)
      → IsGuarded s
      → enter keeps_lock here i m s ≡ some s'
      → IsGuarded s'
  unfolding enter state_or
  enter-IsGuarded outside i m s s' guarded h =
      subst IsGuarded (ap (state_or s') h)
        (put-IsGuarded s i (waits m) s.owner (λ no. absurd (cc no)) (λ j _ inj. guarded j inj))
  enter-IsGuarded (waits _) i m s s' guarded h = absurd (cc h)
  enter-IsGuarded (locked _) i m s s' guarded h = absurd (cc h)
  enter-IsGuarded (released _) i m s s' guarded h = absurd (cc h)
  enter-IsGuarded (accesses _) i m s s' guarded h = absurd (cc h)

  lock_step-IsGuarded :
      (e : LockEvent M) (s s' : Lock M)
      → IsGuarded s
      → lock_step keeps_lock e s ≡ some s'
      → IsGuarded s'
  unfolding lock_step
  lock_step-IsGuarded (calls i m) s s' guarded h = enter-IsGuarded (s.place i) i m s s' guarded h
  lock_step-IsGuarded (goes_on i) s s' guarded h = next-IsGuarded (s.place i) i s s' refl guarded h

  lock_run-IsGuarded :
      (es : List (LockEvent M)) (s s' : Lock M)
      → IsGuarded s
      → lock_run keeps_lock es s ≡ some s'
      → IsGuarded s'
  unfolding lock_run state_or
  lock_run-IsGuarded [] s s' guarded h = subst IsGuarded (ap (state_or s') h) guarded
  lock_run-IsGuarded (e ∷ es) s s' guarded h =
      let (m, a, b) = >>=-eq-some (lock_step keeps_lock e s) (lock_run keeps_lock es) h in
      lock_run-IsGuarded es m s' (lock_step-IsGuarded e s m guarded a) b

  exclusion :
      (es : List (LockEvent M)) (s : Lock M) (i j : ℕ) (m n : M)
      → lock_run keeps_lock es unlocked ≡ some s
      → s.place i ≡ accesses m
      → s.place j ≡ accesses n
      → keeps_lock m ≡ true
      → keeps_lock n ≡ true
      → i ≡ j
  unfolding unlocked
  exclusion es s i j m n run at at' keeps keeps' =
      let guarded = lock_run-IsGuarded es unlocked s (λ k h. absurd (ground (arith, h))) run in
      let mine : s.owner ≡ some i = guarded i (ap inside at ∙ keeps) in
      let yours : s.owner ≡ some j = guarded j (ap inside at' ∙ keeps') in
      some-injective _ _ (sym mine ∙ yours)

-- Whatever methods of the map threads call, and in whatever order they go on: two threads that are
-- in the table are one.
pub map_exclusion :
    (es : List (LockEvent MapMethod)) (s : Lock MapMethod) (i j : ℕ) (m n : MapMethod)
    → lock_run map_keeps_lock es unlocked ≡ some s
    → s.place i ≡ accesses m
    → s.place j ≡ accesses n
    → i ≡ j
unfolding map_keeps_lock
map_exclusion es s i j m n run at at' = exclusion map_keeps_lock es s i j m n run at at' refl refl
