-- ===== src/Containers/Lock.antt =====
-- The mutex in the methods of Unordered_map and Unordered_set of threadsafe.h, one step at a time.
pub mod Exclusion
pub mod Race
use dag_blockchain.Prelude.{
  Bool, List, Option, [], false, if◌then◌else◌, nat_eq, none, some, true, ℕ, ◌==◌, ◌>>=◌, ◌∷◌,
}

pub data MapMethod : Type 0 where
  insert : MapMethod
  find : MapMethod
  size : MapMethod
  begin : MapMethod
  end : MapMethod

pub data SetMethod : Type 0 where
  emplace : SetMethod
  find : SetMethod
  size : SetMethod

-- Is the lock a variable, which lives to the end of the method, or a temporary, which is gone at the
-- end of its statement?
unfoldable pub map_keeps_lock : MapMethod → Bool
map_keeps_lock m = true

unfoldable pub set_keeps_lock : SetMethod → Bool
set_keeps_lock SetMethod.emplace = true
set_keeps_lock SetMethod.find = false
set_keeps_lock SetMethod.size = false

-- Where a thread is: outside of the methods, before the lock, behind it, behind the end of the
-- temporary, and in the table.
pub data Place {ℓ} (M : Type ℓ) : Type ℓ where
  outside : Place M
  waits : M → Place M
  locked : M → Place M
  released : M → Place M
  accesses : M → Place M

-- The mutex with the thread that has it, and the place of each thread.
pub record Lock {ℓ} (M : Type ℓ) : Type ℓ where
  pub owner : Option ℕ
  pub place : ℕ → Place M

pub data LockEvent {ℓ} (M : Type ℓ) : Type ℓ where
  calls : ℕ → M → LockEvent M
  goes_on : ℕ → LockEvent M

unfoldable pub put {ℓ} : {M : Type ℓ} → ℕ → Place M → (ℕ → Place M) → ℕ → Place M
put i here place j = if j == i then here else place j

module _ {ℓ} {M : Type ℓ} (keeps_lock : M → Bool) where
  -- The next step of a thread. `none`: it has none, or waits for the mutex.
  unfoldable pub next : Place M → ℕ → Lock M → Option (Lock M)
  next outside i s = none
  next (waits m) i s = elim s.owner [
    | none ↦ some (record { owner = some i; place = put i (locked m) s.place })
    | some other ↦ none
  ]
  next (locked m) i s =
      if keeps_lock m
      then some (record s { place = put i (accesses m) s.place })
      else some (record { owner = none; place = put i (released m) s.place })
  next (released m) i s = some (record s { place = put i (accesses m) s.place })
  next (accesses m) i s =
      if keeps_lock m
      then some (record { owner = none; place = put i outside s.place })
      else some (record s { place = put i outside s.place })

  -- A thread that is outside may call a method.
  unfoldable pub enter : Place M → ℕ → M → Lock M → Option (Lock M)
  enter outside i m s = some (record s { place = put i (waits m) s.place })
  enter _ i m s = none

  unfoldable pub lock_step : LockEvent M → Lock M → Option (Lock M)
  unfolding next enter
  lock_step (calls i m) s = enter (s.place i) i m s
  lock_step (goes_on i) s = next (s.place i) i s

  unfoldable pub lock_run : List (LockEvent M) → Lock M → Option (Lock M)
  unfolding lock_step
  lock_run [] s = some s
  lock_run (e ∷ es) s = lock_step e s >>= lock_run es

unfoldable pub unlocked {ℓ} : {M : Type ℓ} → Lock M
unlocked = record { owner = none; place = λ i. outside }
