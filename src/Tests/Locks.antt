-- ===== src/Tests/Locks.antt =====
-- The theorems about the mutexes at concrete inputs.
use dag_blockchain.Prelude.{[], nat_eq, none, refl, some, ℕ, ◌∷◌, ◌≡◌, ◌≢◌}
use dag_blockchain.Containers.Lock.{
  Lock, MapMethod, SetMethod, accesses, calls, enter, goes_on, lock_run, lock_step, locked,
  map_keeps_lock, next, outside, put, set_keeps_lock, unlocked, waits,
}
use dag_blockchain.Containers.Lock.Exclusion.{map_exclusion}
use dag_blockchain.Containers.Lock.Race.{meeting, set_race}

-- Thread 5 inserts.
abbrev inserting : Lock MapMethod
inserting = record {
  owner = some 5;
  place =
      put 5 (accesses MapMethod.insert)
        (put 5 (locked MapMethod.insert) (put 5 (waits MapMethod.insert) (λ i. outside)));
}

inserting_run :
    lock_run map_keeps_lock (calls 5 MapMethod.insert ∷ goes_on 5 ∷ goes_on 5 ∷ []) unlocked
    ≡ some inserting
unfolding lock_run lock_step enter next put map_keeps_lock unlocked
inserting_run = refl

inserting-at : inserting.place 5 ≡ accesses MapMethod.insert
unfolding put
inserting-at = refl

map_exclusion_example : ◌≡◌ {A = ℕ} 5 5
map_exclusion_example =
    map_exclusion (calls 5 MapMethod.insert ∷ goes_on 5 ∷ goes_on 5 ∷ []) inserting 5 5
      MapMethod.insert MapMethod.insert inserting_run inserting-at inserting-at

unlocked-free : (unlocked {M = SetMethod}).owner ≡ none
unfolding unlocked
unlocked-free = refl

unlocked-outside : (i : ℕ) → (unlocked {M = SetMethod}).place i ≡ outside
unfolding unlocked
unlocked-outside i = refl

find_is_other : SetMethod.find ≢ SetMethod.emplace
find_is_other h = cc h

set_race_example :
    (s : Lock SetMethod) × (lock_run set_keeps_lock
        (meeting set_keeps_lock 5 SetMethod.emplace 6 SetMethod.find)
        unlocked
      ≡ some s)
    × (s.place 5 ≡ accesses SetMethod.emplace)
    × (s.place 6 ≡ accesses SetMethod.find)
set_race_example =
    set_race unlocked 5 6 SetMethod.find unlocked-free (unlocked-outside 5) (unlocked-outside 6)
      refl find_is_other
