-- ===== src/Tests/Pools.antt =====
-- The theorems about the containers and the quorums at concrete inputs.
use dag_blockchain.Prelude.{
  List, [], arith, bytes_eq, false, nat_eq, none, refl, some, true, ℕ, ◌%◌, ◌&&◌, ◌++◌, ◌+◌, ◌-◌,
  ◌==◌, ◌||◌, ◌∷◌, ◌≡◌, ◌≢◌, ◌≤◌,
}
use dag_blockchain.Network.Quorum.Overlap.{
  count_members, first_peers, later_peers, quorum_overlap, quorum_gap,
}
use dag_blockchain.Containers.Threadpool.Order.{run-fifo}
use dag_blockchain.Containers.Threadpool.Drain.{drained, turns}
use dag_blockchain.Network.Quorum.{majority, max_byzantines}
use dag_blockchain.Containers.Threadpool.{
  Event, Threadpool, run, enqueued, step, enqueues, returned, enqueue, running, worker_thread,
  waiting, worker, take_task, destroy, new_pool, destroys, Phase,
}
use dag_blockchain.Containers.Map.{find, insert, size, size-insert, Map}
use dag_blockchain.Containers.Set.{contains, emplace, contains-emplace}
use mathlib.Core.List.{Perm}

abbrev use_of_pool : List (Event ℕ)
use_of_pool = enqueues 5 ∷ worker 0 ∷ enqueues 6 ∷ []

abbrev end_of_pool : Threadpool ℕ
end_of_pool = record {
  task_queue = [];
  stop = true;
  threads = returned ∷ returned ∷ [];
  started = 5 ∷ 6 ∷ [];
  finished = 5 ∷ 6 ∷ [];
}

pool_run :
    run (use_of_pool ++ destroys ∷ turns (0 ∷ 1 ∷ 0 ∷ 1 ∷ 1 ∷ [])) (new_pool 2) ≡ some end_of_pool
unfolding run step enqueue worker_thread take_task destroy new_pool
pool_run = refl

drained_example : (end_of_pool.task_queue ≡ []) × Perm end_of_pool.finished (enqueued use_of_pool)
drained_example =
    drained 2 use_of_pool (0 ∷ 1 ∷ 0 ∷ 1 ∷ 1 ∷ []) end_of_pool (omega arith) (tt, (tt, (tt, tt)))
      pool_run (refl, (refl, tt))

-- A pool with a task that runs and one in the queue.
abbrev busy_pool : Threadpool ℕ
busy_pool = record {
  task_queue = 6 ∷ [];
  stop = false;
  threads = running 5 ∷ waiting ∷ [];
  started = 5 ∷ [];
  finished = [];
}

busy_run : run use_of_pool (new_pool 2) ≡ some busy_pool
unfolding run step enqueue worker_thread take_task destroy new_pool
busy_run = refl

run-fifo_example : busy_pool.started ++ busy_pool.task_queue ≡ enqueued use_of_pool
run-fifo_example = run-fifo 2 use_of_pool busy_pool busy_run

abbrev closing_pool : Threadpool ℕ
closing_pool = record busy_pool { stop = true }

abbrev later_pool : Threadpool ℕ
later_pool = record closing_pool {
  task_queue = [];
  threads = running 5 ∷ running 6 ∷ [];
  started = 5 ∷ 6 ∷ [];
}

closing_step : step (worker 1) closing_pool ≡ some later_pool
unfolding step worker_thread take_task
closing_step = refl

abbrev idle : Phase ℕ
idle = waiting

waiting-ne-returned : idle ≢ returned
waiting-ne-returned e = cc

first_quorum : majority 4 ≤ count_members 4 (first_peers 3)
unfolding majority max_byzantines count_members
first_quorum = omega arith

later_quorum : majority 4 ≤ count_members 4 (later_peers 1)
unfolding majority max_byzantines count_members
later_quorum = omega arith

quorum_overlap_example :
    max_byzantines 4 + 1 ≤ count_members 4 (λ i. first_peers 3 i && later_peers 1 i)
quorum_overlap_example =
    quorum_overlap 1 4 (first_peers 3) (later_peers 1) refl first_quorum later_quorum

six_mod_three : ◌≢◌ {A = ℕ} (6 % 3) 1
six_mod_three e = omega arith

quorum_gap_example :
    (majority 6 ≤ count_members 6 (first_peers (majority 6)))
    × (majority 6 ≤ count_members 6 (later_peers (6 - majority 6)))
    × (count_members 6 (λ i. first_peers (majority 6) i && later_peers (6 - majority 6) i)
        ≤ max_byzantines 6)
quorum_gap_example = quorum_gap 6 (omega arith) six_mod_three

abbrev small_map : Map ℕ ℕ
small_map = (3, 30) ∷ (4, 40) ∷ []

abbrev new_key : ℕ
new_key = 5

abbrev old_key : ℕ
old_key = 4

abbrev small_set : List ℕ
small_set = 3 ∷ 4 ∷ []

size-insert_example :
    size (insert new_key 50 small_map)
    ≡ elim (find new_key small_map) [ none ↦ size small_map + 1 | some v ↦ size small_map ]
size-insert_example = size-insert new_key 50 small_map

contains-emplace_example :
    contains old_key (emplace new_key small_set)
    ≡ (new_key == old_key || contains old_key small_set)
contains-emplace_example = contains-emplace new_key old_key small_set
