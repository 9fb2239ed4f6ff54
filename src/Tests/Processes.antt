-- ===== src/Tests/Processes.antt =====
-- The theorems about the processes at concrete inputs.
use dag_blockchain.Prelude.{
  Bool, Bytes, List, [], arith, bytes_eq, concat, false, if◌then◌else◌, ltb, map, nat_eq, refl,
  replicate, some, suc, true, zero, ℕ, ◌%◌, ◌++◌, ◌/◌, ◌∷◌, ◌≡◌,
}
use dag_blockchain.Prelude.Int.{pos, pos_part, ℤ}
use mathlib.Core.List.Perm
use mathlib.Core.List.{Perm, perm_append_comm}
use dag_blockchain.Peer.Digest.Sorting.{SameSets, SameSets-hash_dag}
use dag_blockchain.Peer.Digest.{hash_dag}
use dag_blockchain.Containers.Set.{IsDistinct, contains}
use dag_blockchain.Main.Children.{Child, IsPrinting, run_children, run_children_lem}
use dag_blockchain.Main.Statuses.{WaitMacros, pids, report, statuses, heading}
use dag_blockchain.Main.Statuses.Table.{Ended, exits, killed, entries, IsAscending}
use dag_blockchain.Main.Statuses.Report.{report_lem, line}
use dag_blockchain.Tests.Data.{toy}

toy-IsPrinting : IsPrinting toy
toy-IsPrinting [] = tt
toy-IsPrinting (b ∷ bs) = (ground arith, (ground arith, toy-IsPrinting bs))

-- Twelve rounds without vertices behind one with two of them.
abbrev some_dag : List Bytes → List (List Bytes)
some_dag s = s ∷ replicate 12 []

abbrev two_children : List Child
two_children =
    record { fail = true; dag = [] }
    ∷ (record { fail = false; dag = some_dag ((2 ∷ []) ∷ (1 ∷ []) ∷ []) } ∷ [])

empty_rounds : (n : ℕ) → SameSets (replicate n []) (replicate n [])
empty_rounds zero = tt
empty_rounds (suc n) = (Perm.refl _, empty_rounds n)

SameSets-hash_dag_example :
    hash_dag toy (some_dag ((1 ∷ []) ∷ (2 ∷ []) ∷ []))
    ≡ hash_dag toy (some_dag ((2 ∷ []) ∷ (1 ∷ []) ∷ []))
SameSets-hash_dag_example =
    SameSets-hash_dag toy (some_dag ((1 ∷ []) ∷ (2 ∷ []) ∷ []))
      (some_dag ((2 ∷ []) ∷ (1 ∷ []) ∷ []))
      (perm_append_comm ((1 ∷ []) ∷ []) ((2 ∷ []) ∷ []), empty_rounds 12)

run_children_lem_example : run_children toy two_children ≡ some true
run_children_lem_example =
    run_children_lem toy (some_dag ((1 ∷ []) ∷ (2 ∷ []) ∷ [])) two_children toy-IsPrinting
      (omega arith) (omega arith)
      (
        λ worked. absurd (cc worked),
        (λ worked. (perm_append_comm ((1 ∷ []) ∷ []) ((2 ∷ []) ∷ []), empty_rounds 12), tt),
      )
      (omega arith) (omega arith)

-- Whether the last seven bits of a status are not zero.
abbrev is_low : ℤ → Bool
is_low status = ltb 0 (pos_part status % 128)

-- The macros of Linux, for statuses that are not negative, nor those of a stopped child.
abbrev plain_macros : WaitMacros
plain_macros = record {
  w_if_exited = λ status. if is_low status then pos 0 else pos 1;
  w_exit_status = λ status. pos (pos_part status / 256 % 256);
  w_if_signaled = λ status. if is_low status then pos 1 else pos 0;
  w_term_sig = λ status. pos (pos_part status % 128);
}

-- One child has exited with 3, one was killed by signal 9, and one has exited with 0.
abbrev three_ended : List Ended
three_ended =
    record { pid = 71; status = pos 768; way = exits }
    ∷ record { pid = 70; status = pos 9; way = killed }
    ∷ record { pid = 72; status = pos 0; way = exits }
    ∷ []

three_ended-IsDistinct : IsDistinct (pids (entries three_ended))
unfolding contains
three_ended-IsDistinct = (refl, (refl, (refl, tt)))

report_lem_example :
    (table : List Ended) × Perm table three_ended
    × IsAscending table
    × (report plain_macros (statuses (entries three_ended) [])
        ≡ heading ++ concat (map (line plain_macros) table))
report_lem_example =
    report_lem plain_macros three_ended three_ended-IsDistinct (refl, ((refl, refl), (refl, tt)))
