-- ===== src/Peer/History.antt =====
-- mutual_history of peer.cpp.
pub mod Refs
use dag_blockchain.Prelude.{
  Bool, Bytes, List, Option, [], bytes_eq, false, get_elem?, if◌then◌else◌, leb, none, some, true,
  ℕ, ◌-◌, ◌>>=◌, ◌∷◌,
}
use dag_blockchain.Prelude.Int.{negsuc, pos, ℤ}
use dag_blockchain.Containers.Set.{contains, erase}

-- dag_image[v_round - back], an index outside of the vector included.
unfoldable pub round_set : List (List Bytes) → ℤ → ℕ → Option (List Bytes)
round_set dag (pos n) back = if leb back n then get_elem? dag (n - back) else none
round_set dag (negsuc n) back = none

-- The loop over the references: `known` is the set of the round before, `temp_set` what is left of it.
unfoldable pub check_refs : List Bytes → List Bytes → List Bytes → Bool × List Bytes
check_refs known temp_set [] = (true, temp_set)
check_refs known temp_set (ref ∷ refs) =
    let rest = check_refs known (erase ref temp_set) refs in
    if contains ref known then rest else (false, [])

-- The result, and `temp_set` as the call leaves it.
unfoldable pub mutual_history : ℤ → List Bytes → List (List Bytes) → Option (Bool × List Bytes)
unfolding check_refs
mutual_history v_round v_refs dag = do
  known ← round_set dag v_round 2
  some (check_refs known known v_refs)
