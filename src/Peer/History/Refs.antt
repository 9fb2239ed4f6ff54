-- ===== src/Peer/History/Refs.antt =====
-- What mutual_history decides, and what it leaves in `temp_set`.
use dag_blockchain.Prelude.{
  >>=-eq-some, All, Bool, Bytes, List, Option, [], ap, arith, bytes_eq, false, none, not, refl,
  some, true, ◌&&◌, ◌↔◌, ◌∷◌, ◌≡◌,
}
use dag_blockchain.Prelude.Int.{ℤ}
use dag_blockchain.Containers.Set.{contains, erase, IsDistinct, contains-erase, erase-IsDistinct}
use dag_blockchain.Peer.History.{check_refs, mutual_history, round_set}

abbrev pub IsKnown : List Bytes → Bytes → Type 0
IsKnown known ref = contains ref known ≡ true

check_refs_sound :
    (known temp_set refs : List Bytes)
    → (check_refs known temp_set refs).0 ≡ true
    → All (IsKnown known) refs
unfolding check_refs
check_refs_sound known temp_set [] h = tt
check_refs_sound known temp_set (ref ∷ refs) h =
    ground (arith, check_refs_sound known (erase ref temp_set) refs)

check_refs_complete :
    (known temp_set refs : List Bytes)
    → All (IsKnown known) refs
    → (check_refs known temp_set refs).0 ≡ true
unfolding check_refs
check_refs_complete known temp_set [] h = refl
check_refs_complete known temp_set (ref ∷ refs) h =
    ground (arith, check_refs_complete known (erase ref temp_set) refs h.1)

contains-check_refs :
    (known temp_set refs : List Bytes) (h : Bytes)
    → IsDistinct temp_set
    → contains h (check_refs known temp_set refs).1
      ≡ ((check_refs known temp_set refs).0 && (contains h temp_set && not (contains h refs)))
unfolding check_refs contains
contains-check_refs known temp_set [] h d = ground arith
contains-check_refs known temp_set (ref ∷ refs) h d = ground (
  arith,
  contains-check_refs known (erase ref temp_set) refs h (erase-IsDistinct ref temp_set d),
  contains-erase ref h temp_set d,
)

-- Where the set of the round before is there and has no member twice, the call answers whether all
-- references are members of it. If so, it leaves in `temp_set` the members that are not referenced,
-- and else nothing.
pub mutual_history_lem :
    (v_round : ℤ) (refs known : List Bytes) (dag : List (List Bytes))
    → round_set dag v_round 2 ≡ some known
    → IsDistinct known
    → (answer : Bool) × (temp_set : List Bytes) × (mutual_history v_round refs dag
        ≡ some (answer, temp_set))
      × ((answer ≡ true) ↔ All (IsKnown known) refs)
      × ((h : Bytes)
          → contains h temp_set ≡ (answer && (contains h known && not (contains h refs))))
unfolding mutual_history
mutual_history_lem v_round refs known dag e d = (
  (check_refs known known refs).0,
  (check_refs known known refs).1,
  rw e refl,
  (check_refs_sound known known refs, check_refs_complete known known refs),
  λ h. contains-check_refs known known refs h d,
)

abbrev answer_of : Option (Bool × List Bytes) → Bool
answer_of none = false
answer_of (some result) = result.0

abbrev refused : Option (Bool × List Bytes) → Bool
refused none = true
refused (some result) = result.0

-- A check that answers `true` has found the set of the round before, and every reference in it.
pub mutual_history-true :
    (v_round : ℤ) (refs temp_set : List Bytes) (dag : List (List Bytes))
    → mutual_history v_round refs dag ≡ some (true, temp_set)
    → (known : List Bytes) × (round_set dag v_round 2 ≡ some known) × All (IsKnown known) refs
unfolding mutual_history
mutual_history-true v_round refs temp_set dag h =
    let (known, e, r) =
      >>=-eq-some (round_set dag v_round 2) (λ known. some (check_refs known known refs)) h in
    (known, e, check_refs_sound known known refs (ap answer_of r))

-- A check that answers `false` has found the set of the round before, and a reference that is not in
-- it.
pub mutual_history-false :
    (v_round : ℤ) (refs temp_set : List Bytes) (dag : List (List Bytes))
    → mutual_history v_round refs dag ≡ some (false, temp_set)
    → (known : List Bytes) × (round_set dag v_round 2 ≡ some known) × ¬ All (IsKnown known) refs
unfolding mutual_history
mutual_history-false v_round refs temp_set dag h =
    let (known, e, r) =
      >>=-eq-some (round_set dag v_round 2) (λ known. some (check_refs known known refs)) h in
    (
      known,
      e,
      λ all.
          let f = ap refused r in
          let c = check_refs_complete known known refs all in absurd (cc (f, c)),
    )
