-- ===== src/Peer/Records.antt =====
-- The counts that write_record of peer.cpp writes down.
use dag_blockchain.Prelude.{
  All, Bytes, List, Option, [], ap, append_assoc, arith, false, get_elem?, get_elem?-append,
  if◌then◌else◌, length, length-append, le→leb, lt-get_elem?, ltb, nat_eq, none, refl, some, suc,
  sym, zero, ℕ, ◌*◌, ◌++◌, ◌+◌, ◌-◌, ◌<◌, ◌==◌, ◌>>=◌, ◌∙◌, ◌∷◌, ◌≡◌, ◌≤◌,
}
use dag_blockchain.Peer.{Peer}
use dag_blockchain.Peer.Turn.Rounds.{IsAligned}

pub record Counts : Type 0 where
  pub total_vertices : ℕ
  pub total_absent_vertices : ℕ
  pub vertex_broadcasts : ℕ
  pub request_multicasts : ℕ
  pub total_messages : ℕ
  pub in_round : ℕ

-- The loop over `count` rounds from number `i`, with the sums so far.
unfoldable pub count_rounds : ℕ → ℕ → ℕ → ℕ → Peer → Option (ℕ × ℕ)
count_rounds zero i vertices absent p = some (vertices, absent)
count_rounds (suc count) i vertices absent p = elim (get_elem? p.dag_image i) [
  | none ↦ none
  | some round ↦
      count_rounds count (i + 1) (vertices + length round)
        (if ltb (length round) p.crowd then absent + (p.crowd - length round) else absent) p
]

-- `none`: an access outside of the DAG, as for dag_image[round - 1] in round 0.
unfoldable pub write_record : ℕ → ℕ → Peer → Option Counts
unfolding count_rounds
write_record requests_answered missing_vertices p = count_rounds p.round 0 0 0 p >>= λ totals.
    if p.round == 0 then none else elim (get_elem? p.dag_image (p.round - 1)) [
      | none ↦ none
      | some round ↦
          let vertex_broadcasts = p.round * (p.crowd - 1) in
          let request_multicasts = p.requests_asked * (2 * p.byzantines + 1) in
          some (record {
            total_vertices = totals.0;
            total_absent_vertices = totals.1;
            vertex_broadcasts = vertex_broadcasts;
            request_multicasts = request_multicasts;
            total_messages =
                vertex_broadcasts + request_multicasts + missing_vertices + requests_answered;
            in_round = length round;
          })
    ]

suc_times : (n c : ℕ) → suc n * c ≡ n * c + c
suc_times n c = omega arith

absent_sum :
    (size crowd absent : ℕ)
    → size ≤ crowd
    → (if ltb size crowd then absent + (crowd - size) else absent) + size ≡ absent + crowd
absent_sum size crowd absent h = ground arith

-- The sums over the rounds that are left.
count_rounds-sum :
    (before rounds : List (List Bytes)) (vertices absent : ℕ) (p : Peer)
    → p.dag_image ≡ before ++ rounds
    → All (λ round. length round ≤ p.crowd) rounds
    → (v : ℕ) × (a : ℕ) × (count_rounds (length rounds) (length before) vertices absent p
        ≡ some (v, a))
      × (v + a ≡ vertices + absent + length rounds * p.crowd)
unfolding count_rounds
count_rounds-sum before [] vertices absent p e fit = (vertices, absent, refl, omega arith)
count_rounds-sum before (round ∷ rounds) vertices absent p e fit =
    let here : get_elem? p.dag_image (length before) ≡ some round =
      ap (λ d. get_elem? d (length before)) e
      ∙ get_elem?-append before (round ∷ rounds) (length before) 0 (omega arith) in
    let absent' =
      if ltb (length round) p.crowd then absent + (p.crowd - length round) else absent in
    let (v, a, run, sum) =
      count_rounds-sum (before ++ round ∷ []) rounds (vertices + length round) absent' p
        (e ∙ sym (append_assoc before (round ∷ []) rounds)) fit.1 in
    let next : length before + 1 ≡ length (before ++ round ∷ []) =
      omega (arith, length-append before (round ∷ [])) in
    (
      v,
      a,
      rw (count_rounds, here)
          (ap (λ i. count_rounds (length rounds) i (vertices + length round) absent' p) next ∙ run),
      omega (
        arith,
        sum,
        suc_times (length rounds) p.crowd,
        absent_sum (length round) p.crowd absent fit.0,
      ),
    )

-- For a peer in a round from the first to the last one, with one set in its DAG for each round so
-- far, and none of them larger than the crowd: write_record makes no access outside of the DAG, and
-- the vertices that it counts and those that it counts as absent are as many as the crowd in each
-- round.
pub write_record_lem :
    (requests_answered missing_vertices : ℕ) (p : Peer)
    → IsAligned p
    → 0 < p.round
    → p.round ≤ p.last_round
    → All (λ round. length round ≤ p.crowd) p.dag_image
    → (counts : Counts) × (write_record requests_answered missing_vertices p ≡ some counts)
      × (counts.total_vertices + counts.total_absent_vertices ≡ p.round * p.crowd)
unfolding write_record
write_record_lem requests_answered missing_vertices p aligned started early fit =
    let size : length p.dag_image ≡ p.round =
      aligned.rounds ∙ rw (le→leb p.round p.last_round early) refl in
    let (v, a, run, sum) = count_rounds-sum [] p.dag_image 0 0 p refl fit in
    let run' : count_rounds p.round 0 0 0 p ≡ some (v, a) =
      ap (λ n. count_rounds n 0 0 0 p) (sym size) ∙ run in
    let (last, found) = lt-get_elem? p.dag_image (p.round - 1) (omega (arith, size)) in
    let begun : (p.round == 0) ≡ false = ground arith in
    let total : v + a ≡ p.round * p.crowd = omega (arith, sum, ap (λ n. n * p.crowd) size) in
    (
      record {
        total_vertices = v;
        total_absent_vertices = a;
        vertex_broadcasts = p.round * (p.crowd - 1);
        request_multicasts = p.requests_asked * (2 * p.byzantines + 1);
        total_messages =
            p.round * (p.crowd - 1)
            + p.requests_asked * (2 * p.byzantines + 1)
            + missing_vertices
            + requests_answered;
        in_round = length last;
      },
      rw (run', begun, found) refl,
      total,
    )
