-- ===== src/Tests/Peers.antt =====
-- The theorems about the peer at concrete inputs.
use dag_blockchain.Prelude.{
  All, Bool, Bytes, List, [], arith, bytes_eq, false, length, nat_eq, none, not, refl, replicate,
  some, true, ℕ, ◌&&◌, ◌++◌, ◌↔◌, ◌∷◌, ◌≡◌,
}
use dag_blockchain.Prelude.Int.{pos}
use dag_blockchain.Peer.Order.Sockets.{erased, erase_socket_lem}
use dag_blockchain.Peer.Order.{erase_socket}
use dag_blockchain.Bytes.Decimal.{to_string_ℤ, to_string}
use dag_blockchain.Peer.Digest.Sorting.{hash_dag_undefined}
use dag_blockchain.Peer.Scan.Bounds.{scan_buffer_total, scan_vertex_undefined, InRange}
use dag_blockchain.Peer.History.Refs.{IsKnown, mutual_history_lem}
use dag_blockchain.Peer.Scan.Closure.{IsSettled, scan_buffer_lem}
use dag_blockchain.Peer.Digest.{hash_dag}
use dag_blockchain.Containers.Set.{contains, IsDistinct, emplace, erase}
use dag_blockchain.Peer.History.{round_set, mutual_history, check_refs}
use dag_blockchain.Peer.Scan.Growth.{Grows}
use dag_blockchain.Peer.Scan.{ScanState, scan_buffer, scan_vertex, admit, help_creator, add_hash}
use dag_blockchain.Vertex.{Vertex, hash, hash_256, key}
use dag_blockchain.Tests.Data.{name_of, first_round, toy, second_round}
use mathlib.Core.List.{Perm}
use dag_blockchain.Bytes.Decimal.{to_string, to_string_ℤ}

-- The first round of three peers, and an empty second round.
abbrev pub small_dag : List (List Bytes)
small_dag = (name_of 1 1 ∷ name_of 1 2 ∷ name_of 1 3 ∷ []) ∷ [] ∷ []

abbrev pub early_vertex : Vertex
early_vertex = record { round = pos 5; peer_id = 3; payload = []; references = [] }

abbrev pub small_buffer : List Vertex
small_buffer = first_round 4 ∷ early_vertex ∷ second_round ∷ []

abbrev before_scan : ScanState
before_scan = record {
  dag_image = small_dag;
  missing = [];
  kept = [];
  added = [];
  helped = [];
  draws = 0;
}

-- The first vertex of peer 4 is in the DAG, and the second one of peer 2; its history is complete but
-- for that first vertex, which is sent to it.
abbrev after_scan : ScanState
after_scan = record {
  dag_image =
      (name_of 1 4 ∷ name_of 1 1 ∷ name_of 1 2 ∷ name_of 1 3 ∷ []) ∷ (name_of 2 2 ∷ []) ∷ [];
  missing = [];
  kept = early_vertex ∷ [];
  added = first_round 4 ∷ second_round ∷ [];
  helped = (2, name_of 1 4 ∷ []) ∷ [];
  draws = 1;
}

scan_run : scan_buffer toy (λ i. 60) 2 small_buffer before_scan ≡ some after_scan
unfolding scan_buffer scan_vertex admit help_creator add_hash emplace contains mutual_history
    check_refs round_set erase hash hash_256 key to_string_ℤ to_string
scan_run = refl

scan_buffer_lem_example :
    Grows before_scan.dag_image after_scan.dag_image
    × (length after_scan.dag_image ≡ length before_scan.dag_image)
    × All (IsSettled toy after_scan.dag_image) after_scan.added
    × Perm
        (after_scan.kept ++ after_scan.added)
        (small_buffer ++ (before_scan.kept ++ before_scan.added))
scan_buffer_lem_example =
    scan_buffer_lem toy (λ i. 60) 2 small_buffer before_scan after_scan scan_run tt

pub small_buffer-InRange : All (InRange 2 small_dag) small_buffer
small_buffer-InRange = (
  λ h. (omega arith, omega arith),
  ((λ h. absurd (ground arith)), ((λ h. (omega arith, omega arith)), tt)),
)

scan_buffer_total_example :
    (st' : ScanState) × (scan_buffer toy (λ i. 60) 2 small_buffer before_scan ≡ some st')
scan_buffer_total_example =
    scan_buffer_total toy (λ i. 60) 2 small_buffer before_scan small_buffer-InRange

abbrev zero_vertex : Vertex
zero_vertex = record {
  round = pos 0;
  peer_id = 3;
  payload = [];
  references = name_of 1 1 ∷ name_of 1 2 ∷ name_of 1 3 ∷ [];
}

scan_vertex_undefined_example : scan_vertex toy (λ i. 60) 2 zero_vertex before_scan ≡ none
scan_vertex_undefined_example = scan_vertex_undefined toy (λ i. 60) 2 zero_vertex before_scan refl

abbrev refs_and_dag : List Bytes
refs_and_dag = (1 ∷ []) ∷ (2 ∷ []) ∷ []

abbrev known_round : List Bytes
known_round = (1 ∷ []) ∷ (2 ∷ []) ∷ (3 ∷ []) ∷ []

known_round-found : round_set (known_round ∷ [] ∷ []) (pos 2) 2 ≡ some known_round
unfolding round_set
known_round-found = refl

known_round-IsDistinct : IsDistinct known_round
unfolding contains
known_round-IsDistinct = (refl, (refl, (refl, tt)))

mutual_history_lem_example :
    (answer : Bool) × (temp_set : List Bytes) × (mutual_history
        (pos 2)
        refs_and_dag
        (known_round ∷ [] ∷ [])
      ≡ some (answer, temp_set))
    × ((answer ≡ true) ↔ All (IsKnown known_round) refs_and_dag)
    × ((h : Bytes)
        → contains h temp_set
          ≡ (answer && (contains h known_round && not (contains h refs_and_dag))))
mutual_history_lem_example =
    mutual_history_lem (pos 2) refs_and_dag known_round (known_round ∷ [] ∷ []) known_round-found
      known_round-IsDistinct

abbrev long_dag : List Bytes → List (List Bytes)
long_dag s = replicate 12 s ++ s ∷ []

hash_dag_undefined_example : hash_dag toy small_dag ≡ none
hash_dag_undefined_example = hash_dag_undefined toy small_dag (omega arith)

abbrev first_sockets : List ℕ
first_sockets = 3 ∷ 4 ∷ []

sockets_before : contains 5 first_sockets ≡ false
unfolding contains
sockets_before = refl

abbrev last_sockets : List ℕ
last_sockets = 6 ∷ []

sockets_behind : contains 5 last_sockets ≡ false
unfolding contains
sockets_behind = refl

erase_socket_lem_example :
    erase_socket 5 (first_sockets ++ 5 ∷ last_sockets) ≡ erased first_sockets last_sockets
erase_socket_lem_example =
    erase_socket_lem 5 first_sockets last_sockets sockets_before sockets_behind
