-- ===== src/Tests/Turns.antt =====
-- The theorems about the loop of a peer, its connections and the parent process at concrete inputs.
use dag_blockchain.Prelude.{
  All, Bool, Bytes, List, [], arith, bytes_eq, concat, false, length, nat_eq, refl, replicate, some,
  suc, true, zero, ℕ, ◌++◌, ◌+◌, ◌==◌, ◌↔◌, ◌∷◌, ◌≡◌,
}
use dag_blockchain.Prelude.Int.{pos}
use dag_blockchain.Peer.{Peer}
use dag_blockchain.Network.Outcome.{returns, ◌>>=◌}
use dag_blockchain.Network.Client.Sockets.{new_client, ids}
use dag_blockchain.Network.Server.{hand_over, set_thread_ready}
use dag_blockchain.Containers.Set.{contains, IsDistinct}
use dag_blockchain.Main.{verdict}
use dag_blockchain.Main.Collect.{IsDigest}
use dag_blockchain.Main.Agreement.{verdict_lem}
use dag_blockchain.Peer.Round.{can_move, advance, check_waves}
use dag_blockchain.Peer.Turn.{new_turn, new_peer, Turn, TurnInput, turns, vertices_turn}
use dag_blockchain.Peer.Turn.Refines.{as_turn, help_all}
use dag_blockchain.Peer.Turn.Settled.{vertices_turn_lem}
use dag_blockchain.Peer.Scan.{ScanState}
use dag_blockchain.Peer.Scan.Growth.{Grows}
use dag_blockchain.Peer.Scan.Closure.{IsSettled}
use dag_blockchain.Peer.Scan.Ready.{IsReady}
use dag_blockchain.Peer.Scan.Added.{AddsOnly, IsDue}
use mathlib.Core.List.{Perm}
use dag_blockchain.Peer.Turn.Rounds.{IsAligned}
use dag_blockchain.Peer.Turn.Loop.{turns-new_turn}
use dag_blockchain.Peer.Records.{Counts, write_record, write_record_lem}
use dag_blockchain.Tests.Data.{toy, name_of, first_vertex, small_peer, small_server}
use dag_blockchain.Tests.Peers.{small_buffer, small_dag, small_buffer-InRange}

bytes-nonzero : (n : ℕ) → All {A = ℕ} (λ b. (b == 0) ≡ false) (replicate n 66)
bytes-nonzero zero = tt
bytes-nonzero (suc n) = (refl, bytes-nonzero n)

abbrev some_digest : Bytes
some_digest = replicate 64 66

some_digest-IsDigest : IsDigest some_digest
some_digest-IsDigest = record { full = refl; nonzero = bytes-nonzero 64 }

verdict_lem_example :
    (equal : Bool) × (verdict 3 (concat (some_digest ∷ some_digest ∷ [])) ≡ some equal)
    × ((equal ≡ true) ↔ All (λ e. e ≡ some_digest) (some_digest ∷ []))
verdict_lem_example =
    verdict_lem 1 some_digest (some_digest ∷ []) some_digest-IsDigest (some_digest-IsDigest, tt)
      (omega arith)

abbrev two_peers : List (ℕ × ℕ)
two_peers = (1, 11) ∷ (3, 13) ∷ []

two_peers-IsDistinct : IsDistinct (ids two_peers)
unfolding contains
two_peers-IsDistinct = (refl, (refl, tt))

-- A peer behind its last round.
abbrev last_turn : Turn
last_turn = record {
  peer = record small_peer {
    round = 3;
    last_round = 2;
    dag_image = (name_of 1 1 ∷ name_of 1 2 ∷ name_of 1 3 ∷ []) ∷ [] ∷ [];
  };
  missing = [];
  stop = pos 2;
  requests_answered = 0;
  missing_vertices = 0;
  need_help = false;
  help_counter = 0;
  draws = 0;
}

-- A peer that is in round 2 when it wakes up.
abbrev scanning_turn : Turn
scanning_turn = record last_turn {
  peer = record small_peer { round = 2; last_round = 2; dag_image = small_dag };
}

vertices_turn_lem_example :
    (st : ScanState) × (vertices_turn toy (λ i. 60) first_vertex small_buffer scanning_turn ≡ (
      help_all toy (λ i. 60) first_vertex 2 scanning_turn st.helped scanning_turn.peer >>= λ q.
      returns (as_turn toy (λ i. 60) first_vertex 2 scanning_turn st q)))
    × Grows small_dag st.dag_image
    × (length st.dag_image ≡ length small_dag)
    × All (IsSettled toy st.dag_image) st.added
    × Perm (st.kept ++ st.added) small_buffer
    × All (λ v. ¬ IsReady 2 small_dag v) st.kept
    × AddsOnly toy small_dag st.added st.dag_image
    × All (IsDue st.added) st.helped
vertices_turn_lem_example =
    vertices_turn_lem toy (λ i. 60) first_vertex small_buffer scanning_turn refl
      small_buffer-InRange

-- A peer of four that is to stop after round 0.
abbrev started : Peer
started = new_peer 2 4 0 false new_client

abbrev last_input : TurnInput
last_input = record {
  late = false;
  nfds = 0;
  server = record small_server { thread_ready = true };
  draw = λ i. 60;
}

abbrev ended_turn : Turn
ended_turn = record (new_turn started) {
  peer = record started {
    round = 1;
    server = record small_server { thread_ready = true; is_up = false };
  };
}

last_run : turns toy first_vertex (last_input ∷ []) (new_turn started) ≡ returns (true, ended_turn)
unfolding turns hand_over set_thread_ready new_turn new_peer can_move advance check_waves
last_run = refl

turns-new_turn_example :
    IsAligned ended_turn.peer × (true ≡ true → ended_turn.peer.server.is_up ≡ false)
turns-new_turn_example =
    turns-new_turn toy first_vertex 2 4 0 false new_client (last_input ∷ []) (true, ended_turn)
      last_run

-- A peer in the second of two rounds, in which it has seen three vertices of four and none.
abbrev recorded : Peer
recorded = record (last_turn.peer) { round = 2; requests_asked = 3 }

write_record_lem_example :
    (counts : Counts) × (write_record 1 2 recorded ≡ some counts)
    × (counts.total_vertices + counts.total_absent_vertices ≡ 8)
write_record_lem_example =
    write_record_lem 1 2 recorded (record { rounds = refl; bounded = omega arith }) (omega arith)
      (omega arith) (omega arith, (omega arith, tt))
