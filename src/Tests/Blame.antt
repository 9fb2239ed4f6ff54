-- ===== src/Tests/Blame.antt =====
-- The theorem about the list of failed peers at a concrete input.
use dag_blockchain.Prelude.{
  List, [], arith, nat_eq, refl, some, true, ℕ, ◌<◌, ◌↔◌, ◌∷◌, ◌≡◌, ◌≤◌, ◌⊎◌,
}
use dag_blockchain.Prelude.Int.{negsuc}
use dag_blockchain.Bytes.Decimal.{to_string_ℤ}
use dag_blockchain.Containers.Map.{find}
use dag_blockchain.Containers.Set.{contains, emplace}
use dag_blockchain.Network.Client.{get_peer_id_at, get_socket}
use dag_blockchain.Vertex.{hash_256, key}
use dag_blockchain.Peer.{Peer}
use dag_blockchain.Peer.Order.{dag_scan, total_order}
use dag_blockchain.Peer.Order.Scans.{IsUnfilled, dag_scan_lem}
use dag_blockchain.Peer.Order.Blame.{Misses, total_order_lem}
use dag_blockchain.Tests.Data.{small_peer, toy}

-- A peer with the vertices of peers 1, 2 and 3, and sockets to 4, 1 and 3.
abbrev trusting : Peer
trusting = record small_peer {
  client = record {
    peers = 4 ∷ 1 ∷ 3 ∷ [];
    c_sockets = 14 ∷ 11 ∷ 13 ∷ [];
    socket_map = (4, 14) ∷ (1, 11) ∷ (3, 13) ∷ [];
  };
}

-- Peer 4 is on the list, and its socket is gone.
abbrev suspicious : Peer
suspicious = record trusting {
  black_list = 4 ∷ [];
  client = record (trusting.client) { c_sockets = 11 ∷ 13 ∷ [] };
}

trusting_run : total_order toy 1 0 trusting ≡ some suspicious
unfolding total_order get_peer_id_at contains hash_256 key to_string_ℤ get_socket find emplace
trusting_run = refl

total_order_lem_example :
    (contains {A = ℕ} 4 (4 ∷ []) ≡ true)
    ↔ ((contains {A = ℕ} 4 [] ≡ true) ⊎ Misses toy 0 1 4 (4 ∷ 1 ∷ 3 ∷ []) small_peer.dag_image 4)
total_order_lem_example = total_order_lem toy 1 0 4 trusting suspicious trusting_run

-- A scan of two rounds, of which the second is not full.
abbrev half_empty : Peer
half_empty = record small_peer {
  dag_image = ((1 ∷ []) ∷ (2 ∷ []) ∷ (3 ∷ []) ∷ (4 ∷ []) ∷ []) ∷ (((5 ∷ []) ∷ []) ∷ []);
}

dag_scan_lem_example :
    (new : List ℕ) × (dag_scan 2 (negsuc 1) half_empty ≡ some (record half_empty { checks = new }))
    × ((k : ℕ)
        → (contains k new ≡ true) ↔ ((0 ≤ k) × (k < 2) × IsUnfilled 4 half_empty.dag_image k))
dag_scan_lem_example = dag_scan_lem 2 (negsuc 1) half_empty (omega arith)
