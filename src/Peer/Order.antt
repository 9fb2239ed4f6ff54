-- ===== src/Peer/Order.antt =====
-- dag_scan and total_order of peer.cpp: what is missing from a part of the DAG, and who is to blame.
pub mod Sockets
pub mod Blame
pub mod Scans
pub mod Full
pub mod Suspects
pub mod Keeps
use dag_blockchain.Prelude.{
  Bytes, List, Option, [], bytes_eq, get_elem?, if◌then◌else◌, length, ltb, nat_eq, none, some, suc,
  zero, ℕ, ◌++◌, ◌+◌, ◌-◌, ◌==◌, ◌>>=◌, ◌∷◌,
}
use dag_blockchain.Prelude.Int.{pos, pos_part, ℤ}
use dag_blockchain.Containers.Set.{contains, emplace}
use dag_blockchain.Vertex.{Crypto, key, hash_256}
use dag_blockchain.Network.Client.{get_socket, get_peer_id_at}
use dag_blockchain.Peer.{Peer}

-- The loop of dag_scan over `count` rounds from `i`: a thread for each round that is not full.
pub scan_rounds : ℕ → ℕ → Peer → Option Peer
scan_rounds zero i p = some p
scan_rounds (suc count) i p = do
  vertices ← get_elem? p.dag_image i
  scan_rounds count (i + 1)
      (if ltb (length vertices) p.crowd then record p { checks = p.checks ++ i ∷ [] } else p)

-- A negative start is taken for 0.
unfoldable pub dag_scan : ℕ → ℤ → Peer → Option Peer
unfolding scan_rounds
dag_scan end start p = let first = pos_part start in scan_rounds (end - first) first p

-- The loop that erases a socket: the iterator moves on behind `erase` too, so the next socket is not
-- looked at, and after the last one it moves past the end.
unfoldable pub erase_socket : ℕ → List ℕ → Option (List ℕ)
erase_socket dead [] = some []
erase_socket dead (s ∷ []) = if s == dead then none else some (s ∷ [])
erase_socket dead (s ∷ t ∷ rest) =
    let skipped = (do sockets ← erase_socket dead rest; some (t ∷ sockets)) in
    let checked = (do sockets ← erase_socket dead (t ∷ rest); some (s ∷ sockets)) in
    if s == dead then skipped else checked

-- A peer whose vertex is missing is put on the list, and its socket is dropped.
pub blame : ℕ → Peer → Option Peer
unfolding erase_socket
blame peer_id p =
    let (dead_socket, client) = get_socket peer_id p.client in
    do
      sockets ← erase_socket dead_socket client.c_sockets
      some (record p {
        black_list = emplace peer_id p.black_list;
        client = record client { c_sockets = sockets };
      })

module _ (crypto : Crypto) where
  -- The loop over the other peers from number `j`, for the round at index `i`.
  pub order_peers : ℕ → ℕ → ℕ → List Bytes → Peer → Option Peer
  unfolding blame
  order_peers zero j i vertices p = some p
  order_peers (suc count) j i vertices p = do
    peer_id ← get_peer_id_at j p.client
    p ←
        (if contains (hash_256 crypto (key (pos (i + 1)) peer_id)) vertices
          then some p
          else blame peer_id p)
    order_peers count (j + 1) i vertices p

  pub order_rounds : ℕ → ℕ → Peer → Option Peer
  unfolding order_peers
  order_rounds zero i p = some p
  order_rounds (suc count) i p = do
    vertices ← get_elem? p.dag_image i
    p ← (if ltb (length vertices) p.crowd then order_peers (p.crowd - 1) 0 i vertices p else some p)
    order_rounds count (i + 1) p

  unfoldable pub total_order : ℕ → ℕ → Peer → Option Peer
  unfolding order_rounds
  total_order end start p = order_rounds (end - start) start p
