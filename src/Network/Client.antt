-- ===== src/Network/Client.antt =====
-- Client of networking.cpp: the sockets to the other peers.
pub mod Connect
pub mod Sockets
use dag_blockchain.Prelude.{List, Option, [], get_elem?, nat_eq, none, some, ℕ, ◌++◌, ◌∷◌}
use dag_blockchain.Containers.Map
use dag_blockchain.Containers.Map.{Map}

pub record Client : Type 0 where
  pub peers : List ℕ
  pub c_sockets : List ℕ
  pub socket_map : Map ℕ ℕ

-- What connect_to keeps of one connection: the id that the other peer left in its file.
unfoldable pub add_connection : ℕ → ℕ → Client → Client
add_connection value new_socket c = record {
  peers = c.peers ++ value ∷ [];
  c_sockets = c.c_sockets ++ new_socket ∷ [];
  socket_map = Map.insert value new_socket c.socket_map;
}

-- socket_map[peer_ID]: an unknown peer gets an entry with socket 0.
unfoldable pub get_socket : ℕ → Client → ℕ × Client
get_socket peer_id c = elim (Map.find peer_id c.socket_map) [
  | some socket ↦ (socket, c)
  | none ↦ (0, record c { socket_map = Map.insert peer_id 0 c.socket_map })
]

-- peers[index]
unfoldable pub get_peer_id_at : ℕ → Client → Option ℕ
get_peer_id_at index c = get_elem? c.peers index

unfoldable pub close_sockets : Client → Client
close_sockets c = record c { c_sockets = [] }
