-- ===== src/Peer/Move.antt =====
-- The move constructor of Peer in peer.cpp.
use dag_blockchain.Prelude.{Bool, Bytes, [], false, nat_eq, none, refl, ℕ, ◌≡◌}
use dag_blockchain.Vertex.{Vertex}
use dag_blockchain.Network.Outcome.{returns, ◌>>=◌}
use dag_blockchain.Network.Server.{Server, find_in_map}
use dag_blockchain.Network.Client.{get_socket}
use dag_blockchain.Network.Moves.{assign_server, assign_client}
use dag_blockchain.Network.Transfer.{message_of}
use dag_blockchain.Containers.Map.{find}
use dag_blockchain.Peer.{Peer}
use dag_blockchain.Peer.Missing.{deliver_request, enqueue_send}

-- The members by default: the maps and the lists are empty. `is_up`, `byzantines` and `fail` are
-- whatever is in the memory.
unfoldable pub default_server : Bool → Server
default_server is_up = record {
  vertex_map = [];
  is_up = is_up;
  thread_ready = false;
  temp_list = [];
  temp_request_list = [];
  connections = [];
  bytes_to_recv = 0;
}

-- The new peer. Its pool is a new one too.
unfoldable pub move_peer : Bool → ℕ → Bool → Peer → Peer
unfolding default_server
move_peer is_up byzantines fail source = record source {
  byzantines = byzantines;
  fail = fail;
  server = (assign_server (default_server is_up) source.server).0;
  client = (assign_client (record { peers = []; c_sockets = []; socket_map = [] }) source.client).0;
  black_list = [];
  tasks = [];
  checks = [];
}

-- A moved peer finds no vertex in its map, and gives the answer to any request a send to descriptor 0.
move_peer-loses :
    (is_up : Bool) (byzantines : ℕ) (fail : Bool) (p : Peer) (request : ℕ × Vertex) (name : Bytes)
    → (q : Peer) × (find_in_map name (move_peer is_up byzantines fail p).server ≡ none)
      × (q.tasks ≡ [])
      × (deliver_request request (move_peer is_up byzantines fail p)
          ≡ (message_of request.1 >>= λ message. returns (enqueue_send 0 message q)))
unfolding move_peer assign_client assign_server default_server find_in_map deliver_request
    get_socket find
move_peer-loses is_up byzantines fail p request name = (
  record (move_peer is_up byzantines fail p) {
    client = (get_socket request.0 (move_peer is_up byzantines fail p).client).1;
  },
  refl,
  refl,
  refl,
)
