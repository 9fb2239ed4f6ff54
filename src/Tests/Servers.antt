-- ===== src/Tests/Servers.antt =====
-- A run of the server at concrete inputs.
use dag_blockchain.Prelude.{List, [], bytes_eq, false, nat_eq, refl, some, true, ◌∷◌, ◌≡◌}
use dag_blockchain.Tests.Data.{name_of, second_round, toy, first_round}
use dag_blockchain.Containers.Map.{find, insert}
use dag_blockchain.Bytes.Decimal.{to_string, to_string_ℤ}
use dag_blockchain.Vertex.{hash, hash_256, key}
use dag_blockchain.Network.Quorum.{majority, max_byzantines}
use dag_blockchain.Network.Server.{
  has_quorum, accept_vertex, accept_vertices, set_thread_ready, hand_over, new_server, Server,
  Shared,
}
use dag_blockchain.Network.Server.Once.{ServerEvent, receives, readied, turned, serve, serve_event}

-- The vertex of peer 1 comes three times, once after it was handed over.
abbrev some_events : List ServerEvent
some_events =
    receives (first_round 1 ∷ first_round 1 ∷ second_round ∷ [])
    ∷ readied
    ∷ turned 3
    ∷ receives (first_round 1 ∷ first_round 2 ∷ [])
    ∷ []

abbrev last_server : Server
last_server = record {
  vertex_map =
      (name_of 1 1, first_round 1)
      ∷ (name_of 2 2, second_round)
      ∷ (name_of 1 2, first_round 2)
      ∷ [];
  is_up = true;
  thread_ready = false;
  temp_list = first_round 2 ∷ [];
  temp_request_list = [];
  connections = [];
  bytes_to_recv = 0;
}

abbrev last_shared : Shared
last_shared = record { buffer = second_round ∷ first_round 1 ∷ []; requests = [] }

server_run :
    serve toy 4 some_events new_server (record { buffer = []; requests = [] })
    ≡ some (last_server, last_shared)
unfolding serve serve_event accept_vertices accept_vertex has_quorum majority max_byzantines
    hand_over set_thread_ready new_server find insert hash hash_256 key to_string_ℤ to_string
server_run = refl
