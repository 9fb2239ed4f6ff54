-- ===== src/Tests/Loop.antt =====
-- The theorem about the loop of the server at a concrete input.
use dag_blockchain.Prelude.{Bytes, List, [], false, nat_eq, none, refl, some, true, ◌++◌, ◌∷◌, ◌≡◌}
use dag_blockchain.Prelude.Int.{negsuc, pos}
use dag_blockchain.Network.Outcome.{returns}
use dag_blockchain.Network.Calls.{c_accept, c_epoll_create, c_epoll_ctl, c_epoll_wait}
use dag_blockchain.Network.Message.{examine_msg}
use dag_blockchain.Network.Receive.{c_recvn}
use dag_blockchain.Network.Quorum.{majority, max_byzantines}
use dag_blockchain.Containers.Map.{find, insert}
use dag_blockchain.Containers.Set.{erase}
use dag_blockchain.Vertex.{hash, hash_256, key}
use dag_blockchain.Vertex.Deserialize.{deserialize_data}
use dag_blockchain.Bytes.Buffer.{read}
use dag_blockchain.Bytes.Words.{be64, from_be}
use dag_blockchain.Bytes.Decimal.{to_string, to_string_ℤ}
use dag_blockchain.Network.Server.{
  accept_vertex, accept_vertices, hand_over, handle_message, has_quorum, set_thread_ready,
}
use dag_blockchain.Network.Server.Loop.{others_do, serve_turns}
use dag_blockchain.Network.Server.Loop.Started.{start-IsOnce}
use dag_blockchain.Network.Server.Once.{IsOnce}
use dag_blockchain.Network.Server.Loop.Started.{new_shared}
use dag_blockchain.Network.Server.{Server, Shared, new_server}
use dag_blockchain.Network.Server.Loop.{ServerTurn, readies, stops, start, serve_turns}
use dag_blockchain.Bytes.Words.{be32}
use dag_blockchain.Vertex.Wire.{body}
use dag_blockchain.Tests.Data.{first_round, name_of, toy}

-- A message of a vertex of the first round.
abbrev some_message : Bytes
some_message = be32 28 ++ body (first_round 1)

-- A connection, a message on it, and its end.
abbrev some_turns : List ServerTurn
some_turns =
    record {
      before = [];
      system = λ timeout. pos 1;
      events =
          record {
            fd = 3;
            readable = true;
            accepted = pos 7;
            ctl = pos 0;
            arrived = none;
            stream = [];
            fuel = 0;
          }
          ∷ [];
      waiting = [];
    }
    ∷ (record {
      before = readies ∷ [];
      system = λ timeout. pos 1;
      events =
          record {
            fd = 7;
            readable = true;
            accepted = pos 0;
            ctl = pos 0;
            arrived = some 28;
            stream = some_message;
            fuel = 3;
          }
          ∷ [];
      waiting = [];
    }
        ∷ (record {
          before = readies ∷ [];
          system = λ timeout. pos 1;
          events =
              record {
                fd = 7;
                readable = true;
                accepted = pos 0;
                ctl = pos 0;
                arrived = some 0;
                stream = [];
                fuel = 0;
              }
              ∷ [];
          waiting = [];
        }
            ∷ (record {
              before = stops ∷ [];
              system = λ timeout. negsuc 0;
              events = [];
              waiting = [];
            }
                ∷ [])))

abbrev served : Server
served = record {
  vertex_map = (name_of 1 1, first_round 1) ∷ [];
  is_up = false;
  thread_ready = true;
  temp_list = [];
  temp_request_list = [];
  connections = [];
  bytes_to_recv = 28;
}

abbrev served_shared : Shared
served_shared = record { buffer = first_round 1 ∷ []; requests = [] }

some_run :
    start toy 4 3 (pos 5) (pos 0) some_turns new_server new_shared ≡ returns (served, served_shared)
unfolding start serve_turns c_epoll_create c_epoll_ctl others_do new_server c_epoll_wait c_accept
    hand_over set_thread_ready handle_message examine_msg be32 c_recvn from_be be64 read
    deserialize_data accept_vertex to_string to_string_ℤ find insert erase majority max_byzantines
    accept_vertices has_quorum hash hash_256 key
some_run = refl

start-IsOnce_example : IsOnce toy 4 (first_round 1 ∷ []) served
start-IsOnce_example =
    start-IsOnce toy 4 3 (pos 5) (pos 0) some_turns (served, served_shared) some_run
