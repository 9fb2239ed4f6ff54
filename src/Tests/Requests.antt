-- ===== src/Tests/Requests.antt =====
-- The theorems about requests and their answers at concrete inputs.
use dag_blockchain.Prelude.{
  All, Bytes, List, [], arith, bytes_eq, length, nat_eq, refl, replicate, some, ℕ, ◌++◌, ◌∷◌, ◌≡◌,
  ◌≤◌,
}
use dag_blockchain.Prelude.Int.{pos}
use dag_blockchain.Vertex.Wire.{wire}
use dag_blockchain.Network.Outcome.{max_stream_size}
use dag_blockchain.Peer.Requests.Answer.{request_answered}
use dag_blockchain.Network.Message.Kinds.{request_bytes}
use dag_blockchain.Network.Outcome.{returns}
use dag_blockchain.Peer.Missing.Sizes.{IsSmall, IsPacket}
use dag_blockchain.Network.Receive.Scan.{is_clean}
use dag_blockchain.Peer.Missing.Delivery.{Located, with_sends, send_missing_vertices-IsPacket}
use dag_blockchain.Peer.Requests.Wanted.{Asks, IsConnected}
use dag_blockchain.Containers.Map.{find}
use dag_blockchain.Peer.Requests.{check_round}
use dag_blockchain.Peer.Missing.Received.{
  receive_messages-send_missing_vertices, receive_messages, stream_of, AreFrames,
}
use dag_blockchain.Peer.Missing.Batches.{batches}
use dag_blockchain.Peer.Missing.{send_missing_vertices, deliver_request, enqueue_send}
use dag_blockchain.Bytes.Words.{be32, be64}
use dag_blockchain.Network.Server.{find_in_map, handle_message}
use dag_blockchain.Peer.Requests.Asked.{check_round_lem}
use dag_blockchain.Vertex.{Vertex}
use dag_blockchain.Peer.{Peer}
use dag_blockchain.Tests.Data.{
  small_peer, small_server, small_vertex, first_vertex, toy, name_of, first_round, small_client,
}

abbrev two_hashes : List Bytes
two_hashes = (1 ∷ []) ∷ (2 ∷ []) ∷ []

abbrev two_vertices : List Vertex
two_vertices = first_vertex ∷ small_vertex ∷ []

-- A server that knows two vertices, under short names.
abbrev knowing : Peer
knowing = record small_peer {
  server = record small_server {
    vertex_map = (1 ∷ [], first_vertex) ∷ (2 ∷ [], small_vertex) ∷ [];
  };
}

two_vertices-Located : Located knowing.server two_hashes two_vertices
unfolding find_in_map find
two_vertices-Located = (refl, (refl, tt))

two_vertices-IsSmall : All IsSmall two_vertices
unfolding be32 be64
two_vertices-IsSmall = (
  record { long = tt; fits = omega arith },
  (record { long = (omega arith, (omega arith, tt)); fits = omega arith }, tt),
)

send_missing_vertices-IsPacket_example :
    (packets : List (List Vertex)) × (send_missing_vertices first_vertex 9 two_hashes knowing
      ≡ returns (with_sends 9 packets knowing))
    × All IsPacket packets
send_missing_vertices-IsPacket_example =
    send_missing_vertices-IsPacket first_vertex 9 two_hashes two_vertices knowing
      two_vertices-Located two_vertices-IsSmall

two_vertices-AreFrames : All AreFrames (batches [] two_vertices)
unfolding batches is_clean be32 be64
two_vertices-AreFrames = (
  (
    record {
      four = refl;
      sendable = record {
        round_fits = (omega arith, omega arith);
        peer_fits = omega arith;
        count_fits = omega arith;
        body_fits = omega arith;
        uniform = tt;
      };
      clean = refl;
    },
    (
      record {
        four = refl;
        sendable = record {
          round_fits = (omega arith, omega arith);
          peer_fits = omega arith;
          count_fits = omega arith;
          body_fits = omega arith;
          uniform = (refl, (refl, tt));
        };
        clean = refl;
      },
      tt,
    ),
  ),
  tt,
)

receive_messages-send_missing_vertices_example :
    (packets : List (List Vertex)) × (send_missing_vertices first_vertex 9 two_hashes knowing
      ≡ returns (with_sends 9 packets knowing))
    × (receive_messages (length packets) (stream_of packets) ≡ returns two_vertices)
receive_messages-send_missing_vertices_example =
    receive_messages-send_missing_vertices first_vertex 9 two_hashes two_vertices knowing
      two_vertices-Located two_vertices-IsSmall two_vertices-AreFrames

-- A peer with sockets to three others, of which it lacks the vertex of peer 3.
abbrev connected : Peer
connected = record small_peer {
  server = record small_server {
    vertex_map = (name_of 1 1, first_round 1) ∷ (name_of 1 4, first_round 4) ∷ [];
  };
  client = record {
    peers = 1 ∷ 3 ∷ 4 ∷ [];
    c_sockets = 11 ∷ 13 ∷ 14 ∷ [];
    socket_map = (1, 11) ∷ (3, 13) ∷ (4, 14) ∷ [];
  };
}

abbrev unshuffled : ℕ → List ℕ → List ℕ
unshuffled k sockets = sockets

connected-IsConnected : IsConnected toy unshuffled connected connected.client.peers
unfolding find
connected-IsConnected = record {
  known = ((11, refl), ((13, refl), ((14, refl), tt)));
  enough = λ k. omega arith;
}

check_round_lem_example :
    Asks toy unshuffled 0 connected (1 ∷ 3 ∷ 4 ∷ []) (check_round toy unshuffled 0 connected)
check_round_lem_example = check_round_lem toy unshuffled 0 connected refl connected-IsConnected

-- A peer that knows a vertex and has a socket to the peer that asks for it.
abbrev answering : Peer
answering = record small_peer {
  server = record small_server { vertex_map = (replicate 64 b'A', first_vertex) ∷ [] };
  client = record small_client { socket_map = (7, 17) ∷ [] };
}

answering-knows : find_in_map (replicate 64 b'A') answering.server ≡ some first_vertex
unfolding find_in_map find
answering-knows = refl

answering-connected : find 7 answering.client.socket_map ≡ some 17
unfolding find
answering-connected = refl

pub first_vertex-AreFrames : AreFrames (first_vertex ∷ [])
unfolding is_clean be32 be64
first_vertex-AreFrames = (
  record {
    four = refl;
    sendable = record {
      round_fits = (omega arith, omega arith);
      peer_fits = omega arith;
      count_fits = omega arith;
      body_fits = omega arith;
      uniform = tt;
    };
    clean = refl;
  },
  tt,
)

first_vertex-fits : length (wire first_vertex) ≤ max_stream_size
unfolding be32 be64
first_vertex-fits = omega arith

request_answered_example :
    (message : Bytes) × (handle_message toy 4 1 9
        (pos 0)
        (some 75)
        (request_bytes (replicate 64 b'A') 7 ++ (9 ∷ []))
        answering.server
      ≡ returns (record (answering.server) { temp_request_list = (7, first_vertex) ∷ [] }, 9 ∷ []))
    × (deliver_request (7, first_vertex) answering ≡ returns (enqueue_send 17 message answering))
    × (receive_messages 1 (message ++ []) ≡ returns (first_vertex ∷ []))
request_answered_example =
    request_answered toy 4 1 9 75 7 17 (pos 0) (replicate 64 b'A') (9 ∷ []) [] first_vertex
      answering refl (omega arith) (omega arith) answering-knows answering-connected
      first_vertex-AreFrames tt first_vertex-fits
