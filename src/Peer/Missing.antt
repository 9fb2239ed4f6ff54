-- ===== src/Peer/Missing.antt =====
-- deliver_request and send_missing_vertices of peer.cpp: vertices that another peer lacks.
pub mod Batches
pub mod Sizes
pub mod Delivery
pub mod Received
use dag_blockchain.Prelude.{Bytes, List, Option, [], if◌then◌else◌, leb, none, some, ℕ, ◌++◌, ◌∷◌}
use dag_blockchain.Vertex.{Vertex}
use dag_blockchain.Network.Outcome.{Outcome, returns, lift, ◌>>=◌}
use dag_blockchain.Network.Message.{attach_length_to_msg, dynamic_copy}
use dag_blockchain.Network.Server.{find_in_map}
use dag_blockchain.Network.Client.{get_socket}
use dag_blockchain.Network.Transfer.{message_of}
use dag_blockchain.Peer.{Peer}
use dag_blockchain.Peer.Packing.{Packing, add_vertex}

-- pool.enqueue of a task that sends the bytes on the socket.
abbrev pub enqueue_send : ℕ → Bytes → Peer → Peer
enqueue_send socket bytes p = record p { tasks = p.tasks ++ (socket, bytes) ∷ [] }

-- The vertex that was asked for, to the peer that asks.
unfoldable pub deliver_request : ℕ × Vertex → Peer → Outcome Peer
deliver_request request p =
    let (sockfd, client) = get_socket request.0 p.client in
    message_of request.1 >>= λ message.
    returns (enqueue_send sockfd message (record p { client = client }))

-- A copy of the packet, with its length, goes to the pool.
unfoldable pub send_packet : ℕ → Bytes → ℕ → Peer → Outcome Peer
send_packet peer_socket packet_stream packet_size p =
    attach_length_to_msg packet_stream packet_size >>= λ attached.
    lift (dynamic_copy attached packet_size) >>= λ heap_ptr.
    returns (enqueue_send peer_socket heap_ptr p)

-- After a packet: the pointer is null again, and the counters are 0.
abbrev pub emptied : Packing → Packing
emptied k = record k { packet_stream = none; packet_size = 0; current_length = 0 }

-- A packet of 40000 bytes or more is sent, and the next vertex starts a new one.
unfoldable pub close_packet : ℕ → Packing → Peer → Outcome (Packing × Peer)
unfolding send_packet
close_packet peer_socket k p =
    if leb 40000 k.packet_size
    then elim k.packet_stream [
      | none ↦ returns (k, p)
      | some packet_stream ↦
          send_packet peer_socket packet_stream k.packet_size p >>= λ p'. returns (emptied k, p')
    ]
    else returns (k, p)

-- What is left in the packet when the loop ends.
unfoldable pub send_rest : ℕ → Packing → Peer → Outcome Peer
unfolding send_packet
send_rest peer_socket k p = elim k.packet_stream [
  | none ↦ returns p
  | some packet_stream ↦ send_packet peer_socket packet_stream k.packet_size p
]

-- What the local variable holds after the look-up.
abbrev pub found_or : Vertex → Option Vertex → Vertex
found_or v none = v
found_or v (some w) = w

-- The loop over the hashes of the set. One that is not in the map leaves the last vertex in place.
unfoldable pub send_loop : ℕ → List Bytes → Packing → Peer → Outcome Peer
unfolding add_vertex close_packet send_rest
send_loop peer_socket [] k p = send_rest peer_socket k p
send_loop peer_socket (h ∷ hashes) k p =
    lift (add_vertex (found_or k.vertex (find_in_map h p.server)) k) >>= λ k'.
    close_packet peer_socket k' p >>= λ next. send_loop peer_socket hashes next.0 next.1

-- `unset` is the vertex that the default constructor leaves without values.
unfoldable pub send_missing_vertices : Vertex → ℕ → List Bytes → Peer → Outcome Peer
unfolding send_loop
send_missing_vertices unset peer_socket reference_set p =
    send_loop peer_socket reference_set
      (record { vertex = unset; packet_stream = none; packet_size = 0; current_length = 0 }) p
