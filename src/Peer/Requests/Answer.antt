-- ===== src/Peer/Requests/Answer.antt =====
-- The way of a request through the peer that knows the vertex, and of the answer back.
use dag_blockchain.Prelude.{
  All, Bytes, [], ap, append-nil, ap₂, arith, bytes_eq, length, length-append, nat_eq, refl, some,
  sym, take, take-append, ℕ, ◌++◌, ◌-◌, ◌<◌, ◌^◌, ◌∙◌, ◌∷◌, ◌≡◌, ◌≤◌,
}
use dag_blockchain.Prelude.Int.{ℤ}
use dag_blockchain.Peer.Requests.Wanted.{get_socket-known}
use dag_blockchain.Bytes.Words.{be32, be64, length-be64}
use dag_blockchain.Containers.Map
use dag_blockchain.Vertex.{Vertex, Crypto}
use dag_blockchain.Vertex.Wire.{wire, body}
use dag_blockchain.Vertex.Serialize.Refines.{IsLong}
use dag_blockchain.Network.Outcome.{returns, max_stream_size}
use dag_blockchain.Network.Message.{hex_hash}
use dag_blockchain.Network.Message.Kinds.{request_bytes, examine_msg-request, process_request-bytes}
use dag_blockchain.Network.Transfer.{message_of, message_of-eq}
use dag_blockchain.Network.Server.{Server, handle_message, answer_request, find_in_map}
use dag_blockchain.Peer.{Peer}
use dag_blockchain.Peer.Missing.{deliver_request, enqueue_send}
use dag_blockchain.Peer.Missing.Batches.{frames, packet-frames, length-packet}
use dag_blockchain.Peer.Missing.Received.{receive_messages, AreFrames, receive-packet}
use dag_blockchain.Network.Receive.Framing.{packet}

-- The bytes that the code peeks at hold the whole request.
peeked :
    (hash rest : Bytes) (id n : ℕ)
    → length hash ≡ hex_hash
    → 73 ≤ n
    → (tail : Bytes) × (take n (request_bytes hash id ++ rest) ≡ request_bytes hash id ++ tail)
peeked hash rest id n h enough =
    let size : length (request_bytes hash id) ≡ 73 =
      omega (arith, h, length-append hash (be64 id), length-be64 id) in
    (
      take (n - 73) rest,
      ap (λ k. take k (request_bytes hash id ++ rest)) (omega (arith, size))
          ∙ take-append (request_bytes hash id) rest (n - 73),
    )

handle_request :
    (crypto : Crypto) (crowd fuel fd n id : ℕ) (ctl : ℤ) (hash rest : Bytes) (v : Vertex)
    (s : Server)
    → length hash ≡ hex_hash
    → id < 2 ^ 64
    → 73 ≤ n
    → find_in_map hash s ≡ some v
    → handle_message crypto crowd fuel fd ctl (some n) (request_bytes hash id ++ rest) s
      ≡ returns (record s { temp_request_list = (id, v) ∷ s.temp_request_list }, rest)
unfolding handle_message answer_request find_in_map
handle_request crypto crowd fuel fd n id ctl hash rest v s h small enough known =
    let (tail, e) = peeked hash rest id n h enough in
    rw
      (
        handle_message,
        e,
        examine_msg-request s.bytes_to_recv id hash tail,
        process_request-bytes hash rest id h small,
        answer_request,
        find_in_map,
        known,
      )
      refl

-- The message of one vertex is a packet of one frame.
message-packet :
    (v : Vertex)
    → All IsLong v.references
    → length (wire v) ≤ max_stream_size
    → message_of v ≡ returns (packet (frames (v ∷ [])))
message-packet v long fits =
    message_of-eq v long fits
    ∙ ap returns (
        ap₂ (λ w b. be32 (length w) ++ b) (sym (append-nil (wire v))) (sym (append-nil (body v)))
        ∙ sym (packet-frames v []))

deliver_known :
    (id socket : ℕ) (v : Vertex) (p : Peer) (message : Bytes)
    → Map.find id p.client.socket_map ≡ some socket
    → message_of v ≡ returns message
    → deliver_request (id, v) p ≡ returns (enqueue_send socket message p)
unfolding deliver_request
deliver_known id socket v p message known made =
    rw (get_socket-known id socket p.client known, made) refl

receive-none : (stream : Bytes) → receive_messages 0 stream ≡ returns []
unfolding receive_messages
receive-none stream = refl

-- Take a peer that knows the vertex that a request asks for, under a name of 64 bytes, and has a
-- socket to the peer that asks, whose id is below 2 ^ 64; the peek sees the whole request, and the
-- vertex has references longer than 50 bytes, fits its words and the stream buffer and has no
-- delimiter pattern inside. Then the server takes the request from the connection and keeps the
-- vertex for the other thread, which gives the pool one send to that socket, of a message from
-- which the server at its end reads this vertex.
pub request_answered :
    (crypto : Crypto) (crowd fuel fd n id socket : ℕ) (ctl : ℤ) (hash rest behind : Bytes)
    (v : Vertex) (p : Peer)
    → length hash ≡ hex_hash
    → id < 2 ^ 64
    → 73 ≤ n
    → find_in_map hash p.server ≡ some v
    → Map.find id p.client.socket_map ≡ some socket
    → AreFrames (v ∷ [])
    → All IsLong v.references
    → length (wire v) ≤ max_stream_size
    → (message : Bytes) × (handle_message crypto crowd fuel fd ctl
          (some n)
          (request_bytes hash id ++ rest)
          p.server
        ≡ returns
            (record p.server { temp_request_list = (id, v) ∷ p.server.temp_request_list }, rest))
      × (deliver_request (id, v) p ≡ returns (enqueue_send socket message p))
      × (receive_messages 1 (message ++ behind) ≡ returns (v ∷ []))
request_answered crypto crowd fuel fd n id socket ctl hash rest behind v p h small enough known
      connected frame long fits =
    (
      packet (frames (v ∷ [])),
      handle_request crypto crowd fuel fd n id ctl hash rest v p.server h small enough known,
      deliver_known id socket v p _ connected (message-packet v long fits),
      receive-packet v [] 0 behind [] frame
          (omega (arith, length-packet (v ∷ []), ap length (append-nil (wire v))))
          (receive-none behind),
    )
