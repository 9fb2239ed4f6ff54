-- ===== src/Peer/Missing/Received.antt =====
-- The packets of send_missing_vertices on a connection, and the server that reads them.
use dag_blockchain.Prelude.{
  All, Bytes, List, [], ap, append_assoc, arith, concat, length, refl, some, suc, sym, zero, ℕ,
  ◌++◌, ◌∙◌, ◌∷◌, ◌≡◌, ◌≤◌,
}
use dag_blockchain.Vertex.{Vertex}
use dag_blockchain.Vertex.Wire.{body}
use dag_blockchain.Bytes.Words.{be32}
use dag_blockchain.Network.Outcome.{Outcome, returns, ◌>>=◌}
use dag_blockchain.Network.Message.{MsgType, examine_msg, reg_msg}
use dag_blockchain.Network.Message.Kinds.{examine_msg-packet}
use dag_blockchain.Network.Receive.{c_recvn}
use dag_blockchain.Network.Receive.Framing.{IsFrame, packet, vertices_of, c_recvn-packet}
use dag_blockchain.Peer.{Peer}
use dag_blockchain.Peer.Missing.{send_missing_vertices}
use dag_blockchain.Peer.Missing.Delivery.{Located, with_sends, send_missing_vertices_lem}
use dag_blockchain.Peer.Missing.Batches.{
  wires, batches, frames, tail_frames, packet-frames, length-packet,
}
use dag_blockchain.Peer.Missing.Sizes.{IsSmall, IsPacket, concat-batches, batches-sizes}

-- A server that reads as many messages of vertices from one connection.
unfoldable pub receive_messages : ℕ → Bytes → Outcome (List Vertex)
receive_messages zero stream = returns []
receive_messages (suc count) stream = examine_msg 0 (some stream) >>= λ examined.
    c_recvn 1 examined.1 stream 0 [] >>= λ received.
    receive_messages count received.1 >>= λ later. returns (received.0 ++ later)

abbrev pub stream_of : List (List Vertex) → Bytes
stream_of [] = []
stream_of (batch ∷ packets) = packet (frames batch) ++ stream_of packets

pub vertices-tail : (vs : List Vertex) → vertices_of (tail_frames vs) ≡ vs
vertices-tail [] = refl
vertices-tail (v ∷ vs) = ap (λ t. v ∷ t) (vertices-tail vs)

abbrev pub AreFrames : List Vertex → Type 0
AreFrames batch = All IsFrame (frames batch)

examine-packet :
    (v : Vertex) (vs : List Vertex) (rest : Bytes)
    → length (packet (frames (v ∷ vs))) ≤ 65536
    → examine_msg 0 (some (packet (frames (v ∷ vs)) ++ rest))
      ≡ returns (reg_msg, length (packet (frames (v ∷ vs))))
examine-packet v vs rest fits =
    let n = length (wires (v ∷ vs)) in
    let size : length (packet (frames (v ∷ vs))) ≡ n = length-packet (v ∷ vs) in
    ap (λ t. examine_msg 0 (some t))
      (ap (λ t. t ++ rest) (packet-frames v vs) ∙ append_assoc (be32 n) (body v ++ wires vs) rest)
    ∙ examine_msg-packet 0 n ((body v ++ wires vs) ++ rest) (omega (arith, size))
    ∙ ap (λ k. returns (reg_msg, k)) (sym size)

receive-step :
    (count len : ℕ) (kind : MsgType) (stream rest : Bytes) (batch later : List Vertex)
    → examine_msg 0 (some stream) ≡ returns (kind, len)
    → c_recvn 1 len stream 0 [] ≡ returns (batch, rest)
    → receive_messages count rest ≡ returns later
    → receive_messages (suc count) stream ≡ returns (batch ++ later)
unfolding receive_messages
receive-step count len kind stream rest batch later examined received e =
    rw (examined, received, e) refl

pub receive-packet :
    (v : Vertex) (vs : List Vertex) (count : ℕ) (rest : Bytes) (later : List Vertex)
    → AreFrames (v ∷ vs)
    → length (packet (frames (v ∷ vs))) ≤ 65536
    → receive_messages count rest ≡ returns later
    → receive_messages (suc count) (packet (frames (v ∷ vs)) ++ rest) ≡ returns ((v ∷ vs) ++ later)
receive-packet v vs count rest later ok fits e =
    let n = length (packet (frames (v ∷ vs))) in
    receive-step count n reg_msg (packet (frames (v ∷ vs)) ++ rest) rest (v ∷ vs) later
      (examine-packet v vs rest fits)
      (c_recvn-packet (record { header = be32 (length (wires (v ∷ vs))); vertex = v })
          (tail_frames vs) rest 0 ok fits
        ∙ ap (λ t. returns (v ∷ t, rest)) (vertices-tail vs))
      e

receive-packets :
    (packets : List (List Vertex))
    → All IsPacket packets
    → All AreFrames packets
    → receive_messages (length packets) (stream_of packets) ≡ returns (concat packets)
unfolding receive_messages
receive-packets [] sizes ok = refl
receive-packets ([] ∷ packets) sizes ok = absurd (omega arith)
receive-packets ((v ∷ vs) ∷ packets) sizes ok =
    receive-packet v vs (length packets) (stream_of packets) (concat packets) ok.0 sizes.0.1
      (receive-packets packets sizes.1 ok.1)

receive_messages-batches :
    (vs : List Vertex)
    → All IsSmall vs
    → All AreFrames (batches [] vs)
    → receive_messages (length (batches [] vs)) (stream_of (batches [] vs)) ≡ returns vs
receive_messages-batches vs small ok =
    receive-packets (batches [] vs) (batches-sizes [] vs (omega arith) small) ok
    ∙ ap returns (concat-batches [] vs)

-- If all hashes of the set are found in the map, and the vertices have messages of at most 25537
-- bytes and references longer than 50 bytes, fit their words and have no delimiter pattern inside:
-- send_missing_vertices gives packets to the pool, and a server that reads one message for each of
-- them from the connection gets these vertices, in their order.
pub receive_messages-send_missing_vertices :
    (unset : Vertex) (socket : ℕ) (reference_set : List Bytes) (vs : List Vertex) (p : Peer)
    → Located p.server reference_set vs
    → All IsSmall vs
    → All AreFrames (batches [] vs)
    → (packets : List (List Vertex)) × (send_missing_vertices unset socket reference_set p
        ≡ returns (with_sends socket packets p))
      × (receive_messages (length packets) (stream_of packets) ≡ returns vs)
receive_messages-send_missing_vertices unset socket reference_set vs p found small ok = (
  batches [] vs,
  (send_missing_vertices_lem unset socket reference_set vs p found small).0,
  receive_messages-batches vs small ok,
)
