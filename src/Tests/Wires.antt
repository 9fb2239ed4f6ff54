-- ===== src/Tests/Wires.antt =====
-- The theorems about vertices and messages at concrete inputs.
use dag_blockchain.Prelude.{
  All, [], arith, bytes_eq, inr, length, nat_eq, none, refl, some, true, ◌++◌, ◌∷◌, ◌≡◌, ◌≤◌,
}
use dag_blockchain.Prelude.Int.{pos}
use dag_blockchain.Network.Receive.Empty.{c_recvn_empty}
use dag_blockchain.Bytes.Decimal.{extend, to_string}
use dag_blockchain.Network.Outcome.{◌>>=◌, max_stream_size, returns, unfinished}
use dag_blockchain.Bytes.Chunks.{filled}
use dag_blockchain.Network.Send.Delivery.{Accepts, c_sendn-error}
use dag_blockchain.Vertex.Deserialize.RoundTrip.{IsSendable, deserialize-body}
use dag_blockchain.Vertex.Wire.{body, wire}
use dag_blockchain.Tests.Data.{small_vertex, toy, first_vertex, second_round}
use dag_blockchain.Vertex.{hash}
use dag_blockchain.Vertex.Key.{hash_collision}
use dag_blockchain.Network.Message.{examine_msg, reg_msg}
use dag_blockchain.Network.Send.{c_sendn}
use dag_blockchain.Network.Receive.{c_recvn}
use dag_blockchain.Network.Receive.Framing.{Frame, packet, c_recvn-packet, frame_start, IsFrame}
use dag_blockchain.Vertex.Deserialize.{deserialize_data}
use dag_blockchain.Vertex.Serialize.{serialize_data}
use dag_blockchain.Network.Transfer.{message_of, transfer, sent}
use dag_blockchain.Vertex.Serialize.Refines.{IsLong, serialize-eq-wire}
use dag_blockchain.Network.Receive.Scan.{is_clean}
use dag_blockchain.Bytes.Words.{be32, be64}

small_vertex-IsSendable : IsSendable small_vertex
unfolding be32 be64
small_vertex-IsSendable = record {
  round_fits = (omega arith, omega arith);
  peer_fits = omega arith;
  count_fits = omega arith;
  body_fits = omega arith;
  uniform = (refl, (refl, tt));
}

first_vertex-IsSendable : IsSendable first_vertex
unfolding be32 be64
first_vertex-IsSendable = record {
  round_fits = (omega arith, omega arith);
  peer_fits = omega arith;
  count_fits = omega arith;
  body_fits = omega arith;
  uniform = tt;
}

small_vertex-clean : is_clean (frame_start (sent small_vertex)) ≡ true
unfolding is_clean be32 be64
small_vertex-clean = refl

length-small_vertex : length (wire small_vertex) ≡ 163
unfolding be32 be64
length-small_vertex = refl

small_vertex-fits : length (wire small_vertex) ≤ max_stream_size
unfolding be32 be64
small_vertex-fits = omega arith

small_vertex-Accepts : Accepts (length (wire small_vertex)) (some 100 ∷ some 63 ∷ [])
unfolding be32 be64
small_vertex-Accepts = inr (omega arith, omega arith, inr (omega arith, omega arith, refl))

small_vertex-IsLong : All IsLong small_vertex.references
small_vertex-IsLong = (omega arith, (omega arith, tt))

transfer_example :
    (message_of small_vertex >>= λ message.
    c_sendn 50 (some 100 ∷ some 63 ∷ []) message >>= λ arrived.
    examine_msg 0 (some (arrived ++ b'?' ∷ [])) >>= λ examined.
    c_recvn 1 examined.1 (arrived ++ b'?' ∷ []) 0 [])
    ≡ returns (small_vertex ∷ [], b'?' ∷ [])
transfer_example =
    transfer small_vertex 50 0 0 (some 100 ∷ some 63 ∷ []) (b'?' ∷ []) small_vertex-IsSendable
      small_vertex-IsLong small_vertex-fits small_vertex-clean (omega arith) small_vertex-Accepts

serialize-eq-wire_example : serialize_data small_vertex 1000 ≡ filled [] (wire small_vertex) 1000
serialize-eq-wire_example = serialize-eq-wire small_vertex 1000 (omega arith) small_vertex-IsLong

deserialize-body_example :
    deserialize_data ((1 ∷ 2 ∷ 3 ∷ 4 ∷ []) ++ (body small_vertex ++ (5 ∷ []))) ≡ some small_vertex
deserialize-body_example =
    deserialize-body small_vertex (1 ∷ 2 ∷ 3 ∷ 4 ∷ []) (5 ∷ []) small_vertex-IsSendable refl

abbrev first_frame : Frame
first_frame = record { header = 0 ∷ 0 ∷ 0 ∷ 190 ∷ []; vertex = first_vertex }

abbrev second_frame : Frame
second_frame = record { header = 0 ∷ 0 ∷ 0 ∷ 0 ∷ []; vertex = small_vertex }

frames-IsFrame : All IsFrame (first_frame ∷ second_frame ∷ [])
unfolding is_clean be32 be64
frames-IsFrame = (
  record { four = refl; sendable = first_vertex-IsSendable; clean = refl },
  (record { four = refl; sendable = small_vertex-IsSendable; clean = refl }, tt),
)

frames-fit : length (packet (first_frame ∷ second_frame ∷ [])) ≤ max_stream_size
unfolding be32 be64
frames-fit = omega arith

c_recvn-packet_example :
    c_recvn 1
      (length (packet (first_frame ∷ second_frame ∷ [])))
      (packet (first_frame ∷ second_frame ∷ []) ++ (9 ∷ []))
      0
      []
    ≡ returns (first_vertex ∷ small_vertex ∷ [], 9 ∷ [])
c_recvn-packet_example =
    c_recvn-packet first_frame (second_frame ∷ []) (9 ∷ []) 0 frames-IsFrame frames-fit

c_sendn-error_example : c_sendn 50 (some 2 ∷ none ∷ []) (7 ∷ 8 ∷ 9 ∷ []) ≡ returns (7 ∷ 8 ∷ [])
c_sendn-error_example =
    c_sendn-error 50 (some 2 ∷ none ∷ []) (7 ∷ 8 ∷ 9 ∷ []) (omega arith) (omega arith)
      (omega arith, omega arith, omega arith)

hash_collision_example :
    hash toy (record second_round { round = pos 1; peer_id = extend 2 (to_string 7) })
    ≡ hash toy (record second_round { round = pos 12; peer_id = 7 })
hash_collision_example =
    hash_collision toy (record second_round { round = pos 12; peer_id = 7 }) 1 2 7 (omega arith)
      (omega arith) (omega arith) refl refl

c_recvn_empty_example :
    (examine_msg 0 (some (be32 0 ++ 1 ∷ 2 ∷ [])) ≡ returns (reg_msg, 0))
    × (c_recvn 3 0 (be32 0 ++ 1 ∷ 2 ∷ []) 0 [] ≡ unfinished)
c_recvn_empty_example = c_recvn_empty 0 3 (1 ∷ 2 ∷ [])
