-- ===== src/Network/Transfer.antt =====
-- A vertex on its way from one peer to another: the calls that the code makes on both sides.
use dag_blockchain.Prelude.{
  All, Bytes, List, [], ap, append-nil, append_assoc, ap₂, arith, length, length-append, le→leb,
  refl, replicate, some, subst, suc, sym, take-length, true, ℕ, ◌++◌, ◌+◌, ◌-◌, ◌<◌, ◌∙◌, ◌∷◌, ◌≡◌,
  ◌≤◌,
}
use dag_blockchain.Network.Message.Kinds.{examine_msg-packet}
use dag_blockchain.Network.Receive.{c_recvn}
use dag_blockchain.Network.Send.Delivery.{Accepts, c_sendn-delivers}
use dag_blockchain.Network.Receive.Scan.{is_clean}
use dag_blockchain.Vertex.Deserialize.RoundTrip.{IsSendable}
use dag_blockchain.Network.Send.{Answer, c_sendn}
use dag_blockchain.Vertex.{Vertex}
use dag_blockchain.Vertex.Wire.{wire, body, fields, delims, body-fields}
use dag_blockchain.Vertex.Serialize.{serialize_data}
use dag_blockchain.Vertex.Serialize.Refines.{IsLong, serialize-eq-wire}
use dag_blockchain.Bytes.Chunks.{filled_fits}
use dag_blockchain.Bytes.Words.{be32, length-be32}
use dag_blockchain.Bytes.Buffer.{memcpy, read}
use dag_blockchain.Network.Outcome.{Outcome, returns, lift, max_stream_size, ◌>>=◌}
use dag_blockchain.Network.Message.{attach_length_to_msg, dynamic_copy, examine_msg, reg_msg}
use dag_blockchain.Network.Receive.Framing.{
  Frame, packet, frame_bytes, frame_start, c_recvn-packet, IsFrame,
}

-- What a peer sends for a vertex: as in `broadcast`, the serialized vertex with its length in front.
unfoldable pub message_of : Vertex → Outcome Bytes
message_of v = lift (serialize_data v max_stream_size) >>= λ written.
    attach_length_to_msg written.0 written.1 >>= λ byte_stream.
    lift (dynamic_copy byte_stream written.1)

-- The vertex with the length of the message in front of it.
abbrev pub sent : Vertex → Frame
sent v = record { header = be32 (length (wire v)); vertex = v }

unfoldable pub zeros : Vertex → Bytes
zeros v = replicate (max_stream_size - length (wire v)) 0

pub serialize-fits :
    (v : Vertex)
    → All IsLong v.references
    → length (wire v) ≤ max_stream_size
    → serialize_data v max_stream_size ≡ some (wire v ++ zeros v, length (wire v))
unfolding zeros
serialize-fits v long fits =
    serialize-eq-wire v max_stream_size (omega arith) long
    ∙ filled_fits [] (wire v) max_stream_size fits

pub attach-wire :
    (v : Vertex)
    → length (wire v) ≤ max_stream_size
    → attach_length_to_msg (wire v ++ zeros v) (length (wire v))
      ≡ returns (be32 (length (wire v)) ++ (body v ++ zeros v))
unfolding attach_length_to_msg memcpy be32
attach-wire v fits = ground arith

pub copy-front :
    (front rest : Bytes) (n : ℕ) → n ≡ length front → dynamic_copy (front ++ rest) n ≡ some front
unfolding dynamic_copy read
copy-front front rest n e =
    rw
      (
        le→leb (0 + n) (length (front ++ rest)) (omega (arith, length-append front rest)),
        take-length front rest n e,
      )
      refl

pub length-message : (v : Vertex) → length (be32 (length (wire v)) ++ body v) ≡ length (wire v)
length-message v =
    omega (arith, length-append (be32 (length (wire v))) (body v), length-be32 (length (wire v)))

pub copy-wire :
    (v : Vertex)
    → dynamic_copy (be32 (length (wire v)) ++ (body v ++ zeros v)) (length (wire v))
      ≡ some (be32 (length (wire v)) ++ body v)
copy-wire v =
    ap (λ b. dynamic_copy b (length (wire v)))
      (sym (append_assoc (be32 (length (wire v))) (body v) (zeros v)))
    ∙ copy-front (be32 (length (wire v)) ++ body v) (zeros v) (length (wire v))
        (sym (length-message v))

pub message_of-eq :
    (v : Vertex)
    → All IsLong v.references
    → length (wire v) ≤ max_stream_size
    → message_of v ≡ returns (be32 (length (wire v)) ++ body v)
unfolding message_of
message_of-eq v long fits = rw (serialize-fits v long fits, attach-wire v fits, copy-wire v) refl

-- The message of one vertex is the packet of its frame.
packet-sent : (v : Vertex) → packet (sent v ∷ []) ≡ be32 (length (wire v)) ++ body v
packet-sent v =
    append-nil (frame_bytes (sent v))
    ∙ append_assoc (be32 (length (wire v))) (fields v) delims
    ∙ ap (λ t. be32 (length (wire v)) ++ t) (sym (body-fields v))

-- The four calls, one after the other.
steps :
    (v : Vertex) (probability stale fuel len : ℕ) (answers : List Answer) (message rest : Bytes)
    (outcome : Outcome (List Vertex × Bytes))
    → message_of v ≡ returns message
    → c_sendn probability answers message ≡ returns message
    → examine_msg stale (some (message ++ rest)) ≡ returns (reg_msg, len)
    → c_recvn fuel len (message ++ rest) 0 [] ≡ outcome
    → (message_of v >>= λ message. c_sendn probability answers message >>= λ arrived.
        examine_msg stale (some (arrived ++ rest)) >>= λ examined.
        c_recvn fuel examined.1 (arrived ++ rest) 0 [])
      ≡ outcome
steps v probability stale fuel len answers message rest outcome made sent_all kind received =
    rw (made, sent_all, kind) received

-- Take a vertex whose fields fit the words in which they are sent, whose references all have one
-- length, above 50 bytes, and whose message fits the stream buffer and has no delimiter pattern
-- inside. It is serialized, given its length, copied, sent with a draw above 4 over a connection
-- that takes it bit by bit, examined and received: the receiver gets this vertex, and the bytes
-- behind the message stay on the connection.
pub transfer :
    (v : Vertex) (probability stale fuel : ℕ) (answers : List Answer) (rest : Bytes)
    → IsSendable v
    → All IsLong v.references
    → length (wire v) ≤ max_stream_size
    → is_clean (frame_start (sent v)) ≡ true
    → 4 < probability
    → Accepts (length (wire v)) answers
    → (message_of v >>= λ message. c_sendn probability answers message >>= λ arrived.
        examine_msg stale (some (arrived ++ rest)) >>= λ examined.
        c_recvn (suc fuel) examined.1 (arrived ++ rest) 0 [])
      ≡ returns (v ∷ [], rest)
transfer v probability stale fuel answers rest ok long fits clean lucky accepts =
    let n = length (wire v) in
    let message = be32 n ++ body v in
    let size : length message ≡ n = length-message v in
    let whole = packet-sent v in
    let total : length (packet (sent v ∷ [])) ≡ n = ap length whole ∙ size in
    let frame : All IsFrame (sent v ∷ []) =
      (record { four = length-be32 n; sendable = ok; clean = clean }, tt) in
    steps v probability stale (suc fuel) n answers message rest (returns (v ∷ [], rest))
      (message_of-eq v long fits)
      (c_sendn-delivers probability answers message lucky (omega (arith, size))
        (subst (λ k. Accepts k answers) (sym size) accepts))
      (ap (λ t. examine_msg stale (some t)) (append_assoc (be32 n) (body v) rest)
        ∙ examine_msg-packet stale n (body v ++ rest) (omega arith))
      (ap₂ (λ len t. c_recvn (suc fuel) len (t ++ rest) 0 []) (sym total) (sym whole)
        ∙ c_recvn-packet (sent v) [] rest fuel frame (omega (arith, total)))
