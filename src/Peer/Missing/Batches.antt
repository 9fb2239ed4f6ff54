-- ===== src/Peer/Missing/Batches.antt =====
-- The packets of send_missing_vertices: which vertices go together, and in which form.
use dag_blockchain.Prelude.{
  Bytes, List, [], ap, append-nil, append_assoc, ap₂, arith, false, leb, length, length-append,
  refl, some, sym, true, ℕ, ◌++◌, ◌+◌, ◌<◌, ◌^◌, ◌∙◌, ◌∷◌, ◌≡◌,
}
use dag_blockchain.Network.Transfer.{copy-front}
use dag_blockchain.Bytes.Buffer.{memcpy}
use dag_blockchain.Network.Message.{attach_length_to_msg, dynamic_copy}
use dag_blockchain.Vertex.{Vertex}
use dag_blockchain.Vertex.Wire.{wire, body, delims, fields, body-fields}
use dag_blockchain.Bytes.Words.{be32, length-be32}
use dag_blockchain.Network.Outcome.{returns}
use dag_blockchain.Network.Receive.Framing.{Frame, frame_bytes, packet}
use dag_blockchain.Peer.{Peer}
use dag_blockchain.Peer.Missing.{enqueue_send, send_packet}

abbrev pub wires : List Vertex → Bytes
wires [] = []
wires (v ∷ vs) = wire v ++ wires vs

-- The rule of the loop, apart from the code: a packet is closed when it has 40000 bytes or more.
unfoldable pub batches : List Vertex → List Vertex → List (List Vertex)
batches [] [] = []
batches (b ∷ batch) [] = (b ∷ batch) ∷ []
batches batch (v ∷ vs) = elim (leb 40000 (length (wires (batch ++ v ∷ [])))) [
  | true ↦ (batch ++ v ∷ []) ∷ batches [] vs
  | false ↦ batches (batch ++ v ∷ []) vs
]

-- The frames of a packet: its length stands before the first vertex, zeros before the others.
abbrev pub tail_frames : List Vertex → List Frame
tail_frames [] = []
tail_frames (v ∷ vs) = record { header = 0 ∷ 0 ∷ 0 ∷ 0 ∷ []; vertex = v } ∷ tail_frames vs

abbrev pub frames : List Vertex → List Frame
frames [] = []
frames (v ∷ vs) = record { header = be32 (length (wires (v ∷ vs))); vertex = v } ∷ tail_frames vs

frame-body :
    (header : Bytes) (v : Vertex)
    → frame_bytes (record { header = header; vertex = v }) ≡ header ++ body v
frame-body header v =
    append_assoc header (fields v) delims ∙ ap (λ t. header ++ t) (sym (body-fields v))

packet-tail : (vs : List Vertex) → packet (tail_frames vs) ≡ wires vs
packet-tail [] = refl
packet-tail (v ∷ vs) = ap₂ ◌++◌ (frame-body (0 ∷ 0 ∷ 0 ∷ 0 ∷ []) v) (packet-tail vs)

pub packet-frames :
    (v : Vertex) (vs : List Vertex)
    → packet (frames (v ∷ vs)) ≡ be32 (length (wires (v ∷ vs))) ++ (body v ++ wires vs)
packet-frames v vs =
    ap₂ ◌++◌ (frame-body (be32 (length (wires (v ∷ vs)))) v) (packet-tail vs)
    ∙ append_assoc (be32 (length (wires (v ∷ vs)))) (body v) (wires vs)

pub length-packet : (batch : List Vertex) → length (packet (frames batch)) ≡ length (wires batch)
length-packet [] = refl
length-packet (v ∷ vs) = omega (
  arith,
  ap length (packet-frames v vs),
  length-append (be32 (length (wires (v ∷ vs)))) (body v ++ wires vs),
  length-be32 (length (wires (v ∷ vs))),
)

attach-bytes :
    (rest : Bytes) (n : ℕ)
    → 0 < n
    → n < 2 ^ 32
    → attach_length_to_msg (0 ∷ 0 ∷ 0 ∷ 0 ∷ rest) n ≡ returns (be32 n ++ rest)
unfolding attach_length_to_msg memcpy be32
attach-bytes rest n some_bytes small = ground arith

copy_all : (bytes : Bytes) (n : ℕ) → n ≡ length bytes → dynamic_copy bytes n ≡ some bytes
copy_all bytes n e = ap (λ t. dynamic_copy t n) (sym (append-nil bytes)) ∙ copy-front bytes [] n e

send-bytes :
    (socket n : ℕ) (rest message : Bytes) (p : Peer)
    → 0 < n
    → n < 2 ^ 32
    → n ≡ 4 + length rest
    → message ≡ be32 n ++ rest
    → send_packet socket (0 ∷ 0 ∷ 0 ∷ 0 ∷ rest) n p ≡ returns (enqueue_send socket message p)
unfolding send_packet
send-bytes socket n rest message p some_bytes small size e =
    rw
      (
        attach-bytes rest n some_bytes small,
        copy_all (be32 n ++ rest) n
            (omega (arith, size, length-append (be32 n) rest, length-be32 n)),
        e,
      )
      refl

-- The bytes of a closed packet are sent in the form that the receiver reads.
pub send_packet-wires :
    (socket : ℕ) (v : Vertex) (vs : List Vertex) (p : Peer)
    → length (wires (v ∷ vs)) < 2 ^ 32
    → send_packet socket (wires (v ∷ vs)) (length (wires (v ∷ vs))) p
      ≡ returns (enqueue_send socket (packet (frames (v ∷ vs))) p)
send_packet-wires socket v vs p small =
    send-bytes socket (length (wires (v ∷ vs))) (body v ++ wires vs) (packet (frames (v ∷ vs))) p
      (omega arith) small (omega arith) (packet-frames v vs)
