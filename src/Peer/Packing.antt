-- ===== src/Peer/Packing.antt =====
-- The packet that send_missing_vertices of peer.cpp fills vertex by vertex.
pub mod Wires
use dag_blockchain.Prelude.{
  Bytes, Option, none, replicate, some, take, ℕ, ◌%◌, ◌++◌, ◌+◌, ◌>>=◌, ◌^◌,
}
use dag_blockchain.Vertex.{Vertex}
use dag_blockchain.Vertex.Serialize.{serialize_data}
use dag_blockchain.Bytes.Buffer.{memcpy, read}
use dag_blockchain.Network.Outcome.{max_stream_size}

-- The variables of the loop. `packet_stream` is `none` for a null pointer.
pub record Packing : Type 0 where
  pub vertex : Vertex
  pub packet_stream : Option Bytes
  pub packet_size : ℕ
  pub current_length : ℕ

-- realloc: the old bytes stay, as many as fit. New ones have no value yet, here 0.
unfoldable pub realloc : Option Bytes → ℕ → Bytes
realloc none size = replicate size 0
realloc (some bytes) size = take size (bytes ++ replicate size 0)

-- The serialized vertex goes behind those that are in the packet.
unfoldable pub add_vertex : Vertex → Packing → Option Packing
unfolding realloc
add_vertex v k = do
  (vertex_stream, stream_size) ← serialize_data v max_stream_size
  let packet_size = (k.packet_size + stream_size) % 2 ^ 32
  source ← read vertex_stream 0 stream_size
  packet_stream ← memcpy (realloc k.packet_stream packet_size) k.current_length source
  some (record {
    vertex = v;
    packet_stream = some packet_stream;
    packet_size = packet_size;
    current_length = packet_size;
  })
