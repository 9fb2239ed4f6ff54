-- ===== src/Vertex/Deserialize.antt =====
-- Vertex::deserialize_data of vertex.cpp. The code checks no bound: `none` is a read past the array.
pub mod RoundTrip
use dag_blockchain.Prelude.{
  Bytes, List, Option, [], if◌then◌else◌, length, ltb, some, suc, zero, ℕ, ◌%◌, ◌+◌, ◌>>=◌, ◌^◌,
  ◌∷◌,
}
use dag_blockchain.Prelude.Int.{to_int32}
use dag_blockchain.Bytes.Words.{from_be}
use dag_blockchain.Bytes.Buffer.{read}
use dag_blockchain.Vertex.{Vertex}

-- The loop over the references: how many are left, their length, and the offset.
read_refs : ℕ → ℕ → ℕ → Bytes → Option (List Bytes)
read_refs zero ref_length data_at buffer = some []
read_refs (suc left) ref_length data_at buffer = do
  ref ← read buffer data_at ref_length
  refs ← read_refs left ref_length ((data_at + length ref) % 2 ^ 32) buffer
  some (ref ∷ refs)

read_references : ℕ → ℕ → Bytes → Option (List Bytes)
unfolding read_refs
read_references count data_at buffer =
    if ltb 0 count
    then (do
      ref_length ← read buffer data_at 4
      read_refs count (from_be ref_length) ((data_at + 4) % 2 ^ 32) buffer)
    else some []

unfoldable pub deserialize_data : Bytes → Option Vertex
unfolding read_references
deserialize_data buffer = do
  round ← read buffer 4 4
  p_id ← read buffer 8 8
  payload_length ← read buffer 16 4
  payload ← read buffer 20 (from_be payload_length)
  let data_at = (20 + length payload) % 2 ^ 32
  vector_size ← read buffer data_at 4
  references ← read_references (from_be vector_size) ((data_at + 4) % 2 ^ 32) buffer
  some (record {
    round = to_int32 (from_be round);
    peer_id = from_be p_id;
    payload = payload;
    references = references;
  })
