-- ===== src/Network/Receive.antt =====
-- c_recvn of networking.cpp: the vertices of one packet, found by their delimiters.
pub mod Scan
pub mod Framing
pub mod Empty
use dag_blockchain.Prelude.{
  Bool, Bytes, List, Option, [], drop, false, get_elem?, if◌then◌else◌, leb, length, ltb, nat_eq,
  none, replicate, some, suc, take, true, zero, ℕ, ◌++◌, ◌+◌, ◌-◌, ◌==◌, ◌>>=◌, ◌∷◌,
}
use dag_blockchain.Network.Outcome.{Outcome, returns, exits, undefined, unfinished, max_stream_size}
use dag_blockchain.Vertex.{Vertex}
use dag_blockchain.Vertex.Serialize.{delim}
use dag_blockchain.Vertex.Deserialize.{deserialize_data}
use dag_blockchain.Bytes.Buffer.{read}

-- buf[i] == DELIM && buf[i + 3] == DELIM
pub is_delimited : Bytes → ℕ → Option Bool
is_delimited buf i = do
  first ← get_elem? buf i
  if first == delim then (do last ← get_elem? buf (i + 3); some (last == delim)) else some false

-- A cleared `chunk_buffer` with a segment copied to its start.
pub chunk_buffer : Bytes → Bytes
chunk_buffer segment = segment ++ replicate (max_stream_size - length segment) 0

-- The segment up to the byte `last`, copied and decoded. A negative size is undefined.
pub take_segment : Bytes → ℕ → ℕ → Option Vertex
unfolding chunk_buffer
take_segment buf segment_start last =
    if leb segment_start (last + 1)
    then (do
      segment ← read buf segment_start (last + 1 - segment_start)
      deserialize_data (chunk_buffer segment))
    else none

-- The `for` loop from `byte_counter`: the new start of a segment, the vertices, and whether the last
-- delimiter ended the packet. Its fuel is the number of bytes, and each round passes one at least.
pub scan : ℕ → ℕ → Bytes → ℕ → ℕ → List Vertex → Option (ℕ × List Vertex × Bool)
unfolding is_delimited take_segment
scan zero received buf i start vertices = some (start, vertices, false)
scan (suc fuel) received buf i start vertices =
    if ltb i received
    then (is_delimited buf i >>= λ hit. elim hit [
      | false ↦ scan fuel received buf (i + 1) start vertices
      | true ↦ take_segment buf start (i + 3) >>= λ v. elim (ltb (i + 4) received) [
        | true ↦ scan fuel received buf (i + 4) (i + 4) (vertices ++ v ∷ [])
        | false ↦ some (i + 4, vertices ++ v ∷ [], true)
      ]
    ])
    else some (start, vertices, false)

-- The `while` loop. `recv` with MSG_WAITALL gives `len` bytes, or fewer if the connection ends first,
-- and then the process exits. More than the buffer holds are written past its end.
unfoldable pub c_recvn : ℕ → ℕ → Bytes → ℕ → List Vertex → Outcome (List Vertex × Bytes)
unfolding scan
c_recvn zero len stream start vertices = unfinished
c_recvn (suc fuel) len stream start vertices =
    if ltb max_stream_size (length (take len stream))
    then undefined
    else if ltb (length stream) len
    then exits
    else elim (scan len len (take len stream ++ replicate (max_stream_size - len) 0) 0 start
        vertices) [
          | none ↦ undefined
          | some (start', vertices', found) ↦ elim found [
            | true ↦ returns (vertices', drop len stream)
            | false ↦ c_recvn fuel len (drop len stream) start' vertices'
          ]
        ]
