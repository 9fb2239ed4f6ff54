-- ===== src/Vertex/Serialize.antt =====
-- Vertex::serialize_data of vertex.cpp: the fields, in network order, into a cleared buffer.
pub mod Refines
use dag_blockchain.Prelude.{
  Bytes, List, Option, [], length, replicate, some, ℕ, ◌%◌, ◌+◌, ◌>>=◌, ◌>>◌, ◌^◌, ◌∷◌,
}
use dag_blockchain.Prelude.Int.{to_uint32}
use dag_blockchain.Bytes.Words.{be32, be64}
use dag_blockchain.Bytes.Buffer.{Cursor, write, read}
use dag_blockchain.Vertex.{Vertex}

abbrev pub delim : ℕ
delim = b'#'

-- The loop over the references. Behind each copy the code reads the byte at offset 50 of it.
write_refs : List Bytes → Cursor → Option Cursor
write_refs [] c = some c
write_refs (ref ∷ refs) (buffer, used) = do
  (buffer', used') ← write ref (buffer, used)
  read buffer' ((used + 50) % 2 ^ 32) 1
  write_refs refs (buffer', used')

write_references : List Bytes → Cursor → Option Cursor
unfolding write_refs
write_references [] c = some c
write_references (first ∷ refs) c = do
  c ← write (be32 (length first)) c
  write_refs (first ∷ refs) c

-- The loop that writes the four delimiters.
write_delims : Cursor → Option Cursor
write_delims c = do
  c ← write (delim ∷ []) c
  c ← write (delim ∷ []) c
  c ← write (delim ∷ []) c
  write (delim ∷ []) c

-- The buffer of `size` bytes and the count returned. The first four bytes are left for the length.
unfoldable pub serialize_data : Vertex → ℕ → Option Cursor
unfolding write_references write_delims
serialize_data v size = do
  c ← write (be32 (to_uint32 v.round)) (replicate size 0, 4)
  c ← write (be64 v.peer_id) c
  c ← write (be32 (length v.payload)) c
  c ← write v.payload c
  c ← write (be32 (length v.references)) c
  c ← write_references v.references c
  write_delims c
