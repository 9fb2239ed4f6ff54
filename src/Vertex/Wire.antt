-- ===== src/Vertex/Wire.antt =====
-- The wire form of a vertex as a list of bytes, apart from the code of vertex.cpp.
use dag_blockchain.Prelude.{Bytes, List, [], append_assoc, concat, length, ◌++◌, ◌∷◌, ◌≡◌}
use dag_blockchain.Prelude.Int.{to_uint32}
use dag_blockchain.Bytes.Words.{be32, be64}
use dag_blockchain.Vertex.{Vertex}
use dag_blockchain.Vertex.Serialize.{delim}

-- What stands behind the count of references.
abbrev pub wire_refs : List Bytes → Bytes
wire_refs [] = []
wire_refs (first ∷ refs) = be32 (length first) ++ concat (first ∷ refs)

abbrev pub delims : Bytes
delims = delim ∷ delim ∷ delim ∷ delim ∷ []

-- All but the four bytes for the length.
abbrev pub body : Vertex → Bytes
body v =
    be32 (to_uint32 v.round)
    ++ (be64 v.peer_id
        ++ (be32 (length v.payload)
            ++ (v.payload ++ (be32 (length v.references) ++ (wire_refs v.references ++ delims)))))

abbrev pub wire : Vertex → Bytes
wire v = (0 ∷ 0 ∷ 0 ∷ 0 ∷ []) ++ body v

-- The fields without the delimiters behind them.
abbrev pub fields : Vertex → Bytes
fields v =
    be32 (to_uint32 v.round)
    ++ (be64 v.peer_id
        ++ (be32 (length v.payload)
            ++ (v.payload ++ (be32 (length v.references) ++ wire_refs v.references))))

pub body-fields : (v : Vertex) → body v ≡ fields v ++ delims
body-fields v = simp append_assoc
