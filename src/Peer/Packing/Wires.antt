-- ===== src/Peer/Packing/Wires.antt =====
-- add_vertex on a packet that holds serialized vertices.
use dag_blockchain.Prelude.{
  All, Bytes, [], ap, append-nil, arith, drop_all, length, length-append, length-replicate, le→leb,
  none, refl, replicate, some, suc, take-append, take-length, take-replicate, ℕ, ◌%◌, ◌++◌, ◌+◌,
  ◌<◌, ◌^◌, ◌∙◌, ◌∷◌, ◌≡◌, ◌≤◌,
}
use dag_blockchain.Vertex.Serialize.{serialize_data}
use dag_blockchain.Network.Transfer.{zeros, serialize-fits}
use dag_blockchain.Vertex.{Vertex}
use dag_blockchain.Vertex.Wire.{wire}
use dag_blockchain.Vertex.Serialize.Refines.{IsLong}
use dag_blockchain.Bytes.Buffer.{memcpy, read}
use dag_blockchain.Network.Outcome.{max_stream_size}
use dag_blockchain.Peer.Packing.{Packing, realloc, add_vertex}

-- The variables when the packet holds these bytes.
abbrev pub packing_of : Vertex → Bytes → Packing
packing_of v [] = record { vertex = v; packet_stream = none; packet_size = 0; current_length = 0 }
packing_of v (b ∷ bytes) = record {
  vertex = v;
  packet_stream = some (b ∷ bytes);
  packet_size = suc (length bytes);
  current_length = suc (length bytes);
}

realloc-append :
    (bytes : Bytes) (k : ℕ) → realloc (some bytes) (length bytes + k) ≡ bytes ++ replicate k 0
unfolding realloc
realloc-append bytes k =
    take-append bytes (replicate (length bytes + k) 0) k
    ∙ ap (λ t. bytes ++ t) (take-replicate k (length bytes + k) 0 (omega arith))

memcpy-end :
    (bytes source : Bytes)
    → memcpy (bytes ++ replicate (length source) 0) (length bytes) source ≡ some (bytes ++ source)
unfolding memcpy
memcpy-end bytes source =
    let zeroed = replicate (length source) 0 in
    let total : length (bytes ++ zeroed) ≡ length bytes + length source =
      length-append bytes zeroed
      ∙ ap (λ n. length bytes + n) (length-replicate (length source) 0) in
    rw
      (
        le→leb (length bytes + length source) (length (bytes ++ zeroed)) (omega (arith, total)),
        take-length bytes zeroed (length bytes) refl,
        drop_all (bytes ++ zeroed) (length bytes + length source) (omega (arith, total)),
        append-nil (bytes ++ source),
      )
      refl

read-front : (front rest : Bytes) → read (front ++ rest) 0 (length front) ≡ some front
unfolding read
read-front front rest =
    rw
      (
        le→leb (0 + length front) (length (front ++ rest))
            (omega (arith, length-append front rest)),
        take-length front rest (length front) refl,
      )
      refl

abbrev packed : Vertex → Bytes → ℕ → Packing
packed v bytes n = record {
  vertex = v;
  packet_stream = some bytes;
  packet_size = n;
  current_length = n;
}

-- A vertex of these bytes behind those that are in the packet.
add-bytes :
    (v : Vertex) (k : Packing) (before source rest : Bytes)
    → serialize_data v max_stream_size ≡ some (source ++ rest, length source)
    → k.packet_size ≡ length before
    → k.current_length ≡ length before
    → realloc k.packet_stream (length before + length source)
      ≡ before ++ replicate (length source) 0
    → length before + length source < 2 ^ 32
    → add_vertex v k ≡ some (packed v (before ++ source) (length before + length source))
unfolding add_vertex
add-bytes v k before source rest e size current grown small =
    let no_wrap : (length before + length source) % 2 ^ 32 ≡ length before + length source =
      omega arith in
    rw (e, size, current, no_wrap, read-front source rest, grown, memcpy-end before source) refl

pub add-packing_of :
    (v w : Vertex) (bytes : Bytes)
    → All IsLong v.references
    → length (wire v) ≤ max_stream_size
    → length bytes + length (wire v) < 2 ^ 32
    → add_vertex v (packing_of w bytes) ≡ some (packing_of v (bytes ++ wire v))
unfolding realloc
add-packing_of v w [] long fits small =
    let n : 0 + length (wire v) ≡ length (wire v) = omega arith in
    add-bytes v (packing_of w []) [] (wire v) (zeros v) (serialize-fits v long fits) refl refl
      (ap (λ k. replicate k 0) n) small
    ∙ ap (λ k. some (packed v (wire v) k)) n
add-packing_of v w (b ∷ bytes) long fits small =
    let n : suc (length bytes) + length (wire v) ≡ suc (length (bytes ++ wire v)) =
      omega (arith, length-append bytes (wire v)) in
    add-bytes v (packing_of w (b ∷ bytes)) (b ∷ bytes) (wire v) (zeros v)
      (serialize-fits v long fits) refl refl (realloc-append (b ∷ bytes) (length (wire v))) small
    ∙ ap (λ k. some (packed v (b ∷ (bytes ++ wire v)) k)) n
