-- ===== src/Vertex/Serialize/Refines.antt =====
-- The writes of `serialize_data`, as a row, and the wire form of the vertex.
use dag_blockchain.Prelude.{
  >>=_assoc, >>=_some, All, Bool-cases, Bytes, List, Option, [], ap, arith, concat, concat-append,
  inl, inr, leb, leb→le, length, length-append, length-replicate, le→leb, not_leb→lt, refl,
  replicate, suc, sym, zero, ℕ, ◌%◌, ◌++◌, ◌+◌, ◌-◌, ◌<◌, ◌>>=◌, ◌^◌, ◌∙◌, ◌∷◌, ◌≡◌, ◌≤◌,
}
use dag_blockchain.Prelude.Int.{to_uint32}
use dag_blockchain.Bytes.Words.{be32, be64}
use dag_blockchain.Bytes.Buffer.{
  cursor, write, read, write-cursor, write-cursor-none, length-cursor, Cursor, write-none,
}
use dag_blockchain.Bytes.Chunks.{
  write_all, filled, write_all-append, write_all-cursor, filled-append, filled-none,
}
use dag_blockchain.Vertex.{Vertex}
use dag_blockchain.Vertex.Wire.{wire, body, wire_refs}
use dag_blockchain.Vertex.Serialize.{
  delim, serialize_data, write_refs, write_references, write_delims,
}

-- A copy longer than the byte at offset 50 that the code looks at; a hash has 64 bytes.
abbrev pub IsLong : Bytes → Type 0
IsLong ref = 50 < length ref

-- The look at offset 50 is inside the buffer, so the loop is a row of writes.
write_refs-cursor :
    (refs : List Bytes) (written : Bytes) (room : ℕ)
    → length written + room < 2 ^ 32
    → All IsLong refs
    → write_refs refs (cursor written room) ≡ write_all refs (cursor written room)
unfolding write_refs write_all read
write_refs-cursor [] written room small long = refl
write_refs-cursor (x ∷ xs) written room small long = elim (Bool-cases (leb (length x) room)) [
  | inl fits ↦
      let fits' : length x ≤ room = leb→le _ _ fits in
      rw
        (
          write-cursor x written room fits' small,
          le→leb ((length written + 50) % 2 ^ 32 + 1)
              (length (cursor (written ++ x) (room - length x)).0)
              (omega (
                arith,
                length-cursor (written ++ x) (room - length x),
                length-append written x,
                long.0,
              )),
        )
        (write_refs-cursor xs (written ++ x) (room - length x)
          (omega (arith, length-append written x)) long.1)
  | inr big ↦ rw (write-cursor-none x written room (ground arith)) refl
]

abbrev ref_chunks : List Bytes → List Bytes
ref_chunks [] = []
ref_chunks (first ∷ refs) = be32 (length first) ∷ first ∷ refs

abbrev delim_chunks : List Bytes
delim_chunks = (delim ∷ []) ∷ (delim ∷ []) ∷ (delim ∷ []) ∷ (delim ∷ []) ∷ []

write_references-cursor :
    (refs : List Bytes) (written : Bytes) (room : ℕ)
    → length written + room < 2 ^ 32
    → All IsLong refs
    → write_references refs (cursor written room)
      ≡ write_all (ref_chunks refs) (cursor written room)
unfolding write_references write_all
write_references-cursor [] written room small long = refl
write_references-cursor (x ∷ xs) written room small long =
    elim (Bool-cases (leb (length (be32 (length x))) room)) [
      | inl fits ↦
          let fits' : length (be32 (length x)) ≤ room = leb→le _ _ fits in
          rw (write-cursor (be32 (length x)) written room fits' small) (
            write_refs-cursor (x ∷ xs) (written ++ be32 (length x))
              (room - length (be32 (length x)))
              (omega (arith, length-append written (be32 (length x)))) long)
      | inr big ↦ rw (write-cursor-none (be32 (length x)) written room (ground arith)) refl
    ]

abbrev chunks : Vertex → List Bytes
chunks v =
    be32 (to_uint32 v.round)
    ∷ be64 v.peer_id
    ∷ be32 (length v.payload)
    ∷ v.payload
    ∷ be32 (length v.references)
    ∷ (ref_chunks v.references ++ delim_chunks)

concat-ref_chunks : (refs : List Bytes) → concat (ref_chunks refs) ≡ wire_refs refs
concat-ref_chunks [] = refl
concat-ref_chunks (first ∷ refs) = refl

concat-chunks : (v : Vertex) → concat (chunks v) ≡ body v
concat-chunks v =
    rw (concat-append (ref_chunks v.references) delim_chunks, concat-ref_chunks v.references) refl

-- Two continuations that agree on every cleared buffer with room for less than 2 ^ 32 bytes.
abbrev Agrees : (Cursor → Option Cursor) → (Cursor → Option Cursor) → Type 0
Agrees f g =
    (written : Bytes) (room : ℕ)
    → length written + room < 2 ^ 32
    → f (cursor written room) ≡ g (cursor written room)

Agrees-write :
    (x : Bytes) (f g : Cursor → Option Cursor)
    → Agrees f g
    → Agrees (λ c. write x c >>= f) (λ c. write x c >>= g)
Agrees-write x f g h written room small = elim (Bool-cases (leb (length x) room)) [
  | inl fits ↦
      let fits' : length x ≤ room = leb→le _ _ fits in
      rw (write-cursor x written room fits' small)
        (h (written ++ x) (room - length x) (omega (arith, length-append written x)))
  | inr big ↦ rw (write-cursor-none x written room (ground arith)) refl
]

last_delim : Agrees (write (delim ∷ [])) (write_all ((delim ∷ []) ∷ []))
unfolding write_all
last_delim written room small = sym (>>=_some (write (delim ∷ []) (cursor written room)))

delims-Agrees : Agrees write_delims (write_all delim_chunks)
unfolding write_delims write_all
delims-Agrees =
    Agrees-write (delim ∷ []) _ _
      (Agrees-write (delim ∷ []) _ _ (Agrees-write (delim ∷ []) _ _ last_delim))

-- A row of writes leaves a cleared buffer, so what comes next may be exchanged.
write_all-Agrees :
    (chunks : List Bytes) (f g : Cursor → Option Cursor)
    → Agrees f g
    → Agrees (λ c. write_all chunks c >>= f) (λ c. write_all chunks c >>= g)
unfolding write_all
write_all-Agrees [] f g h written room small = h written room small
write_all-Agrees (x ∷ xs) f g h written room small =
    >>=_assoc (write x (cursor written room)) (write_all xs) f
    ∙ Agrees-write x _ _ (write_all-Agrees xs f g h) written room small
    ∙ sym (>>=_assoc (write x (cursor written room)) (write_all xs) g)

-- What follows the count of references.
tail-Agrees :
    (refs : List Bytes)
    → All IsLong refs
    → Agrees
        (λ c. write_references refs c >>= write_delims)
        (write_all (ref_chunks refs ++ delim_chunks))
unfolding write_references write_delims
tail-Agrees [] long written room small = delims-Agrees written room small
tail-Agrees (first ∷ refs) long written room small =
    rw (write_references-cursor (first ∷ refs) written room small long) (
      write_all-Agrees (ref_chunks (first ∷ refs)) _ _ delims-Agrees written room small
      ∙ sym (write_all-append (ref_chunks (first ∷ refs)) delim_chunks (cursor written room)))

fields-Agrees :
    (v : Vertex)
    → All IsLong v.references
    → Agrees
        (λ c. do
          c ← write (be32 (to_uint32 v.round)) c
          c ← write (be64 v.peer_id) c
          c ← write (be32 (length v.payload)) c
          c ← write v.payload c
          c ← write (be32 (length v.references)) c
          c ← write_references v.references c
          write_delims c)
        (write_all (chunks v))
unfolding write_all
fields-Agrees v long = Agrees-write _ _ _ (
    Agrees-write _ _ _ (
      Agrees-write _ _ _ (Agrees-write _ _ _ (Agrees-write _ _ _ (tail-Agrees v.references long)))))

abbrev header : Bytes
header = 0 ∷ 0 ∷ 0 ∷ 0 ∷ []

cleared : (size : ℕ) → 4 ≤ size → (replicate size 0, 4) ≡ cursor header (size - 4)
cleared (suc (suc (suc (suc k)))) h =
    let e : k ≡ suc (suc (suc (suc k))) - 4 = omega arith in ap (λ j. cursor header j) e
cleared (suc (suc (suc zero))) h = absurd (omega arith)
cleared (suc (suc zero)) h = absurd (omega arith)
cleared (suc zero) h = absurd (omega arith)
cleared zero h = absurd (omega arith)

-- For references longer than 50 bytes and a buffer below 2 ^ 32 bytes: a buffer that is large
-- enough for the wire form of the vertex holds it after the call, with zeros behind it, and its
-- length is returned; else a write is outside of the buffer.
pub serialize-eq-wire :
    (v : Vertex) (size : ℕ)
    → size < 2 ^ 32
    → All IsLong v.references
    → serialize_data v size ≡ filled [] (wire v) size
unfolding serialize_data
serialize-eq-wire v size small long = elim (Bool-cases (leb 4 size)) [
  | inl room ↦
      let room' : 4 ≤ size = leb→le _ _ room in
      rw (cleared size room') (
        fields-Agrees v long header (size - 4) (omega arith)
        ∙ write_all-cursor (chunks v) header (size - 4) (omega arith)
        ∙ ap (λ bytes. filled header bytes (size - 4)) (concat-chunks v)
        ∙ filled-append [] header (body v) size room')
  | inr short ↦
      rw
        (write-none (be32 (to_uint32 v.round)) (replicate size 0) 4
          (omega (arith, length-replicate {A = ℕ} size 0, not_leb→lt 4 size short)))
        (sym (filled-none [] (wire v) size (omega (arith, not_leb→lt 4 size short))))
]
