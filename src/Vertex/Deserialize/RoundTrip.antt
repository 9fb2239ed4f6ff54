-- ===== src/Vertex/Deserialize/RoundTrip.antt =====
-- `deserialize_data` on the wire form of a vertex.
use dag_blockchain.Prelude.{
  All, Bytes, List, [], ap, append_assoc, arith, concat, length, length-append, lt→ltb,
  mod-eq_of_lt, refl, some, suc, sym, ℕ, ◌%◌, ◌++◌, ◌+◌, ◌<◌, ◌^◌, ◌∙◌, ◌∷◌, ◌≡◌,
}
use dag_blockchain.Prelude.Int.{InInt32, to_int32-to_uint32, to_uint32, to_uint32-lt}
use dag_blockchain.Bytes.Words.{be32, length-be32, from_be-be32, be64, length-be64, from_be-be64}
use dag_blockchain.Bytes.Buffer.{
  read-skip, read-prefix, total, after, length-concat, read-after, after-concat,
}
use dag_blockchain.Vertex.{Vertex}
use dag_blockchain.Vertex.Wire.{body, wire_refs, delims}
use dag_blockchain.Vertex.Deserialize.{read_refs, read, read_references, deserialize_data}

-- Every reference has the length of the first, which is the one that goes over the wire.
abbrev pub IsUniform : List Bytes → Type 0
IsUniform [] = Unit {0}
IsUniform (first ∷ refs) = All (λ ref. length ref ≡ length first) (first ∷ refs)

-- A vertex whose fields fit the words in which they are sent.
pub record IsSendable (v : Vertex) : Type 0 where
  pub round_fits : InInt32 v.round
  pub peer_fits : v.peer_id < 2 ^ 64
  pub count_fits : length v.references < 2 ^ 32
  pub body_fits : length (body v) + 4 < 2 ^ 32
  pub uniform : IsUniform v.references

read_refs-concat :
    (refs : List Bytes) (n off : ℕ) (before rest buffer : Bytes)
    → All (λ ref. length ref ≡ n) refs
    → off ≡ length before
    → off + length (concat refs) < 2 ^ 32
    → buffer ≡ before ++ (concat refs ++ rest)
    → read_refs (length refs) n off buffer ≡ some refs
unfolding read_refs
read_refs-concat [] n off before rest buffer all here fits e = refl
read_refs-concat (ref ∷ refs) n off before rest buffer all here fits e = rw (
  first,
  read_refs-concat refs n ((off + length ref) % 2 ^ 32) (before ++ ref) rest buffer all.1
      (rw no_wrap (omega (arith, length-append before ref)))
      (rw no_wrap (omega (arith, length-append ref (concat refs))))
      (e' ∙ sym (append_assoc before ref (concat refs ++ rest))),
)
  where
    e' : buffer ≡ before ++ (ref ++ (concat refs ++ rest))
    e' = e ∙ ap (λ b. before ++ b) (append_assoc ref (concat refs) rest)

    first : read buffer off n ≡ some ref
    first = rw e' (
        read-skip before (ref ++ (concat refs ++ rest)) off 0 n (omega arith)
        ∙ read-prefix ref (concat refs ++ rest) n (sym all.0))

    no_wrap : (off + length ref) % 2 ^ 32 ≡ off + length ref
    no_wrap = mod-eq_of_lt (omega (arith, length-append ref (concat refs)))

-- The block of references, with its length in front, behind their count.
read_references-wire :
    (refs : List Bytes) (off : ℕ) (before rest buffer : Bytes)
    → IsUniform refs
    → off ≡ length before
    → off + length (wire_refs refs) < 2 ^ 32
    → buffer ≡ before ++ (wire_refs refs ++ rest)
    → read_references (length refs) off buffer ≡ some refs
unfolding read_references
read_references-wire [] off before rest buffer uniform here fits e = refl
read_references-wire (first ∷ refs) off before rest buffer uniform here fits e =
    rw
      (
        lt→ltb 0 (suc (length refs)) (omega arith),
        size,
        from_be-be32 (length first) (omega (arith, size_le)),
        no_wrap,
      )
      (read_refs-concat (first ∷ refs) (length first) (off + 4) (before ++ be32 (length first)) rest
        buffer uniform
        (omega (arith, length-append before (be32 (length first)), length-be32 (length first)))
        (omega (arith, size_le)) (e' ∙ sym (append_assoc before (be32 (length first)) _)))
  where
    e' : buffer ≡ before ++ (be32 (length first) ++ (concat (first ∷ refs) ++ rest))
    e' = e ∙ ap (λ b. before ++ b) (append_assoc (be32 (length first)) (concat (first ∷ refs)) rest)

    size : read buffer off 4 ≡ some (be32 (length first))
    size = rw e' (
        read-skip before _ off 0 4 (omega arith)
        ∙ read-prefix (be32 (length first)) _ 4 (sym (length-be32 (length first))))

    size_le :
        (length first + length (concat refs) + 4 ≡ length (wire_refs (first ∷ refs)))
        × (length (concat (first ∷ refs)) + 4 ≡ length (wire_refs (first ∷ refs)))
    size_le = omega (
      arith,
      length-append (be32 (length first)) (concat (first ∷ refs)),
      length-append first (concat refs),
      length-be32 (length first),
    )

    no_wrap : (off + 4) % 2 ^ 32 ≡ off + 4
    no_wrap = mod-eq_of_lt (omega (arith, size_le))

length-body :
    (v : Vertex) → length (body v) ≡ 24 + length v.payload + length (wire_refs v.references)
length-body v = omega (
  arith,
  length-append (be32 (to_uint32 v.round)) _,
  length-append (be64 v.peer_id) _,
  length-append (be32 (length v.payload)) _,
  length-append v.payload _,
  length-append (be32 (length v.references)) _,
  length-append (wire_refs v.references) delims,
  length-be32 (to_uint32 v.round),
  length-be64 v.peer_id,
  length-be32 (length v.payload),
  length-be32 (length v.references),
)

module _ (v : Vertex) (header : Bytes) (ok : IsSendable v) (four : length header ≡ 4) where
  abbrev before_payload : List Bytes
  before_payload = header ∷ be32 (to_uint32 v.round) ∷ be64 v.peer_id ∷ be32 (length v.payload) ∷ []

  abbrev fields : List Bytes
  fields = before_payload ++ v.payload ∷ be32 (length v.references) ∷ []

  total-before_payload : total before_payload ≡ 20
  total-before_payload = omega (
    arith,
    four,
    length-be32 (to_uint32 v.round),
    length-be64 v.peer_id,
    length-be32 (length v.payload),
  )

  total-fields : total fields ≡ 24 + length v.payload
  total-fields = omega (arith, total-before_payload, length-be32 (length v.references))

  payload_end : (20 + length v.payload) % 2 ^ 32 ≡ 20 + length v.payload
  payload_end = mod-eq_of_lt (omega (arith, ok.body_fits, length-body v))

  count_end : (20 + length v.payload + 4) % 2 ^ 32 ≡ 24 + length v.payload
  count_end = mod-eq_of_lt (omega (arith, ok.body_fits, length-body v)) ∙ omega arith

  read_references-body :
      (rest : Bytes)
      → read_references
          (length v.references)
          (24 + length v.payload)
          (after fields (wire_refs v.references ++ rest))
        ≡ some v.references
  read_references-body rest =
      read_references-wire v.references (24 + length v.payload) (concat fields) rest _ ok.uniform
        (omega (arith, total-fields, length-concat fields))
        (omega (arith, ok.body_fits, length-body v)) (after-concat fields _)

-- For a vertex whose fields fit the words in which they are sent and whose references have one
-- length: reading its wire form, with any four bytes in front and any bytes behind, gives the
-- vertex back.
pub deserialize-body :
    (v : Vertex) (header rest : Bytes)
    → IsSendable v
    → length header ≡ 4
    → deserialize_data (header ++ (body v ++ rest)) ≡ some v
unfolding deserialize_data
deserialize-body v header rest ok four = rw (
  parts,
  read-after (header ∷ []) (be32 (to_uint32 v.round)) _ 4 4 (omega (arith, four))
      (sym (length-be32 _)),
  read-after (header ∷ be32 (to_uint32 v.round) ∷ []) (be64 v.peer_id) _ 8 8
      (omega (arith, four, length-be32 (to_uint32 v.round))) (sym (length-be64 _)),
  read-after (header ∷ be32 (to_uint32 v.round) ∷ be64 v.peer_id ∷ []) (be32 (length v.payload)) _
      16 4 (omega (arith, four, length-be32 (to_uint32 v.round), length-be64 v.peer_id))
      (sym (length-be32 _)),
  from_be-be32 (length v.payload) (omega (arith, ok.body_fits, length-body v)),
  read-after (before_payload v header ok four) v.payload _ 20 (length v.payload)
      (sym (total-before_payload v header ok four)) refl,
  payload_end v header ok four,
  read-after (before_payload v header ok four ++ v.payload ∷ []) (be32 (length v.references)) _
      (20 + length v.payload) 4 (omega (arith, total-before_payload v header ok four))
      (sym (length-be32 _)),
  from_be-be32 (length v.references) ok.count_fits,
  count_end v header ok four,
  read_references-body v header ok four (delims ++ rest),
  from_be-be32 (to_uint32 v.round) (to_uint32-lt v.round),
  from_be-be64 v.peer_id ok.peer_fits,
  to_int32-to_uint32 v.round ok.round_fits,
)
  where
    parts :
        header ++ (body v ++ rest)
        ≡ after (fields v header ok four) (wire_refs v.references ++ (delims ++ rest))
    parts = simp append_assoc
