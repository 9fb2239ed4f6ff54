-- ===== src/Peer/Missing/Sizes.antt =====
-- The sizes of the packets of send_missing_vertices.
use dag_blockchain.Prelude.{
  All, Bool, List, [], ap, append-nil, append_assoc, arith, concat, false, leb, length,
  length-append, not_leb→lt, refl, sym, true, ◌++◌, ◌<◌, ◌∙◌, ◌∷◌, ◌≡◌, ◌≤◌,
}
use dag_blockchain.Vertex.{Vertex}
use dag_blockchain.Vertex.Wire.{wire}
use dag_blockchain.Vertex.Serialize.Refines.{IsLong}
use dag_blockchain.Network.Outcome.{max_stream_size}
use dag_blockchain.Network.Receive.Framing.{packet}
use dag_blockchain.Peer.Missing.Batches.{wires, batches, frames, length-packet}

-- A vertex that a packet has room for behind 39999 bytes.
pub record IsSmall (v : Vertex) : Type 0 where
  pub long : All IsLong v.references
  pub fits : length (wire v) ≤ 25537

wires-append : (xs ys : List Vertex) → wires (xs ++ ys) ≡ wires xs ++ wires ys
wires-append [] ys = refl
wires-append (x ∷ xs) ys =
    ap (λ t. wire x ++ t) (wires-append xs ys) ∙ sym (append_assoc (wire x) (wires xs) (wires ys))

pub wires-snoc : (xs : List Vertex) (v : Vertex) → wires (xs ++ v ∷ []) ≡ wires xs ++ wire v
wires-snoc xs v = wires-append xs (v ∷ []) ∙ ap (λ t. wires xs ++ t) (append-nil (wire v))

-- A statement about both ways on.
split {ℓ κ} :
    {A : Type ℓ} (P : A → Type κ) (t : Bool) (x y : A)
    → (t ≡ true → P x)
    → (t ≡ false → P y)
    → P (elim t as (λ _. A) [ true ↦ x | false ↦ y ])
split P true x y p q = p refl
split P false x y p q = q refl

pub concat-batches : (batch vs : List Vertex) → concat (batches batch vs) ≡ batch ++ vs
unfolding batches
concat-batches [] [] = refl
concat-batches (b ∷ batch) [] = refl
concat-batches [] (v ∷ vs) =
    split (λ t. concat t ≡ v ∷ vs) (leb 40000 (length (wires (v ∷ [])))) _ _
      (λ e. ap (λ t. v ∷ t) (concat-batches [] vs)) (λ e. concat-batches (v ∷ []) vs)
concat-batches (b ∷ batch) (v ∷ vs) =
    let all : (b ∷ (batch ++ v ∷ [])) ++ vs ≡ (b ∷ batch) ++ v ∷ vs =
      append_assoc (b ∷ batch) (v ∷ []) vs in
    split (λ t. concat t ≡ (b ∷ batch) ++ v ∷ vs)
      (leb 40000 (length (wires (b ∷ (batch ++ v ∷ []))))) _ _
      (λ e. ap (λ t. b ∷ ((batch ++ v ∷ []) ++ t)) (concat-batches [] vs) ∙ all)
      (λ e. concat-batches (b ∷ (batch ++ v ∷ [])) vs ∙ all)

-- A packet with a vertex in it that the buffer of the receiver has room for.
abbrev pub IsPacket : List Vertex → Type 0
IsPacket batch = (0 < length batch) × (length (packet (frames batch)) ≤ max_stream_size)

fits : (c : Vertex) (cs : List Vertex) → length (wires (c ∷ cs)) ≤ 65536 → IsPacket (c ∷ cs)
fits c cs h = (omega arith, omega (arith, length-packet (c ∷ cs)))

length-snoc :
    (b v : Vertex) (batch : List Vertex)
    → IsSmall v
    → length (wires (b ∷ batch)) < 40000
    → length (wires (b ∷ (batch ++ v ∷ []))) ≤ 65536
length-snoc b v batch small few = omega (
  arith,
  ap length (wires-snoc (b ∷ batch) v),
  length-append (wires (b ∷ batch)) (wire v),
  small.fits,
)

-- Every packet is sent with a vertex in it, and none is larger than the buffer that receives it.
pub batches-sizes :
    (batch vs : List Vertex)
    → length (wires batch) < 40000
    → All IsSmall vs
    → All IsPacket (batches batch vs)
unfolding batches
batches-sizes [] [] few small = tt
batches-sizes (b ∷ batch) [] few small = (fits b batch (omega arith), tt)
batches-sizes [] (v ∷ vs) few small =
    let size : length (wires (v ∷ [])) ≡ length (wire v) = ap length (append-nil (wire v)) in
    split (All IsPacket) (leb 40000 (length (wires (v ∷ [])))) _ _
      (λ full.
        (fits v [] (omega (arith, size, small.0.fits)), batches-sizes [] vs (omega arith) small.1))
      (λ early. batches-sizes (v ∷ []) vs (not_leb→lt _ _ early) small.1)
batches-sizes (b ∷ batch) (v ∷ vs) few small =
    split (All IsPacket) (leb 40000 (length (wires (b ∷ (batch ++ v ∷ []))))) _ _
      (λ full. (
        fits b (batch ++ v ∷ []) (length-snoc b v batch small.0 few),
        batches-sizes [] vs (omega arith) small.1,
      ))
      (λ early. batches-sizes (b ∷ (batch ++ v ∷ [])) vs (not_leb→lt _ _ early) small.1)
