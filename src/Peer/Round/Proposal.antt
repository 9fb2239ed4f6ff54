-- ===== src/Peer/Round/Proposal.antt =====
-- The vertex that a peer proposes, and the test of the servers that receive it.
use dag_blockchain.Prelude.{
  Bool-cases, Bytes, List, Option-cases, [], ap, arith, beq_refl, bytes_eq, false, get_elem?,
  get_elem?-append_left, inl, inr, length, le→leb, le→not_ltb, ltb, lt→ltb, nat_beq_iff, nat_eq,
  refl, some, true, ℕ, ◌*◌, ◌++◌, ◌+◌, ◌-◌, ◌<◌, ◌==◌, ◌∙◌, ◌∷◌, ◌≡◌, ◌≤◌, ◌⊎◌,
}
use dag_blockchain.Prelude.Int.{pos}
use dag_blockchain.Bytes.Decimal.{to_string}
use dag_blockchain.Vertex.{Vertex, Crypto, new_vertex, add_ref}
use dag_blockchain.Network.Quorum.{majority, max_byzantines}
use dag_blockchain.Network.Server.{has_quorum}
use dag_blockchain.Peer.{Peer}
use dag_blockchain.Peer.Round.{can_move, proposal}

-- The peer as it is when it computes the vertex of the next round.
abbrev pub opened : Peer → Peer
opened p = record p { round = p.round + 1; dag_image = p.dag_image ++ [] ∷ [] }

abbrev pub first_vertex : Peer → Vertex
first_vertex p =
    new_vertex (pos (p.round + 1)) p.id (to_string (p.round + 1) ++ (b'-' ∷ to_string p.id))

abbrev pub later_vertex : Peer → List Bytes → Vertex
later_vertex p vertices = record {
  round = pos (p.round + 1);
  peer_id = p.id;
  payload = to_string (p.round + 1) ++ (b'-' ∷ to_string p.id);
  references = vertices;
}

has_quorum-enough :
    (crowd : ℕ) (v : Vertex) → majority crowd ≤ length v.references → has_quorum crowd v ≡ true
unfolding has_quorum
has_quorum-enough crowd v h = rw (le→leb (majority crowd) (length v.references) h) refl

has_quorum-first : (crowd : ℕ) (v : Vertex) → v.round ≡ pos 1 → has_quorum crowd v ≡ true
unfolding has_quorum
has_quorum-first crowd v h = rw h (ground arith)

can_move-later :
    (p : Peer)
    → p.round == 0 ≡ false
    → can_move p ≡ some true
    → (vertices : List Bytes) × (get_elem? p.dag_image (p.round - 1) ≡ some vertices)
      × (2 * p.byzantines + 1 ≤ length vertices)
unfolding can_move
can_move-later p later move = elim (Option-cases (get_elem? p.dag_image (p.round - 1))) [
  | inl e ↦ ground arith
  | inr (vertices, e) ↦ (vertices, e, ground arith)
]

proposal-later :
    (crypto : Crypto) (p : Peer) (vertices : List Bytes)
    → length p.dag_image ≡ p.round
    → 0 < p.round
    → get_elem? p.dag_image (p.round - 1) ≡ some vertices
    → proposal crypto (opened p) ≡ some (later_vertex p vertices)
unfolding proposal add_ref new_vertex to_string
proposal-later crypto p vertices rounds h e =
    let test : ltb 1 (p.round + 1) ≡ true = lt→ltb 1 (p.round + 1) (omega arith) in
    let index : p.round + 1 - 2 ≡ p.round - 1 = omega arith in
    let there : get_elem? (p.dag_image ++ [] ∷ []) (p.round + 1 - 2) ≡ some vertices =
      rw index (get_elem?-append_left p.dag_image ([] ∷ []) (p.round - 1) (omega arith) ∙ e) in
    rw (test, there, beq_refl p.id) refl

proposal-first :
    (crypto : Crypto) (p : Peer) → p.round ≡ 0 → proposal crypto (opened p) ≡ some (first_vertex p)
unfolding proposal
proposal-first crypto p start =
    let test : ltb 1 (p.round + 1) ≡ false = le→not_ltb 1 (p.round + 1) (omega arith) in
    rw test refl

-- A peer that knows the tolerance of its crowd, has a set for each round so far and may leave its
-- round proposes a vertex of the next round under its own id. Its references are the set of the
-- round that it leaves, if there is one, and the test of a server of the same crowd lets it
-- through.
pub proposal-has_quorum :
    (crypto : Crypto) (p : Peer)
    → p.byzantines ≡ max_byzantines p.crowd
    → length p.dag_image ≡ p.round
    → can_move p ≡ some true
    → (v : Vertex) × (proposal crypto (opened p) ≡ some v)
      × (v.round ≡ pos (p.round + 1))
      × (v.peer_id ≡ p.id)
      × ((p.round ≡ 0) ⊎ (get_elem? p.dag_image (p.round - 1) ≡ some v.references))
      × (has_quorum p.crowd v ≡ true)
unfolding can_move proposal new_vertex add_ref has_quorum majority
proposal-has_quorum crypto p f rounds move = elim (Bool-cases (p.round == 0)) [
  | inl first ↦
      let start : p.round ≡ 0 = (nat_beq_iff p.round 0).0 first in
      (
        first_vertex p,
        proposal-first crypto p start,
        refl,
        refl,
        inl start,
        has_quorum-first p.crowd (first_vertex p) (ap (λ n. pos (n + 1)) start),
      )
  | inr later ↦
      let (vertices, e, enough) = can_move-later p later move in
      (
        later_vertex p vertices,
        proposal-later crypto p vertices rounds (ground arith) e,
        refl,
        refl,
        inr e,
        has_quorum-enough p.crowd (later_vertex p vertices) (omega arith),
      )
]
