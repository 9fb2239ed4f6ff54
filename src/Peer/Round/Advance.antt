-- ===== src/Peer/Round/Advance.antt =====
-- The step of a peer to its next round, from the test to the sends.
use dag_blockchain.Prelude.{
  All, Bytes, List, [], arith, bytes_eq, get_elem?, get_elem?-append, get_elem?-set_self, length,
  length-append, le→leb, map, nat_eq, refl, set, some, true, ◌++◌, ◌+◌, ◌-◌, ◌==◌, ◌∙◌, ◌∷◌, ◌≡◌,
  ◌≤◌, ◌⊎◌,
}
use dag_blockchain.Prelude.Int.{pos}
use dag_blockchain.Vertex.Serialize.Refines.{IsLong}
use dag_blockchain.Bytes.Words.{be32}
use dag_blockchain.Containers.Map
use dag_blockchain.Containers.Set.{emplace, contains}
use dag_blockchain.Vertex.{Crypto, Vertex, hash}
use dag_blockchain.Vertex.Wire.{body, wire}
use dag_blockchain.Network.Outcome.{max_stream_size, returns}
use dag_blockchain.Network.Quorum.{max_byzantines}
use dag_blockchain.Network.Server.{add_to_map, find_in_map, has_quorum}
use dag_blockchain.Network.Transfer.{
  attach-wire, copy-wire, message_of, message_of-eq, serialize-fits,
}
use dag_blockchain.Peer.{Peer}
use dag_blockchain.Peer.Round.{advance, broadcast, can_move, check_waves, proposal, publish}
use dag_blockchain.Peer.Round.Proposal.{opened, proposal-has_quorum}

-- A string is itself.
bytes_refl : (h : Bytes) → (h == h) ≡ true
bytes_refl h = (bytes_eq.agrees h h).1 refl

abbrev message : Vertex → Bytes
message v = be32 (length (wire v)) ++ body v

module _ (crypto : Crypto) where
  -- The peer after it has published a vertex into the set of its round.
  abbrev pub published : Vertex → List Bytes → Peer → Peer
  published v vertices p = record p {
    server = add_to_map (hash crypto v) v p.server;
    dag_image = set p.dag_image (p.round - 1) (emplace (hash crypto v) vertices);
    tasks = p.tasks ++ map (λ socket. (socket, message v)) p.client.c_sockets;
  }

  publish-published :
      (v : Vertex) (vertices : List Bytes) (p : Peer)
      → get_elem? p.dag_image (p.round - 1) ≡ some vertices
      → All IsLong v.references
      → length (wire v) ≤ max_stream_size
      → length p.client.c_sockets ≤ p.crowd - 1
      → publish crypto v p ≡ returns (published v vertices p)
  unfolding publish broadcast
  publish-published v vertices p there long fits few =
      rw
        (
          there,
          serialize-fits v long fits,
          attach-wire v fits,
          le→leb (length p.client.c_sockets) (p.crowd - 1) few,
          copy-wire v,
        )
        refl

  -- The set of the new round is there and empty.
  opened-there :
      (p : Peer)
      → length p.dag_image ≡ p.round
      → get_elem? (opened p).dag_image ((opened p).round - 1) ≡ some []
  opened-there p rounds =
      get_elem?-append p.dag_image ([] ∷ []) (p.round + 1 - 1) 0 (omega (arith, rounds))

  advance-publish :
      (p m : Peer) (v : Vertex)
      → check_waves crypto p ≡ some m
      → m.round + 1 ≤ m.last_round
      → proposal crypto (opened m) ≡ some v
      → advance crypto p ≡ publish crypto v (opened m)
  unfolding advance
  advance-publish p m v checked more proposed =
      rw (checked, le→leb (m.round + 1) m.last_round more, proposed) refl

  -- The vertex that a peer would propose can be sent.
  abbrev pub IsPublishable : Peer → Type 0
  IsPublishable p =
      (v : Vertex)
      → proposal crypto (opened p) ≡ some v
      → All IsLong v.references × (length (wire v) ≤ max_stream_size)

  -- Take a peer that the scan or order at the end of a wave leaves as `m`, where `m` knows the
  -- tolerance of its crowd, has a set for each round so far, may leave its round, is not in the
  -- last one and has no more sockets than other peers, and where the vertex that it would propose
  -- has references longer than 50 bytes and fits the stream buffer. Then the step returns, with the
  -- peer in the next round: the set of this round has the hash of a new vertex and nothing else,
  -- the map of the server has the vertex under this hash, and the pool gets one send to each
  -- socket, of the message of the vertex. The vertex has the new round, the id of the peer and as
  -- its references the set of the round before, if there is one, and the test of a server of the
  -- same crowd lets it through.
  pub advance_lem :
      (p m : Peer)
      → check_waves crypto p ≡ some m
      → m.byzantines ≡ max_byzantines m.crowd
      → length m.dag_image ≡ m.round
      → can_move m ≡ some true
      → m.round + 1 ≤ m.last_round
      → length m.client.c_sockets ≤ m.crowd - 1
      → IsPublishable m
      → (v : Vertex) × (text : Bytes) × (q : Peer) × (advance crypto p ≡ returns q)
        × (q.round ≡ m.round + 1)
        × (get_elem? q.dag_image (q.round - 1) ≡ some (hash crypto v ∷ []))
        × (find_in_map (hash crypto v) q.server ≡ some v)
        × (message_of v ≡ returns text)
        × (q.tasks ≡ m.tasks ++ map (λ socket. (socket, text)) m.client.c_sockets)
        × (has_quorum m.crowd v ≡ true)
        × (v.round ≡ pos (m.round + 1))
        × (v.peer_id ≡ m.id)
        × ((m.round ≡ 0) ⊎ (get_elem? m.dag_image (m.round - 1) ≡ some v.references))
  unfolding find_in_map add_to_map emplace contains
  advance_lem p m checked tolerance rounds move more few sendable =
      let (v, proposed, round, id, refs, quorum) =
        proposal-has_quorum crypto m tolerance rounds move in
      let (long, fits) = sendable v proposed in
      let empty = opened-there m rounds in
      (
        v,
        message v,
        published v [] (opened m),
        advance-publish p m v checked more proposed
            ∙ publish-published v [] (opened m) empty long fits few,
        refl,
        get_elem?-set_self (m.dag_image ++ [] ∷ []) (m.round + 1 - 1) (hash crypto v ∷ [])
            (omega (arith, rounds, length-append m.dag_image ([] ∷ []))),
        Map.find-insert (hash crypto v) (hash crypto v) v m.server.vertex_map
            ∙ rw (bytes_refl (hash crypto v)) refl,
        message_of-eq v long fits,
        refl,
        quorum,
        round,
        id,
        refs,
      )
