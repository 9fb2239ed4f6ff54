-- ===== src/Tests/Advance.antt =====
-- The theorem about the step to the next round at a concrete input.
use dag_blockchain.Prelude.{
  All, Bytes, [], arith, bytes_eq, get_elem?, length, map, nat_eq, refl, some, subst, sym, true, ℕ,
  ◌-◌, ◌∙◌, ◌∷◌, ◌≡◌, ◌≤◌, ◌⊎◌,
}
use dag_blockchain.Prelude.Int.{pos}
use mathlib.Core.Option.{some-injective}
use dag_blockchain.Bytes.Decimal.{to_string, to_string_ℤ}
use dag_blockchain.Bytes.Words.{be32, be64}
use dag_blockchain.Vertex.{Vertex, hash, hash_256, key, add_ref, new_vertex}
use dag_blockchain.Vertex.Wire.{wire}
use dag_blockchain.Network.Outcome.{max_stream_size, returns}
use dag_blockchain.Network.Server.{find_in_map, has_quorum}
use dag_blockchain.Network.Transfer.{message_of}
use dag_blockchain.Peer.{Peer}
use dag_blockchain.Peer.Round.{can_move, advance, check_waves, proposal}
use dag_blockchain.Peer.Round.Proposal.{later_vertex, opened}
use dag_blockchain.Peer.Round.Advance.{IsPublishable, advance_lem}
use dag_blockchain.Tests.Data.{name_of, small_peer, toy}
use dag_blockchain.Vertex.Serialize.Refines.{IsLong}
use dag_blockchain.Network.Quorum.{max_byzantines}

-- It has sockets to three others.
abbrev sending : Peer
sending = record small_peer {
  client = record {
    peers = 1 ∷ 3 ∷ 4 ∷ [];
    c_sockets = 11 ∷ 13 ∷ 14 ∷ [];
    socket_map = (1, 11) ∷ (3, 13) ∷ (4, 14) ∷ [];
  };
}

sending-moves : can_move sending ≡ some true
unfolding can_move
sending-moves = refl

sending-byzantines : sending.byzantines ≡ max_byzantines sending.crowd
unfolding max_byzantines
sending-byzantines = refl

sending-waves : check_waves toy sending ≡ some sending
unfolding check_waves
sending-waves = refl

abbrev proposed : Vertex
proposed = later_vertex sending (name_of 1 1 ∷ name_of 1 2 ∷ name_of 1 3 ∷ [])

sending-proposal : proposal toy (opened sending) ≡ some proposed
unfolding proposal add_ref new_vertex
sending-proposal = refl

proposed-IsLong : All IsLong proposed.references
unfolding hash_256 key to_string_ℤ
proposed-IsLong = (omega arith, (omega arith, (omega arith, tt)))

proposed-fits : length (wire proposed) ≤ max_stream_size
unfolding be32 be64 hash_256 key to_string_ℤ to_string
proposed-fits = omega arith

sending-IsPublishable : IsPublishable toy sending
sending-IsPublishable v h =
    subst (λ w. All IsLong w.references × (length (wire w) ≤ max_stream_size))
      (some-injective _ _ (sym sending-proposal ∙ h)) (proposed-IsLong, proposed-fits)

advance_lem_example :
    (v : Vertex) × (text : Bytes) × (q : Peer) × (advance toy sending ≡ returns q)
    × (q.round ≡ 2)
    × (get_elem? q.dag_image (q.round - 1) ≡ some (hash toy v ∷ []))
    × (find_in_map (hash toy v) q.server ≡ some v)
    × (message_of v ≡ returns text)
    × (q.tasks ≡ map (λ socket. (socket, text)) sending.client.c_sockets)
    × (has_quorum 4 v ≡ true)
    × (v.round ≡ pos 2)
    × (v.peer_id ≡ 2)
    × (◌≡◌ {A = ℕ} 1 0 ⊎ (get_elem? small_peer.dag_image 0 ≡ some v.references))
advance_lem_example =
    advance_lem toy sending sending sending-waves sending-byzantines refl sending-moves
      (omega arith) (omega arith) sending-IsPublishable
