-- ===== src/Peer/Round.antt =====
-- The head of the loop of buffer_scan_move_round: the step to the next round, and broadcast.
pub mod Advance
pub mod Waves
pub mod Proposal
use dag_blockchain.Prelude.{
  Bool, Bytes, Option, [], bytes_eq, get_elem?, if◌then◌else◌, leb, length, ltb, map, nat_eq, none,
  set, some, true, ℕ, ◌%◌, ◌&&◌, ◌*◌, ◌++◌, ◌+◌, ◌-◌, ◌==◌, ◌∷◌,
}
use dag_blockchain.Prelude.Int.{pos}
use dag_blockchain.Bytes.Decimal.{to_string}
use dag_blockchain.Containers.Set.{emplace}
use dag_blockchain.Vertex.{Vertex, Crypto, new_vertex, add_ref, hash}
use dag_blockchain.Vertex.Serialize.{serialize_data}
use dag_blockchain.Network.Outcome.{Outcome, returns, undefined, lift, max_stream_size, ◌>>=◌}
use dag_blockchain.Network.Message.{attach_length_to_msg, dynamic_copy}
use dag_blockchain.Network.Server.{add_to_map}
use dag_blockchain.Peer.{Peer, wave, half_wave}
use dag_blockchain.Peer.Order.{dag_scan, total_order}

-- The test for the next round: 2 * byzantines + 1 vertices in the current one.
unfoldable pub can_move : Peer → Option Bool
can_move p = if p.round == 0 then some true else elim (get_elem? p.dag_image (p.round - 1)) [
  | none ↦ none
  | some vertices ↦ some (leb (2 * p.byzantines + 1) (length vertices))
]

module _ (crypto : Crypto) where
  -- At the end of a wave the one before it is completed; in its middle an older one is ordered.
  unfoldable pub check_waves : Peer → Option Peer
  check_waves p =
      if p.round % wave == 0 && ltb wave p.round
      then dag_scan (p.round - wave) (pos (p.round - 2 * wave)) p
      else if p.round % wave == half_wave && ltb (2 * wave) p.round
      then (let finish = p.round - (wave + half_wave) in
          total_order crypto finish (finish - wave) p)
      else some p

  -- The new vertex of a peer that is in round `p.round` already, with the set of the new round there.
  unfoldable pub proposal : Peer → Option Vertex
  proposal p =
      let v = new_vertex (pos p.round) p.id (to_string p.round ++ (b'-' ∷ to_string p.id)) in
      if ltb 1 p.round
      then elim (get_elem? p.dag_image (p.round - 2)) [
        | none ↦ none
        | some vertices ↦ some (add_ref vertices p.id v).0
      ]
      else some v

  -- A copy of the message for each socket, in a vector of crowd - 1 pointers.
  unfoldable pub broadcast : Bytes → ℕ → Peer → Outcome Peer
  broadcast data_bytes size p =
      if leb (length p.client.c_sockets) (p.crowd - 1)
      then (lift (dynamic_copy data_bytes size) >>= λ copy.
          returns
            (record p { tasks = p.tasks ++ map (λ socket. (socket, copy)) p.client.c_sockets }))
      else undefined

  -- The vertex goes to the map of the server, its hash to the DAG, and its bytes to all peers.
  unfoldable pub publish : Vertex → Peer → Outcome Peer
  unfolding broadcast
  publish v p =
      let vertex_hash = hash crypto v in
      lift (get_elem? p.dag_image (p.round - 1)) >>= λ vertices.
      lift (serialize_data v max_stream_size) >>= λ written.
      attach_length_to_msg written.0 written.1 >>= λ byte_stream.
      broadcast byte_stream written.1 (record p {
        server = add_to_map vertex_hash v p.server;
        dag_image = set p.dag_image (p.round - 1) (emplace vertex_hash vertices);
      })

  -- The step itself: after the last round there is nothing to propose.
  unfoldable pub advance : Peer → Outcome Peer
  unfolding publish
  advance p = lift (check_waves p) >>= λ checked.
      let next = record checked { round = checked.round + 1 } in
      if leb next.round next.last_round
      then (let opened = record next { dag_image = next.dag_image ++ [] ∷ [] } in
          lift (proposal opened) >>= λ v. publish v opened)
      else returns next
