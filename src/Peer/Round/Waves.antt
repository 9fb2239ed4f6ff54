-- ===== src/Peer/Round/Waves.antt =====
-- The step of a peer to its next round when the part of the DAG that it orders is full.
use dag_blockchain.Prelude.{
  Bool-cases, Bytes, List, [], ap, append-nil, arith, bytes_eq, get_elem?, inl, inr, length, ltb,
  map, nat_eq, some, sym, true, ℕ, ◌%◌, ◌&&◌, ◌*◌, ◌++◌, ◌+◌, ◌-◌, ◌==◌, ◌∙◌, ◌∷◌, ◌≡◌, ◌≤◌, ◌⊎◌,
}
use dag_blockchain.Prelude.Int.{pos}
use dag_blockchain.Network.Transfer.{message_of}
use dag_blockchain.Network.Server.{find_in_map, has_quorum}
use dag_blockchain.Peer.Round.Advance.{IsPublishable, advance_lem}
use dag_blockchain.Network.Quorum.{max_byzantines}
use dag_blockchain.Vertex.{Crypto, Vertex, hash}
use dag_blockchain.Peer.{Peer, half_wave, wave}
use dag_blockchain.Peer.Order.Full.{AreFull, total_order-AreFull}
use dag_blockchain.Peer.Order.Scans.{dag_scan_lem}
use dag_blockchain.Network.Outcome.{returns}
use dag_blockchain.Peer.Round.{check_waves, can_move, proposal, advance}

module _ (crypto : Crypto) where
  -- The part that is ordered in this round, if there is one.
  abbrev pub IsOrderable : Peer → Type 0
  IsOrderable p = AreFull (p.round - (wave + half_wave) - wave) (p.round - (wave + half_wave)) p

  check_waves-IsOrderable :
      (p : Peer)
      → length p.dag_image ≡ p.round
      → IsOrderable p
      → (new : List ℕ) × (check_waves crypto p ≡ some (record p { checks = p.checks ++ new }))
  unfolding check_waves
  check_waves-IsOrderable p rounds full =
      elim (Bool-cases (p.round % wave == 0 && ltb wave p.round)) [
        | inl ends ↦
            let (new, e, which) =
              dag_scan_lem (p.round - wave) (pos (p.round - 2 * wave)) p (omega (arith, rounds)) in
            (new, rw ends e)
        | inr other ↦ elim (Bool-cases (p.round % wave == half_wave && ltb (2 * wave) p.round)) [
          | inl middle ↦ (
            [],
            rw (other, middle)
                (total_order-AreFull crypto (p.round - (wave + half_wave)) _ p full
                  ∙ ap (λ c. some (record p { checks = c })) (sym (append-nil p.checks))),
          )
          | inr neither ↦ (
            [],
            rw (other, neither)
                (ap (λ c. some (record p { checks = c })) (sym (append-nil p.checks))),
          )
        ]
      ]

  pub advance_total :
      (p : Peer)
      → p.byzantines ≡ max_byzantines p.crowd
      → length p.dag_image ≡ p.round
      → IsOrderable p
      → can_move p ≡ some true
      → p.round + 1 ≤ p.last_round
      → length p.client.c_sockets ≤ p.crowd - 1
      → IsPublishable crypto p
      → (v : Vertex) × (text : Bytes) × (q : Peer) × (advance crypto p ≡ returns q)
        × (q.round ≡ p.round + 1)
        × (get_elem? q.dag_image (q.round - 1) ≡ some (hash crypto v ∷ []))
        × (find_in_map (hash crypto v) q.server ≡ some v)
        × (message_of v ≡ returns text)
        × (q.tasks ≡ p.tasks ++ map (λ socket. (socket, text)) p.client.c_sockets)
        × (has_quorum p.crowd v ≡ true)
        × (v.round ≡ pos (p.round + 1))
        × (v.peer_id ≡ p.id)
        × ((p.round ≡ 0) ⊎ (get_elem? p.dag_image (p.round - 1) ≡ some v.references))
  unfolding can_move proposal
  advance_total p tolerance rounds full move more few sendable =
      let (new, checked) = check_waves-IsOrderable p rounds full in
      advance_lem crypto p (record p { checks = p.checks ++ new }) checked tolerance rounds move
        more few sendable
