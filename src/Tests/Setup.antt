-- ===== src/Tests/Setup.antt =====
-- The theorems about the start of a peer at concrete inputs.
use dag_blockchain.Prelude.{Bytes, List, [], arith, nat_eq, refl, some, suc, zero, ℕ, ◌∷◌, ◌≡◌}
use dag_blockchain.Prelude.Int.{ℤ}
use dag_blockchain.Containers.Set.{IsDistinct, contains}
use dag_blockchain.Network.Outcome.{returns}
use dag_blockchain.Network.Client.Connect.{Contact}
use dag_blockchain.Network.Client.Sockets.{found, ids, new_client}
use dag_blockchain.Network.Quorum.{max_byzantines}
use dag_blockchain.Peer.{Peer}
use dag_blockchain.Peer.Setup.{setup_network}
use dag_blockchain.Peer.Setup.Connected.{
  Entry, IsSetUp, lines_of, others, peers_of, setup_network_lem,
}
use dag_blockchain.Tests.Data.{small_peer, toy}

abbrev entry : ℕ → ℕ → ℕ → Entry
entry port id socket = record { address = b'l' ∷ []; port = port; id = id; socket = socket }

abbrev four_entries : List Entry
four_entries = entry 4999 11 3 ∷ entry 5000 12 4 ∷ entry 5001 13 5 ∷ entry 5002 14 6 ∷ []

-- The peer with port 5000 before it is connected.
abbrev unconnected : Peer
unconnected = record small_peer { client = new_client }

-- Sockets in a row, and the file of each peer.
abbrev small_world : ℕ → Bytes → ℤ → Contact
small_world zero address port = found (11, 3)
small_world (suc zero) address port = found (13, 5)
small_world _ address port = found (14, 6)

four_entries-IsDistinct : IsDistinct (ids (peers_of (others 5000 four_entries)))
unfolding contains
four_entries-IsDistinct = (refl, (refl, (refl, tt)))

unconnected-byzantines : unconnected.byzantines ≡ max_byzantines unconnected.crowd
unfolding max_byzantines
unconnected-byzantines = refl

setup_network_lem_example :
    (q : Peer) × (setup_network small_world 5000 (some (lines_of four_entries)) unconnected
      ≡ returns q)
    × IsSetUp toy (λ k xs. xs) (others 5000 four_entries) q
setup_network_lem_example =
    setup_network_lem toy (λ k xs. xs) small_world 5000 four_entries unconnected refl refl
      (omega arith) refl unconnected-byzantines four_entries-IsDistinct (refl, (refl, (refl, tt)))
      (λ k xs. refl)
