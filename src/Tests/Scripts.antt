-- ===== src/Tests/Scripts.antt =====
-- The theorem about the server and its events at a concrete input.
use dag_blockchain.Prelude.{
  All, List, [], arith, length, nat_eq, refl, replicate, some, ◌∷◌, ◌≡◌, ◌≤◌,
}
use dag_blockchain.Prelude.Int.{pos}
use dag_blockchain.Bytes.Words.{be32, be64}
use dag_blockchain.Network.Outcome.{max_stream_size, returns}
use dag_blockchain.Network.Receive.Framing.{packet}
use dag_blockchain.Network.Server.{Server, Shared, new_server}
use dag_blockchain.Network.Server.Once.{serve}
use dag_blockchain.Network.Server.Loop.{start}
use dag_blockchain.Network.Server.Loop.Started.{new_shared}
use dag_blockchain.Peer.Missing.Batches.{frames}
use dag_blockchain.Peer.Serving.{
  Happening, IsProper, asks, brings, closes, connects, events_of, within,
}
use dag_blockchain.Peer.Serving.Refines.{bytes_at, connections_at, start-script, turns_of}
use dag_blockchain.Tests.Data.{first_vertex, toy}
use dag_blockchain.Tests.Requests.{first_vertex-AreFrames}

-- Two peers connect; one sends a vertex, the other asks for one; one leaves.
abbrev small_script : List (List Happening)
small_script =
    (connects 7 ∷ connects 8 ∷ [])
    ∷ ((brings 7 first_vertex [] 5 [] ∷ asks 8 (replicate 64 b'A') 2 0 [] ∷ [])
        ∷ ((closes 7 ∷ []) ∷ []))

first_vertex-packet : length (packet (frames (first_vertex ∷ []))) ≤ max_stream_size
unfolding be32 be64
first_vertex-packet = omega arith

small_script-IsProper : All (All (IsProper 3)) small_script
small_script-IsProper = (
  (tt, (tt, tt)),
  (
    ((refl, first_vertex-AreFrames, first_vertex-packet), ((refl, refl, omega arith), tt)),
    ((refl, tt), tt),
  ),
)

start-script_example :
    (last : Server × Shared) × (serve toy 4 (events_of small_script) new_server new_shared
      ≡ some last)
    × (start toy 4 3 (pos 5) (pos 0) (turns_of 3 small_script) new_server new_shared
        ≡ returns
            (within (connections_at small_script []) (bytes_at small_script 0) last.0, last.1))
start-script_example = start-script toy 4 3 5 0 small_script small_script-IsProper
