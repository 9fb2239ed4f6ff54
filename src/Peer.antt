-- ===== src/Peer.antt =====
-- peer.h and peer.cpp: the state of a validator. Each method is a function on it.
pub mod Order
pub mod History
pub mod Scan
pub mod Serving
pub mod Setup
pub mod Packing
pub mod Missing
pub mod Requests
pub mod Round
pub mod Digest
pub mod Handshake
pub mod Move
pub mod Records
pub mod Turn
use dag_blockchain.Prelude.{Bool, Bytes, List, nat_eq, ℕ, ◌/◌}
use dag_blockchain.Vertex.{Vertex}
use dag_blockchain.Network.Server.{Server}
use dag_blockchain.Network.Client.{Client}

-- WAVE and HALF_WAVE
abbrev pub wave : ℕ
wave = 4

abbrev pub half_wave : ℕ
half_wave = wave / 2

-- `tasks` are the sends given to the pool, with their sockets; `checks` are the rounds for which a
-- thread of check_round was started.
pub record Peer : Type 0 where
  pub round : ℕ
  pub crowd : ℕ
  pub last_round : ℕ
  pub byzantines : ℕ
  pub id : ℕ
  pub fail : Bool
  pub server : Server
  pub client : Client
  pub buffer : List Vertex
  pub requests : List (ℕ × Vertex)
  pub black_list : List ℕ
  pub requests_asked : ℕ
  pub dag_image : List (List Bytes)
  pub tasks : List (ℕ × Bytes)
  pub checks : List ℕ
