-- ===== src/Tests/Data.antt =====
-- A small hash in place of the one of Crypto++, and the vertices of the tests.
use dag_blockchain.Prelude.{
  Bytes, [], arith, bytes_eq, false, length, length-append, length-replicate, length-take, nat_eq,
  refl, replicate, take, true, ℕ, ◌%◌, ◌*◌, ◌++◌, ◌+◌, ◌/◌, ◌∷◌, ◌≡◌,
}
use dag_blockchain.Prelude.Int.{pos}
use dag_blockchain.Peer.{Peer}
use dag_blockchain.Network.Client.{Client}
use dag_blockchain.Network.Server.{Server}
use dag_blockchain.Vertex.{Crypto, hash_256, Vertex, key}

abbrev pub toy_sha256 : Bytes → Bytes
toy_sha256 input = take 32 (input ++ replicate 32 0)

abbrev pub toy_hex : Bytes → Bytes
toy_hex [] = []
toy_hex (b ∷ bs) = (65 + b / 16 % 16) ∷ (65 + b % 16) ∷ toy_hex bs

pub length-toy_sha256 : (input : Bytes) → length (toy_sha256 input) ≡ 32
length-toy_sha256 input =
    length-take 32 (input ++ replicate 32 0)
      (omega (arith, length-append input (replicate 32 0), length-replicate {A = ℕ} 32 0))

pub length-toy_hex : (input : Bytes) → length (toy_hex input) ≡ 2 * length input
length-toy_hex [] = refl
length-toy_hex (b ∷ bs) = omega (arith, length-toy_hex bs)

-- The first 32 bytes, filled up with zeros, are no digest for use, but they have its size.
abbrev pub toy : Crypto
toy = record {
  sha256 = toy_sha256;
  hex_encode = toy_hex;
  length-sha256 = length-toy_sha256;
  length-hex_encode = length-toy_hex;
}

abbrev pub name_of : ℕ → ℕ → Bytes
name_of round peer_id = hash_256 toy (key (pos round) peer_id)

-- Peers 1 to 4 in the first round, and peer 2 in the second.
abbrev pub first_round : ℕ → Vertex
first_round peer_id = record { round = pos 1; peer_id = peer_id; payload = []; references = [] }

abbrev pub second_round : Vertex
second_round = record {
  round = pos 2;
  peer_id = 2;
  payload = b'2' ∷ b'-' ∷ b'2' ∷ [];
  references = name_of 1 1 ∷ name_of 1 2 ∷ name_of 1 3 ∷ [];
}

-- A vertex with two references of the size of a hash.
abbrev pub small_vertex : Vertex
small_vertex = record {
  round = pos 2;
  peer_id = 7;
  payload = b'2' ∷ b'-' ∷ b'7' ∷ [];
  references = replicate 64 b'A' ∷ replicate 64 b'B' ∷ [];
}

abbrev pub first_vertex : Vertex
first_vertex = record { round = pos 1; peer_id = 7; payload = b'1' ∷ []; references = [] }

abbrev pub small_server : Server
small_server = record {
  vertex_map = [];
  is_up = true;
  thread_ready = false;
  temp_list = [];
  temp_request_list = [];
  connections = [];
  bytes_to_recv = 0;
}

abbrev pub small_client : Client
small_client = record { peers = []; c_sockets = []; socket_map = [] }

-- A peer in the first round of a crowd of four.
abbrev pub small_peer : Peer
small_peer = record {
  round = 1;
  crowd = 4;
  last_round = 20;
  byzantines = 1;
  id = 2;
  fail = false;
  server = small_server;
  client = small_client;
  buffer = [];
  requests = [];
  black_list = [];
  requests_asked = 0;
  dag_image = (name_of 1 1 ∷ name_of 1 2 ∷ name_of 1 3 ∷ []) ∷ [];
  tasks = [];
  checks = [];
}
