-- ===== src/Peer/Requests.antt =====
-- check_round and make_request of peer.cpp: how a peer asks for the vertices that it lacks.
pub mod Targets
pub mod Wanted
pub mod Asked
pub mod Answer
use dag_blockchain.Prelude.{
  Bool, Bytes, List, Option, [], false, if◌then◌else◌, length, nat_eq, none, replicate, some, suc,
  zero, ℕ, ◌+◌, ◌-◌, ◌==◌, ◌||◌, ◌∷◌,
}
use dag_blockchain.Prelude.Int.{pos}
use dag_blockchain.Vertex.{Crypto, key, hash_256}
use dag_blockchain.Bytes.Words.{be64}
use dag_blockchain.Bytes.Buffer.{memcpy}
use dag_blockchain.Containers.Set.{contains}
use dag_blockchain.Network.Outcome.{Outcome, returns, lift, ◌>>=◌}
use dag_blockchain.Network.Message.{prefix, dynamic_copy}
use dag_blockchain.Network.Server.{find_in_map}
use dag_blockchain.Network.Client.{get_socket, get_peer_id_at}
use dag_blockchain.Peer.{Peer}
use dag_blockchain.Peer.Missing.{enqueue_send}

-- The array of 75 bytes: the prefix, and behind it the hash.
unfoldable pub request_head : Bytes → Option Bytes
request_head hash = elim (memcpy (replicate 75 0) 0 (prefix ∷ [])) [
  | none ↦ none
  | some buffer ↦ memcpy buffer 1 hash
]

-- With the id behind the hash, in network order; all copies are of `len` bytes.
unfoldable pub request_message : Bytes → ℕ → Option Bytes
unfolding request_head
request_message hash id = elim (request_head hash) [
  | none ↦ none
  | some buffer ↦ elim (memcpy buffer (length hash + 1) (be64 id)) [
    | none ↦ none
    | some buffer' ↦ dynamic_copy buffer' (length hash + 8 + 1)
  ]
]

-- The loop over the first `count` sockets, with the flag `sent_to_owner`.
unfoldable pub ask : ℕ → List ℕ → Bytes → ℕ → Bool → Peer → Option (Bool × Peer)
ask zero sockets message owner sent p = some (sent, p)
ask (suc count) [] message owner sent p = none
ask (suc count) (s ∷ sockets) message owner sent p =
    ask count sockets message owner (s == owner || sent) (enqueue_send s message p)

-- `sockets` is the shuffled copy of the list of sockets.
unfoldable pub make_request : Bytes → ℕ → List ℕ → Peer → Outcome Peer
unfolding request_message ask
make_request hash owner sockets p =
    let asking = record p { requests_asked = p.requests_asked + 1 } in
    lift (request_message hash p.id) >>= λ message.
    lift (ask (p.byzantines + 1) sockets message owner false asking) >>= λ asked.
    returns (if asked.0 then asked.1 else enqueue_send owner message asked.1)

module _ (crypto : Crypto) (shuffle : ℕ → List ℕ → List ℕ) where
  -- One peer of the loop: nothing for a peer on the list, nor for a vertex that is known.
  unfoldable pub check_peer : ℕ → ℕ → Peer → Outcome Peer
  unfolding make_request
  check_peer round peer_id p =
      let h = hash_256 crypto (key (pos (round + 1)) peer_id) in
      if contains peer_id p.black_list then returns p else elim (find_in_map h p.server) [
        | some v ↦ returns p
        | none ↦
            let (socket, client) = get_socket peer_id p.client in
            make_request h socket (shuffle p.requests_asked p.client.c_sockets)
              (record p { client = client })
      ]

  -- The loop over the other peers from number `j`.
  unfoldable pub check_peers : ℕ → ℕ → ℕ → Peer → Outcome Peer
  unfolding check_peer
  check_peers zero j round p = returns p
  check_peers (suc count) j round p = lift (get_peer_id_at j p.client) >>= λ peer_id.
      check_peer round peer_id p >>= λ p'. check_peers count (j + 1) round p'

  unfoldable pub check_round : ℕ → Peer → Outcome Peer
  unfolding check_peers
  check_round round p = check_peers (p.crowd - 1) 0 round p
