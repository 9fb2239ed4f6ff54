-- ===== src/Peer/Requests/Asked.antt =====
-- check_round asks for the vertices that the peer lacks, one peer of its loop after the other.
use dag_blockchain.Prelude.{
  Bool-cases, List, Option-cases, [], ap, append-nil, append_assoc, ap₂, arith, bytes_eq, false,
  get_elem?, get_elem?-append, inl, inr, length, length-append, nat_eq, refl, some, subst, suc, sym,
  true, ℕ, ◌++◌, ◌+◌, ◌-◌, ◌∙◌, ◌∷◌, ◌≡◌,
}
use dag_blockchain.Prelude.Int.{pos}
use dag_blockchain.Vertex.Key.{length-hash_256}
use dag_blockchain.Vertex.{Crypto, key}
use dag_blockchain.Containers.Map
use dag_blockchain.Containers.Set.{contains}
use dag_blockchain.Network.Outcome.{returns}
use dag_blockchain.Network.Message.Kinds.{request_bytes}
use dag_blockchain.Network.Server.{find_in_map}
use dag_blockchain.Network.Client.{Client, get_peer_id_at}
use dag_blockchain.Peer.{Peer}
use dag_blockchain.Peer.Requests.{make_request, check_peer, check_peers, check_round}
use dag_blockchain.Peer.Requests.Targets.{sends_to, targets, make_request_lem}
use dag_blockchain.Peer.Requests.Wanted.{
  Asks, wants, name_at, ask-Asks, skip-Asks, IsConnected, asked, get_socket-known,
}

get_peer_id_at-next :
    (before ids : List ℕ) (peer_id : ℕ) (c : Client)
    → c.peers ≡ before ++ peer_id ∷ ids
    → get_peer_id_at (length before) c ≡ some peer_id
unfolding get_peer_id_at
get_peer_id_at-next before ids peer_id c e =
    ap (λ ps. get_elem? ps (length before)) e
    ∙ get_elem?-append before (peer_id ∷ ids) (length before) 0 (omega arith)

module _ (crypto : Crypto) (shuffle : ℕ → List ℕ → List ℕ) where
  check_peer-skips :
      (round peer_id : ℕ) (p : Peer)
      → wants crypto shuffle round p peer_id ≡ false
      → check_peer crypto shuffle round peer_id p ≡ returns p
  unfolding check_peer
  check_peer-skips round peer_id p h = elim (Bool-cases (contains peer_id p.black_list)) [
    | inl listed ↦ rw listed refl
    | inr off ↦ elim (Option-cases (find_in_map (name_at crypto shuffle round peer_id) p.server)) [
      | inl missing ↦ absurd (ground (arith, off, missing))
      | inr (v, there) ↦ rw (off, there) refl
    ]
  ]

  check_peer-asks :
      (round peer_id socket : ℕ) (p : Peer)
      → wants crypto shuffle round p peer_id ≡ true
      → Map.find peer_id p.client.socket_map ≡ some socket
      → check_peer crypto shuffle round peer_id p
        ≡ make_request
            (name_at crypto shuffle round peer_id)
            socket
            (shuffle p.requests_asked p.client.c_sockets)
            p
  unfolding check_peer
  check_peer-asks round peer_id socket p h known =
      elim (Bool-cases (contains peer_id p.black_list)) [
        | inl listed ↦ absurd (ground (arith, listed))
        | inr off ↦
            elim (Option-cases (find_in_map (name_at crypto shuffle round peer_id) p.server)) [
              | inl missing ↦ rw (off, missing, get_socket-known peer_id socket p.client known) refl
              | inr (v, there) ↦ absurd (ground (arith, off, there))
            ]
      ]

  -- One turn of the loop that returns.
  check_peers-turn :
      (round count peer_id : ℕ) (before ids : List ℕ) (p q : Peer)
      → p.client.peers ≡ before ++ peer_id ∷ ids
      → check_peer crypto shuffle round peer_id p ≡ returns q
      → check_peers crypto shuffle (suc count) (length before) round p
        ≡ check_peers crypto shuffle count (length (before ++ peer_id ∷ [])) round q
  unfolding check_peers
  check_peers-turn round count peer_id before ids p q e same =
      rw (get_peer_id_at-next before ids peer_id p.client e, same)
        (ap (λ j. check_peers crypto shuffle count j round q)
          (omega (arith, length-append before (peer_id ∷ []))))

  check_peers-Asks :
      (round : ℕ) (ids before : List ℕ) (p : Peer)
      → p.client.peers ≡ before ++ ids
      → IsConnected crypto shuffle p ids
      → Asks crypto shuffle round p ids
          (check_peers crypto shuffle (length ids) (length before) round p)
  unfolding check_peers
  check_peers-Asks round [] before p e connected = (
    [],
    ap₂ (λ n t. returns (record p { requests_asked = n; tasks = t })) (omega arith)
        (sym (append-nil p.tasks)),
    λ m. refl,
  )
  check_peers-Asks round (peer_id ∷ ids) before p e connected =
      let (socket, known) = connected.known.0 in
      let e' : p.client.peers ≡ (before ++ peer_id ∷ []) ++ ids =
        e ∙ sym (append_assoc before (peer_id ∷ []) ids) in
      let others : (q : Peer)
          → IsConnected crypto shuffle q ids
          → q.client.peers ≡ p.client.peers
          → check_peer crypto shuffle round peer_id p ≡ returns q
          → Asks crypto shuffle round q ids
              (check_peers crypto shuffle (suc (length ids)) (length before) round p) =
        λ q connected' peers same.
          subst (Asks crypto shuffle round q ids)
            (sym (check_peers-turn round (length ids) peer_id before ids p q e same))
            (check_peers-Asks round ids (before ++ peer_id ∷ []) q (peers ∙ e') connected') in
      let fewer : IsConnected crypto shuffle p ids = record {
        known = connected.known.1;
        enough = connected.enough;
      } in
      elim (Bool-cases (wants crypto shuffle round p peer_id)) [
        | inl wanting ↦
            let ts =
              targets (p.byzantines + 1) (shuffle p.requests_asked p.client.c_sockets) socket in
            let q =
              asked crypto shuffle p
                (sends_to ts (request_bytes (name_at crypto shuffle round peer_id) p.id)) in
            let made : check_peer crypto shuffle round peer_id p ≡ returns q =
              check_peer-asks round peer_id socket p wanting known
              ∙ (make_request_lem (name_at crypto shuffle round peer_id) socket
                  (shuffle p.requests_asked p.client.c_sockets) p
                  (length-hash_256 crypto (key (pos (round + 1)) peer_id))
                  (connected.enough p.requests_asked)).0 in
            ask-Asks crypto shuffle round peer_id socket p ids _ connected wanting
              (others q (record { known = connected.known.1; enough = connected.enough }) refl made)
        | inr skipped ↦
            skip-Asks crypto shuffle round peer_id p ids _ skipped
              (others p fewer refl (check_peer-skips round peer_id p skipped))
      ]

  -- For a peer that has as many other peers as its crowd says, has a socket for each of them, and
  -- always has more than `byzantines` sockets after the shuffle: check_round asks once for each
  -- vertex of the next round that is neither in the map nor of a peer on the list, and sends
  -- requests for these vertices and for no others.
  pub check_round_lem :
      (round : ℕ) (p : Peer)
      → p.crowd - 1 ≡ length p.client.peers
      → IsConnected crypto shuffle p p.client.peers
      → Asks crypto shuffle round p p.client.peers (check_round crypto shuffle round p)
  unfolding check_round
  check_round_lem round p all connected =
      subst
        (λ n. Asks crypto shuffle round p p.client.peers (check_peers crypto shuffle n 0 round p))
        (sym all) (check_peers-Asks round p.client.peers [] p refl connected)
