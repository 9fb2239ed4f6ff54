-- ===== src/Network/Client/Sockets.antt =====
-- Which sockets a client has for which peers when it is connected.
use dag_blockchain.Prelude.{
  All, List, Option, [], ap, append-nil, append_assoc, arith, beq_refl, false, nat_eq, none, refl,
  some, sym, true, ℕ, ◌++◌, ◌==◌, ◌∙◌, ◌∷◌, ◌≡◌,
}
use dag_blockchain.Containers.Map
use dag_blockchain.Containers.Set.{contains, IsDistinct}
use dag_blockchain.Network.Outcome.{returns}
use dag_blockchain.Network.Client.{Client, add_connection}
use dag_blockchain.Network.Client.Connect.{Contact, connect_loop, connect_to}

-- A server that answers, whose peer has left its id.
abbrev pub found : ℕ × ℕ → Contact
found peer = record { socket = some peer.1; connects = true; file_id = some peer.0 }

abbrev pub contacts : List (ℕ × ℕ) → List Contact
contacts [] = []
contacts (peer ∷ peers) = found peer ∷ contacts peers

abbrev pub ids : List (ℕ × ℕ) → List ℕ
ids [] = []
ids (peer ∷ peers) = peer.0 ∷ ids peers

abbrev pub sockets : List (ℕ × ℕ) → List ℕ
sockets [] = []
sockets (peer ∷ peers) = peer.1 ∷ sockets peers

abbrev add_all : List (ℕ × ℕ) → Client → Client
add_all [] c = c
add_all (peer ∷ peers) c = add_all peers (add_connection peer.0 peer.1 c)

loop-add_all :
    (peers : List (ℕ × ℕ)) (value : Option ℕ) (c : Client)
    → connect_loop (contacts peers) value c ≡ returns (add_all peers c)
unfolding connect_loop
loop-add_all [] value c = refl
loop-add_all (peer ∷ peers) value c =
    loop-add_all peers (some peer.0) (add_connection peer.0 peer.1 c)

add_all-lists :
    (peers : List (ℕ × ℕ)) (c : Client)
    → ((add_all peers c).peers ≡ c.peers ++ ids peers)
      × ((add_all peers c).c_sockets ≡ c.c_sockets ++ sockets peers)
unfolding add_connection
add_all-lists [] c = (sym (append-nil c.peers), sym (append-nil c.c_sockets))
add_all-lists (peer ∷ peers) c =
    let (a, b) = add_all-lists peers (add_connection peer.0 peer.1 c) in
    (
      a ∙ append_assoc c.peers (peer.0 ∷ []) (ids peers),
      b ∙ append_assoc c.c_sockets (peer.1 ∷ []) (sockets peers),
    )

-- An id that does not come again keeps its socket.
add_all-keeps :
    (peers : List (ℕ × ℕ)) (c : Client) (id : ℕ)
    → contains id (ids peers) ≡ false
    → Map.find id (add_all peers c).socket_map ≡ Map.find id c.socket_map
unfolding contains add_connection
add_all-keeps [] c id h = refl
add_all-keeps (peer ∷ peers) c id h =
    let apart : (peer.0 == id) ≡ false = ground (arith, h) in
    add_all-keeps peers (add_connection peer.0 peer.1 c) id (ground (arith, h))
    ∙ Map.find-insert peer.0 id peer.1 c.socket_map
    ∙ rw apart refl

add_all-finds :
    (peers : List (ℕ × ℕ)) (c : Client)
    → IsDistinct (ids peers)
    → All (λ peer. Map.find peer.0 (add_all peers c).socket_map ≡ some peer.1) peers
unfolding add_connection
add_all-finds [] c distinct = tt
add_all-finds (peer ∷ peers) c distinct = (
  add_all-keeps peers (add_connection peer.0 peer.1 c) peer.0 distinct.0
      ∙ Map.find-insert peer.0 peer.0 peer.1 c.socket_map
      ∙ rw (beq_refl peer.0) refl,
  add_all-finds peers (add_connection peer.0 peer.1 c) distinct.1,
)

abbrev pub new_client : Client
new_client = record { peers = []; c_sockets = []; socket_map = [] }

-- If the servers of peers with different ids answer, and each peer has left its id in its file: the
-- client has their ids and the sockets in the order of the file, and finds for each id its socket.
pub connect_to_lem :
    (peers : List (ℕ × ℕ))
    → IsDistinct (ids peers)
    → (c : Client) × (connect_to (contacts peers) new_client ≡ returns c)
      × (c.peers ≡ ids peers)
      × (c.c_sockets ≡ sockets peers)
      × All (λ peer. Map.find peer.0 c.socket_map ≡ some peer.1) peers
unfolding connect_to
connect_to_lem peers distinct =
    let (a, b) = add_all-lists peers new_client in
    (
      add_all peers new_client,
      loop-add_all peers none new_client,
      a,
      b,
      add_all-finds peers new_client distinct,
    )

-- A server whose peer has left no file.
abbrev pub nameless : ℕ → Contact
nameless socket = record { socket = some socket; connects = true; file_id = none }

loop-nameless :
    (peers : List (ℕ × ℕ)) (value : Option ℕ) (c : Client) (id socket other : ℕ)
    → connect_loop (contacts (peers ++ (id, socket) ∷ []) ++ nameless other ∷ []) value c
      ≡ returns (add_connection id other (add_connection id socket (add_all peers c)))
unfolding connect_loop
loop-nameless [] value c id socket other = refl
loop-nameless (peer ∷ peers) value c id socket other =
    loop-nameless peers (some peer.0) (add_connection peer.0 peer.1 c) id socket other

-- If the last server answers, but its peer has left no file, it is taken for the peer before it:
-- that id is twice among the peers, and its socket is the one of the last server.
pub connect_to-nameless :
    (peers : List (ℕ × ℕ)) (id socket other : ℕ)
    → (c : Client) × (connect_to
          (contacts (peers ++ (id, socket) ∷ []) ++ nameless other ∷ [])
          new_client
        ≡ returns c)
      × (c.peers ≡ ids peers ++ id ∷ id ∷ [])
      × (Map.find id c.socket_map ≡ some other)
unfolding connect_to add_connection
connect_to-nameless peers id socket other =
    let before = add_all peers new_client in
    (
      add_connection id other (add_connection id socket before),
      loop-nameless peers none new_client id socket other,
      ap (λ ps. (ps ++ id ∷ []) ++ id ∷ []) (add_all-lists peers new_client).0
          ∙ append_assoc (ids peers) (id ∷ []) (id ∷ []),
      Map.find-insert id id other (Map.insert id socket before.socket_map) ∙ rw (beq_refl id) refl,
    )
