-- ===== src/Peer/Requests/Wanted.antt =====
-- For which vertices check_round asks.
use dag_blockchain.Prelude.{
  All, Bool, Bytes, List, [], ap, append_assoc, ap₂, arith, bytes_eq, false, if◌then◌else◌, length,
  nat_eq, none, not, refl, some, sym, true, ℕ, ◌&&◌, ◌++◌, ◌+◌, ◌<◌, ◌==◌, ◌||◌, ◌∙◌, ◌∷◌, ◌≡◌, ◌≤◌,
}
use dag_blockchain.Prelude.Int.{pos}
use dag_blockchain.Vertex.Key.{length-hash_256}
use dag_blockchain.Vertex.{Crypto, key, hash_256}
use dag_blockchain.Containers.Map
use dag_blockchain.Containers.Set.{contains}
use dag_blockchain.Network.Outcome.{Outcome, returns}
use dag_blockchain.Network.Message.Kinds.{request_bytes}
use dag_blockchain.Network.Server.{find_in_map}
use dag_blockchain.Network.Client.{Client, get_socket}
use dag_blockchain.Peer.{Peer}
use dag_blockchain.Peer.Requests.Targets.{sends_to, targets, make_request_lem}

abbrev pub messages : List (ℕ × Bytes) → List Bytes
messages [] = []
messages (task ∷ tasks) = task.1 ∷ messages tasks

contains-append :
    (m : Bytes) (xs ys : List Bytes) → contains m (xs ++ ys) ≡ (contains m xs || contains m ys)
unfolding contains
contains-append m [] ys = refl
contains-append m (x ∷ xs) ys = ground (arith, contains-append m xs ys)

messages-append : (xs ys : List (ℕ × Bytes)) → messages (xs ++ ys) ≡ messages xs ++ messages ys
messages-append [] ys = refl
messages-append (x ∷ xs) ys = ap (λ t. x.1 ∷ t) (messages-append xs ys)

-- The same message to some sockets.
contains-sends_to :
    (m message : Bytes) (sockets : List ℕ)
    → 0 < length sockets
    → contains m (messages (sends_to sockets message)) ≡ (message == m)
unfolding contains
contains-sends_to m message [] h = absurd (omega arith)
contains-sends_to m message (s ∷ []) h = ground arith
contains-sends_to m message (s ∷ t ∷ sockets) h =
    ground (arith, contains-sends_to m message (t ∷ sockets) (omega arith))

pub get_socket-known :
    (peer_id socket : ℕ) (c : Client)
    → Map.find peer_id c.socket_map ≡ some socket
    → get_socket peer_id c ≡ (socket, c)
unfolding get_socket
get_socket-known peer_id socket c known = rw (get_socket, known) refl

module _ (crypto : Crypto) (shuffle : ℕ → List ℕ → List ℕ) where
  abbrev pub name_at : ℕ → ℕ → Bytes
  name_at round peer_id = hash_256 crypto (key (pos (round + 1)) peer_id)

  -- A peer that is not on the list, whose vertex of the round is not in the map.
  abbrev pub wants : ℕ → Peer → ℕ → Bool
  wants round p peer_id =
      not (contains peer_id p.black_list)
      && elim (find_in_map (name_at round peer_id) p.server) [ none ↦ true | some v ↦ false ]

  -- The requests for the vertices of these peers that are missing.
  abbrev pub wanted : ℕ → Peer → List ℕ → List Bytes
  wanted round p [] = []
  wanted round p (peer_id ∷ ids) =
      if wants round p peer_id
      then request_bytes (name_at round peer_id) p.id ∷ wanted round p ids
      else wanted round p ids

  -- The peer has a socket for each of these ids, and enough of them for a request.
  pub record IsConnected (p : Peer) (ids : List ℕ) : Type 0 where
    pub known : All (λ id. (s : ℕ) × (Map.find id p.client.socket_map ≡ some s)) ids
    pub enough : (k : ℕ) → p.byzantines + 1 ≤ length (shuffle k p.client.c_sockets)

  -- One request is asked for each, and the messages are these.
  abbrev pub Asks : ℕ → Peer → List ℕ → Outcome Peer → Type 0
  Asks round p ids outcome =
      (new : List (ℕ × Bytes)) × (outcome
        ≡ returns (record p {
          requests_asked = p.requests_asked + length (wanted round p ids);
          tasks = p.tasks ++ new;
        }))
      × ((m : Bytes) → contains m (messages new) ≡ contains m (wanted round p ids))

  -- The peer after a request.
  abbrev pub asked : Peer → List (ℕ × Bytes) → Peer
  asked p new = record p { requests_asked = p.requests_asked + 1; tasks = p.tasks ++ new }

  wanted-asked :
      (round : ℕ) (p : Peer) (new : List (ℕ × Bytes)) (ids : List ℕ)
      → wanted round (asked p new) ids ≡ wanted round p ids
  wanted-asked round p new [] = refl
  wanted-asked round p new (peer_id ∷ ids) =
      ap (λ r. if wants round p peer_id then request_bytes (name_at round peer_id) p.id ∷ r else r)
        (wanted-asked round p new ids)

  -- One more peer in front.
  pub skip-Asks :
      (round peer_id : ℕ) (p : Peer) (ids : List ℕ) (outcome : Outcome Peer)
      → wants round p peer_id ≡ false
      → Asks round p ids outcome
      → Asks round p (peer_id ∷ ids) outcome
  skip-Asks round peer_id p ids outcome h asks = rw h asks

  pub ask-Asks :
      (round peer_id socket : ℕ) (p : Peer) (ids : List ℕ) (outcome : Outcome Peer)
      → IsConnected p (peer_id ∷ ids)
      → wants round p peer_id ≡ true
      → Asks round
          (asked p (
            sends_to
              (targets (p.byzantines + 1) (shuffle p.requests_asked p.client.c_sockets) socket)
              (request_bytes (name_at round peer_id) p.id)))
          ids
          outcome
      → Asks round p (peer_id ∷ ids) outcome
  unfolding contains
  ask-Asks round peer_id socket p ids outcome connected h (new, e, same) =
      let ts = targets (p.byzantines + 1) (shuffle p.requests_asked p.client.c_sockets) socket in
      let message = request_bytes (name_at round peer_id) p.id in
      let sent = sends_to ts message in
      let some_target : 0 < length ts = omega (
        arith,
        (make_request_lem (name_at round peer_id) socket
            (shuffle p.requests_asked p.client.c_sockets) p
            (length-hash_256 crypto (key (pos (round + 1)) peer_id))
            (connected.enough p.requests_asked)).2,
      ) in
      let here : wanted round p (peer_id ∷ ids) ≡ message ∷ wanted round (asked p sent) ids =
        rw (h, wanted-asked round p sent ids) refl in
      (
        sent ++ new,
        e
            ∙ ap₂ (λ n t. returns (record p { requests_asked = n; tasks = t }))
                (omega (arith, ap length here)) (append_assoc p.tasks sent new),
        λ m.
            ap (contains m) (messages-append sent new)
            ∙ contains-append m (messages sent) (messages new)
            ∙ ap₂ ◌||◌ (contains-sends_to m message ts some_target) (same m)
            ∙ ap (contains m) (sym here),
      )
