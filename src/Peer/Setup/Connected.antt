-- ===== src/Peer/Setup/Connected.antt =====
-- A peer that has read the file and is connected can ask for what it lacks.
use dag_blockchain.Prelude.{
  All, Bool-cases, Bytes, List, Option, [], ap, append-nil, append_assoc, ap₂, arith, if◌then◌else◌,
  inl, inr, length, nat_eq, none, refl, some, subst, suc, sym, ℕ, ◌++◌, ◌+◌, ◌-◌, ◌==◌, ◌∙◌, ◌∷◌,
  ◌≡◌, ◌≤◌,
}
use dag_blockchain.Prelude.Int.{pos, ℤ}
use dag_blockchain.Peer.Requests.Asked.{check_round_lem}
use dag_blockchain.Containers.Map
use dag_blockchain.Containers.Set.{IsDistinct}
use dag_blockchain.Peer.Requests.{check_round}
use dag_blockchain.Peer.Requests.Wanted.{Asks, IsConnected}
use dag_blockchain.Vertex.{Crypto}
use dag_blockchain.Network.Quorum.{max_byzantines}
use dag_blockchain.Network.Client.{Client}
use dag_blockchain.Network.Outcome.{returns, ◌>>=◌}
use dag_blockchain.Network.Client.Connect.{Contact, connect_to}
use dag_blockchain.Network.Client.Sockets.{
  contacts, found, ids, sockets, new_client, connect_to_lem,
}
use dag_blockchain.Peer.{Peer}
use dag_blockchain.Peer.Setup.{Line, both, read_peers, reached, setup_network}

-- A line of the file, and the id and the socket of the peer that it names.
pub record Entry : Type 0 where
  pub address : Bytes
  pub port : ℕ
  pub id : ℕ
  pub socket : ℕ

abbrev pub lines_of : List Entry → List Line
lines_of [] = []
lines_of (e ∷ es) = both e.address (pos e.port) ∷ lines_of es

-- The entries with another port.
abbrev pub others : ℕ → List Entry → List Entry
others own [] = []
others own (e ∷ es) = if own == e.port then others own es else e ∷ others own es

-- How often the port is there.
abbrev pub occurrences : ℕ → List Entry → ℕ
occurrences own [] = 0
occurrences own (e ∷ es) = if own == e.port then suc (occurrences own es) else occurrences own es

abbrev pub servers_of : List Entry → List (Bytes × ℤ)
servers_of [] = []
servers_of (e ∷ es) = (e.address, pos e.port) ∷ servers_of es

abbrev pub peers_of : List Entry → List (ℕ × ℕ)
peers_of [] = []
peers_of (e ∷ es) = (e.id, e.socket) ∷ peers_of es

length-others :
    (own : ℕ) (es : List Entry) → length (others own es) + occurrences own es ≡ length es
length-others own [] = refl
length-others own (e ∷ es) = ground (arith, length-others own es)

length-ids : (es : List Entry) → length (ids (peers_of es)) ≡ length es
length-ids [] = refl
length-ids (e ∷ es) = ap suc (length-ids es)

length-sockets : (es : List Entry) → length (sockets (peers_of es)) ≡ length es
length-sockets [] = refl
length-sockets (e ∷ es) = ap suc (length-sockets es)

read_peers-others :
    (own : ℕ) (es : List Entry) (before : Bytes × Option ℤ) (known : List (Bytes × ℤ))
    → read_peers own (lines_of es) before known ≡ returns (known ++ servers_of (others own es))
unfolding read_peers
read_peers-others own [] before known = ap returns (sym (append-nil known))
read_peers-others own (e ∷ es) before known = elim (Bool-cases (own == e.port)) [
  | inl same ↦ rw same (read_peers-others own es (e.address, some (pos e.port)) known)
  | inr other ↦ rw other (
      read_peers-others own es (e.address, some (pos e.port))
        (known ++ (e.address, pos e.port) ∷ [])
      ∙ ap returns (append_assoc known ((e.address, pos e.port) ∷ []) (servers_of (others own es))))
]

-- Every server in the list answers, from the connection with number `i` on, and its peer has left its
-- id.
abbrev pub Answer : (ℕ → Bytes → ℤ → Contact) → ℕ → List Entry → Type 0
Answer world i [] = Unit {0}
Answer world i (e ∷ es) =
    (world i e.address (pos e.port) ≡ found (e.id, e.socket)) × Answer world (i + 1) es

reached-contacts :
    (world : ℕ → Bytes → ℤ → Contact) (i : ℕ) (es : List Entry)
    → Answer world i es
    → reached world i (servers_of es) ≡ contacts (peers_of es)
unfolding reached
reached-contacts world i [] answer = refl
reached-contacts world i (e ∷ es) answer =
    rw (reached, answer.0, reached-contacts world (i + 1) es answer.1) refl

All-known :
    (c : Client) (es : List Entry)
    → All (λ peer. Map.find peer.0 c.socket_map ≡ some peer.1) (peers_of es)
    → All (λ id. (s : ℕ) × (Map.find id c.socket_map ≡ some s)) (ids (peers_of es))
All-known c [] all = tt
All-known c (e ∷ es) all = ((e.socket, all.0), All-known c es all.1)

-- The tolerance is below the number of the others.
few_byzantines : (crowd : ℕ) → 2 ≤ crowd → max_byzantines crowd + 1 ≤ crowd - 1
unfolding max_byzantines
few_byzantines crowd h = omega (arith, h)

-- What setup_network is to give to a peer.
abbrev pub IsSetUp : Crypto → (ℕ → List ℕ → List ℕ) → List Entry → Peer → Type 0
IsSetUp crypto shuffle es q =
    (q.client.peers ≡ ids (peers_of es))
    × (q.client.c_sockets ≡ sockets (peers_of es))
    × ((round : ℕ)
        → Asks crypto shuffle round q q.client.peers (check_round crypto shuffle round q))

module _ (crypto : Crypto) (shuffle : ℕ → List ℕ → List ℕ) where
  -- A new peer reads a file of two or more lines, each with an address and a port, as many as its
  -- crowd, among which its own port is there once; the other servers answer, and their peers, with
  -- different ids, have left these in their files; and the shuffle keeps the length of a list. Then
  -- the call returns, the client has the ids and sockets of the others in the order of the file,
  -- and check_round asks once for each vertex of a round that is neither in the map nor of a peer
  -- on the list of failed peers, and for no other.
  pub setup_network_lem :
      (world : ℕ → Bytes → ℤ → Contact) (own : ℕ) (es : List Entry) (p : Peer)
      → p.client ≡ new_client
      → p.crowd ≡ length es
      → 2 ≤ length es
      → occurrences own es ≡ 1
      → p.byzantines ≡ max_byzantines p.crowd
      → IsDistinct (ids (peers_of (others own es)))
      → Answer world 0 (others own es)
      → ((k : ℕ) (xs : List ℕ) → length (shuffle k xs) ≡ length xs)
      → (q : Peer) × (setup_network world own (some (lines_of es)) p ≡ returns q)
        × IsSetUp crypto shuffle (others own es) q
  unfolding setup_network
  setup_network_lem world own es p new crowd two once tolerance distinct answer same_length =
      let rest = others own es in
      let (c, run, peers, socks, found_all) = connect_to_lem (peers_of rest) distinct in
      let q : Peer = record p { client = c } in
      let size : length rest + 1 ≡ length es =
        ap (λ n. length rest + n) (sym once) ∙ length-others own es in
      let all : q.crowd - 1 ≡ length q.client.peers =
        omega (arith, crowd, size, ap length peers, length-ids rest) in
      let enough : (k : ℕ) → q.byzantines + 1 ≤ length (shuffle k c.c_sockets) = λ k. omega (
        arith,
        same_length k c.c_sockets,
        ap length socks,
        length-sockets rest,
        size,
        crowd,
        tolerance,
        two,
        few_byzantines p.crowd (omega (arith, crowd, two)),
      ) in
      let connected : IsConnected crypto shuffle q q.client.peers = record {
        known =
            subst (All (λ id. (s : ℕ) × (Map.find id c.socket_map ≡ some s))) (sym peers)
              (All-known c rest found_all);
        enough = enough;
      } in
      (
        q,
        ap
              (λ o. o >>= λ known. connect_to (reached world 0 known) p.client >>= λ client.
                returns (record p { client = client }))
              (read_peers-others own es ([], none) [])
            ∙ ap (λ o. o >>= λ client. returns (record p { client = client }))
                (ap₂ connect_to (reached-contacts world 0 rest answer) new ∙ run),
        (peers, socks, λ round. check_round_lem crypto shuffle round q all connected),
      )
