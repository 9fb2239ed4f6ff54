-- ===== src/Peer/Serving/Refines.antt =====
-- The loop of the server on bytes does what its events say.
use dag_blockchain.Prelude.{
  All, Bool-cases, Bytes, List, Option-cases, [], ap, bytes_eq, false, if◌then◌else◌, inl, inr, leb,
  length, map, nat_eq, none, not, refl, some, take, true, ℕ, ◌++◌, ◌==◌, ◌||◌, ◌∙◌, ◌∷◌, ◌≡◌,
}
use dag_blockchain.Prelude.Int.{pos}
use dag_blockchain.Network.Server.Loop.Started.{new_shared}
use dag_blockchain.Network.Calls.{c_epoll_wait, c_epoll_create, c_epoll_ctl}
use dag_blockchain.Containers.Map
use dag_blockchain.Vertex.{Crypto, Vertex, hash}
use dag_blockchain.Network.Outcome.{returns, unfinished, Outcome, ◌>>=◌}
use dag_blockchain.Network.Server.{
  Server, Shared, accept_vertex, accept_vertices, answer_request, hand_over, has_quorum,
  set_thread_ready, new_server,
}
use dag_blockchain.Network.Server.Once.{ServerEvent, serve, serve_event, readied, turned}
use dag_blockchain.Network.Server.Loop.{
  ServerTurn, handle_events, serve_turn, others_do, serve_turns, start,
}
use dag_blockchain.Peer.Serving.{
  Happening, IsProper, asks, brings, bytes_after, closes, connections_after, connects, events_in,
  happen, happens, ready_of, turn_of, within, events_of,
}
use dag_blockchain.Peer.Serving.Handled.{handled}

abbrev pub turns_of : ℕ → List (List Happening) → List ServerTurn
turns_of s_socket script = map (turn_of s_socket) script

abbrev pub connections_at : List (List Happening) → List ℕ → List ℕ
connections_at [] c = c
connections_at (hs ∷ script) c = connections_at script (connections_after hs c)

abbrev pub bytes_at : List (List Happening) → ℕ → ℕ
bytes_at [] b = b
bytes_at (hs ∷ script) b = bytes_at script (bytes_after hs b)

take-map {ℓ κ} :
    {A : Type ℓ} {B : Type κ} (f : A → B) (xs : List A) → take (length xs) (map f xs) ≡ map f xs
take-map f [] = refl
take-map f (x ∷ xs) = ap (λ t. f x ∷ t) (take-map f xs)

-- The lists have been handed over.
abbrev handed : Server → Shared → Server × Shared
handed s shared = (
  record s { thread_ready = false; temp_list = []; temp_request_list = [] },
  record {
    buffer = shared.buffer ++ s.temp_list;
    requests = shared.requests ++ s.temp_request_list;
  },
)

-- With the flag set the server hands over, or has nothing to hand over.
hand_over-ready :
    (n b : ℕ) (c : List ℕ) (s : Server) (shared : Shared)
    → s.thread_ready ≡ true
    → (next : Server × Shared) × (hand_over n s shared ≡ some next)
      × (hand_over n (within c b s) shared ≡ some (within c b next.0, next.1))
      × (next.0.is_up ≡ s.is_up)
unfolding hand_over
hand_over-ready n b c s shared ready =
    elim (Bool-cases
      (not (leb (length s.temp_list) 0) || not (leb (length s.temp_request_list) 0) || n == 0)) [
        | inl due ↦ (handed s shared, rw (due, ready) refl, rw (due, ready) refl, refl)
        | inr early ↦ ((s, shared), rw early refl, rw early refl, refl)
      ]

module _ (crypto : Crypto) (crowd s_socket : ℕ) where
  accept_vertex-up : (v : Vertex) (s : Server) → (accept_vertex crypto crowd v s).is_up ≡ s.is_up
  unfolding accept_vertex
  accept_vertex-up v s = elim (Bool-cases (has_quorum crowd v)) [
    | inr few ↦ rw few refl
    | inl quorum ↦ elim (Option-cases (Map.find (hash crypto v) s.vertex_map)) [
      | inl unknown ↦ rw (quorum, unknown) refl
      | inr (w, found) ↦ rw (quorum, found) refl
    ]
  ]

  accept_vertices-up :
      (vs : List Vertex) (s : Server) → (accept_vertices crypto crowd vs s).is_up ≡ s.is_up
  unfolding accept_vertices
  accept_vertices-up [] s = refl
  accept_vertices-up (v ∷ vs) s =
      accept_vertices-up vs (accept_vertex crypto crowd v s) ∙ accept_vertex-up v s

  answer_request-up :
      (k : Bytes) (id : ℕ) (s : Server) → (answer_request crypto crowd k id s).is_up ≡ s.is_up
  unfolding answer_request
  answer_request-up k id s = elim (Option-cases (Map.find k s.vertex_map)) [
    | inl unknown ↦ rw (answer_request, unknown) refl
    | inr (v, found) ↦ rw (answer_request, found) refl
  ]

  happens-up : (h : Happening) (s : Server) → (happens crypto crowd h s).is_up ≡ s.is_up
  happens-up (connects new) s = refl
  happens-up (closes fd) s = refl
  happens-up (asks fd name id n later) s = answer_request-up name id s
  happens-up (brings fd v vs n later) s = accept_vertices-up (v ∷ vs) s

  happen-up : (hs : List Happening) (s : Server) → (happen crypto crowd hs s).is_up ≡ s.is_up
  happen-up [] s = refl
  happen-up (h ∷ hs) s = happen-up hs (happens crypto crowd h s) ∙ happens-up h s

  handle_events-ready :
      (hs : List Happening) (c : List ℕ) (b : ℕ) (s : Server)
      → All (IsProper s_socket) hs
      → handle_events crypto crowd s_socket (map (ready_of s_socket) hs) (within c b s)
        ≡ returns (within (connections_after hs c) (bytes_after hs b) (happen crypto crowd hs s))
  unfolding handle_events
  handle_events-ready [] c b s ok = refl
  handle_events-ready (h ∷ hs) c b s ok =
      rw (handled crypto crowd s_socket h c b s ok.0) (handle_events-ready hs _ _ _ ok.1)

  serve-events_in :
      (hs : List Happening) (rest : List ServerEvent) (s : Server) (shared : Shared)
      → serve crypto crowd (events_in hs rest) s shared
        ≡ serve crypto crowd rest (happen crypto crowd hs s) shared
  unfolding serve serve_event
  serve-events_in [] rest s shared = refl
  serve-events_in (connects new ∷ hs) rest s shared = serve-events_in hs rest s shared
  serve-events_in (closes fd ∷ hs) rest s shared = serve-events_in hs rest s shared
  serve-events_in (asks fd name id n later ∷ hs) rest s shared = serve-events_in hs rest _ shared
  serve-events_in (brings fd v vs n later ∷ hs) rest s shared = serve-events_in hs rest _ shared

  -- A round of the loop that begins with the server up.
  turn-happen :
      (hs : List Happening) (c : List ℕ) (b : ℕ) (s : Server) (shared : Shared)
      → All (IsProper s_socket) hs
      → (next : Server × Shared) × (next.0.is_up ≡ s.is_up)
        × ((rest : List ServerEvent)
            → serve crypto crowd (events_in hs (readied ∷ turned (length hs) ∷ rest)) s shared
              ≡ serve crypto crowd rest next.0 next.1)
        × (serve_turn crypto crowd s_socket (turn_of s_socket hs) (within c b s) shared
            ≡ returns (within (connections_after hs c) (bytes_after hs b) next.0, next.1))
  unfolding serve serve_event serve_turn c_epoll_wait others_do set_thread_ready
  turn-happen hs c b s shared ok =
      let s' : Server = record (happen crypto crowd hs s) { thread_ready = true } in
      let (next, plain, inside, up) =
        hand_over-ready (length hs) (bytes_after hs b) (connections_after hs c) s' shared refl in
      (
        next,
        up ∙ happen-up hs s,
        λ rest. serve-events_in hs (readied ∷ turned (length hs) ∷ rest) s shared ∙ rw plain refl,
        rw (take-map (ready_of s_socket) hs, handle_events-ready hs c b s ok)
            (ap (λ o. elim o [ none ↦ unfinished | some n ↦ returns n ]) inside),
      )

  serve_turns-script :
      (script : List (List Happening)) (c : List ℕ) (b : ℕ) (s : Server) (shared : Shared)
      → All (All (IsProper s_socket)) script
      → s.is_up ≡ true
      → (last : Server × Shared) × (serve crypto crowd (events_of script) s shared ≡ some last)
        × (serve_turns crypto crowd s_socket (turns_of s_socket script) (within c b s) shared
            ≡ returns (within (connections_at script c) (bytes_at script b) last.0, last.1))
  unfolding serve serve_turns others_do
  serve_turns-script [] c b s shared ok up = ((s, shared), refl, refl)
  serve_turns-script (hs ∷ script) c b s shared ok up =
      let (next, still, plain, bytes) = turn-happen hs c b s shared ok.0 in
      let (last, events, run) =
        serve_turns-script script (connections_after hs c) (bytes_after hs b) next.0 next.1 ok.1
          (still ∙ up) in
      let first = serve_turn crypto crowd s_socket (turn_of s_socket hs) (within c b s) shared in
      let later : Server × Shared → Outcome (Server × Shared) =
        λ n. serve_turns crypto crowd s_socket (turns_of s_socket script) n.0 n.1 in
      (
        last,
        plain (events_of script) ∙ events,
        ap (λ u. if u then first >>= later else returns (within c b s, shared)) up
            ∙ ap (λ o. o >>= later) bytes
            ∙ run,
      )

  -- Peers connect, close connections, ask for vertices with requests of the right size, and send
  -- packets of vertices that fit their words and the buffer and have no delimiter pattern inside,
  -- each on a connection that is not the listening socket; the calls of the system succeed, and at
  -- the end of each round the other thread is ready. Then start returns after these rounds, and on
  -- the bytes of the messages it has done what the row of events without bytes does to a new
  -- server; it watches the connections that were made and not closed.
  pub start-script :
      (ep_fd watched : ℕ) (script : List (List Happening))
      → All (All (IsProper s_socket)) script
      → (last : Server × Shared) × (serve crypto crowd (events_of script) new_server new_shared
          ≡ some last)
        × (start crypto crowd s_socket
              (pos ep_fd)
              (pos watched)
              (turns_of s_socket script)
              new_server
              new_shared
            ≡ returns (within (connections_at script []) (bytes_at script 0) last.0, last.1))
  unfolding start new_server c_epoll_create c_epoll_ctl
  start-script ep_fd watched script ok =
      serve_turns-script script [] 0 new_server new_shared ok refl
