-- ===== src/Network/Server/Loop.antt =====
-- Server::start of networking.cpp as a whole: the calls of epoll, the events of each round of the
-- loop, and what the other thread does meanwhile.
pub mod Started
use dag_blockchain.Prelude.{
  Bool, Bytes, List, Option, [], false, if◌then◌else◌, nat_eq, none, some, take, true, ℕ, ◌++◌,
  ◌==◌, ◌∷◌,
}
use dag_blockchain.Prelude.Int.{pos, ℤ}
use dag_blockchain.Vertex.{Crypto, Vertex}
use dag_blockchain.Network.Outcome.{Outcome, returns, unfinished, ◌>>=◌}
use dag_blockchain.Network.Calls.{c_accept, c_epoll_create, c_epoll_ctl, c_epoll_wait}
use dag_blockchain.Network.Server.{
  Server, Shared, add_to_map, hand_over, handle_message, set_thread_ready,
}

-- An event of epoll_wait: its descriptor, whether EPOLLIN is set, what accept and epoll_ctl answer
-- if they are called, and for a connection what has arrived and what is going to.
pub record Ready : Type 0 where
  pub fd : ℕ
  pub readable : Bool
  pub accepted : ℤ
  pub ctl : ℤ
  pub arrived : Option ℕ
  pub stream : Bytes
  pub fuel : ℕ

-- What the other thread does with the server.
pub data Other : Type 0 where
  readies : Other
  adds : Bytes → Vertex → Other
  stops : Other

-- Before the test of is_up, the answer of epoll_wait, the events, and during the wait for the flag.
pub record ServerTurn : Type 0 where
  pub before : List Other
  pub system : ℤ → ℤ
  pub events : List Ready
  pub waiting : List Other

unfoldable pub others_do : List Other → Server → Server
others_do [] s = s
others_do (readies ∷ os) s = others_do os (set_thread_ready true s)
others_do (adds key v ∷ os) s = others_do os (add_to_map key v s)
others_do (stops ∷ os) s = others_do os (record s { is_up = false })

module _ (crypto : Crypto) (crowd s_socket : ℕ) where
  -- A new connection, or a message of one that is there.
  unfoldable pub handle_event : Ready → Server → Outcome Server
  handle_event e s =
      let connected =
        (c_accept e.accepted >>= λ client_handler_fd. c_epoll_ctl e.ctl >>= λ _.
        returns (record s { connections = s.connections ++ client_handler_fd ∷ [] })) in
      let received =
        (handle_message crypto crowd e.fuel e.fd e.ctl e.arrived e.stream s >>= λ handled.
        returns handled.0) in
      if e.readable then (if e.fd == s_socket then connected else received) else returns s

  unfoldable pub handle_events : List Ready → Server → Outcome Server
  unfolding handle_event
  handle_events [] s = returns s
  handle_events (e ∷ es) s = handle_event e s >>= handle_events es

  -- One round of the loop. `unfinished`: it waits for the flag.
  unfoldable pub serve_turn : ServerTurn → Server → Shared → Outcome (Server × Shared)
  unfolding handle_events
  serve_turn turn s shared = c_epoll_wait turn.system (pos 0) >>= λ nfds.
      handle_events (take nfds turn.events) s >>= λ handled.
      elim (hand_over nfds (others_do turn.waiting handled) shared) [
        | none ↦ unfinished
        | some next ↦ returns next
      ]

  -- The loop for some rounds, or until it ends.
  unfoldable pub serve_turns : List ServerTurn → Server → Shared → Outcome (Server × Shared)
  unfolding serve_turn
  serve_turns [] s shared = returns (s, shared)
  serve_turns (turn ∷ turns) s shared =
      let s' = others_do turn.before s in
      let rest = (serve_turn turn s' shared >>= λ next. serve_turns turns next.0 next.1) in
      if s'.is_up then rest else returns (s', shared)

  -- `created` and `watched` are the answers of the system before the loop. Behind it two descriptors
  -- are closed.
  unfoldable pub start : ℤ → ℤ → List ServerTurn → Server → Shared → Outcome (Server × Shared)
  unfolding serve_turns
  start created watched turns s shared =
      c_epoll_create created >>= λ ep_fd. c_epoll_ctl watched >>= λ _. serve_turns turns s shared
