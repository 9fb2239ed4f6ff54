-- ===== src/Network/Server/Loop/Started.antt =====
-- What holds of the server however its loop has gone.
use dag_blockchain.Prelude.{
  Bool-cases, Bytes, List, Option, Option-cases, [], inl, inr, nat_eq, none, refl, some, subst,
  take, ℕ, ◌==◌, ◌∷◌, ◌≡◌,
}
use dag_blockchain.Prelude.Int.{pos, ℤ}
use dag_blockchain.Containers.Set.{erase}
use dag_blockchain.Vertex.{Crypto, Vertex}
use dag_blockchain.Network.Outcome.{bind-eq-returns, returns, returns-injective, ◌>>=◌}
use dag_blockchain.Network.Calls.{c_epoll_ctl, c_accept, c_epoll_wait, c_epoll_create}
use dag_blockchain.Network.Message.{
  MsgType, examine_msg, fin_msg, process_request, reg_msg, req_msg,
}
use dag_blockchain.Network.Receive.{c_recvn}
use dag_blockchain.Network.Server.{
  Server, accept_vertices, answer_request, handle_message, set_thread_ready, Shared, new_server,
  hand_over,
}
use dag_blockchain.Network.Server.Hashes.{AllFound}
use dag_blockchain.Network.Server.Once.{
  IsOnce, accept_vertices-IsOnce, add_to_map-IsOnce, answer_request-IsOnce, same_lists,
  hand_over-IsOnce,
}
use dag_blockchain.Network.Server.Loop.{
  Other, adds, others_do, readies, stops, handle_event, handle_events, serve_turn, serve_turns,
  start, Ready, ServerTurn,
}

-- Nothing is handed over yet.
abbrev pub new_shared : Shared
new_shared = record { buffer = []; requests = [] }

module _ (crypto : Crypto) (crowd : ℕ) where
  others_do-IsOnce :
      (os : List Other) (handed : List Vertex) (s : Server)
      → IsOnce crypto crowd handed s
      → IsOnce crypto crowd handed (others_do os s)
  unfolding others_do set_thread_ready
  others_do-IsOnce [] handed s once = once
  others_do-IsOnce (readies ∷ os) handed s once =
      others_do-IsOnce os handed _ (same_lists crypto crowd handed s _ refl refl once)
  others_do-IsOnce (adds key v ∷ os) handed s once =
      others_do-IsOnce os handed _ (add_to_map-IsOnce crypto crowd key v handed s once)
  others_do-IsOnce (stops ∷ os) handed s once =
      others_do-IsOnce os handed _ (same_lists crypto crowd handed s _ refl refl once)

  -- The rest of handle_message, once the kind of the message is known.
  handled-IsOnce :
      (kind : MsgType) (fuel fd bytes : ℕ) (ctl : ℤ) (stream : Bytes) (handed : List Vertex)
      (s : Server) (r : Server × Bytes)
      → elim kind [
        | req_msg ↦ process_request (some stream) >>= λ request.
            returns (answer_request crypto crowd request.0 request.1 s, request.2)
        | reg_msg ↦ c_recvn fuel bytes stream 0 [] >>= λ received. returns (
          accept_vertices crypto crowd received.0 (record s { bytes_to_recv = bytes }),
          received.1,
        )
        | fin_msg ↦ c_epoll_ctl ctl >>= λ _.
            returns (record s { connections = erase fd s.connections }, stream)
      ]
        ≡ returns r
      → IsOnce crypto crowd handed s
      → IsOnce crypto crowd handed r.0
  handled-IsOnce req_msg fuel fd bytes ctl stream handed s r h once =
      let (request, e, done) = bind-eq-returns (process_request (some stream)) _ h in
      subst (λ x. IsOnce crypto crowd handed x.0) (returns-injective done)
        (answer_request-IsOnce crypto crowd request.0 request.1 handed s once)
  handled-IsOnce reg_msg fuel fd bytes ctl stream handed s r h once =
      let (received, e, done) = bind-eq-returns (c_recvn fuel bytes stream 0 []) _ h in
      subst (λ x. IsOnce crypto crowd handed x.0) (returns-injective done)
        (accept_vertices-IsOnce crypto crowd received.0 handed _
          (same_lists crypto crowd handed s (record s { bytes_to_recv = bytes }) refl refl once))
  handled-IsOnce fin_msg fuel fd bytes ctl stream handed s r h once =
      let (u, e, done) = bind-eq-returns (c_epoll_ctl ctl) _ h in
      subst (λ x. IsOnce crypto crowd handed x.0) (returns-injective done)
        (same_lists crypto crowd handed s _ refl refl once)

  handle_message-IsOnce :
      (fuel fd : ℕ) (ctl : ℤ) (arrived : Option ℕ) (stream : Bytes) (handed : List Vertex)
      (s : Server) (r : Server × Bytes)
      → handle_message crypto crowd fuel fd ctl arrived stream s ≡ returns r
      → IsOnce crypto crowd handed s
      → IsOnce crypto crowd handed r.0
  unfolding handle_message
  handle_message-IsOnce fuel fd ctl arrived stream handed s r h once =
      let (examined, e, rest) =
        bind-eq-returns
          (examine_msg s.bytes_to_recv
            (elim arrived [ none ↦ none | some n ↦ some (take n stream) ]))
          _ h in
      handled-IsOnce examined.0 fuel fd examined.1 ctl stream handed s r rest once

  module _ (s_socket : ℕ) where
    handle_event-IsOnce :
        (e : Ready) (handed : List Vertex) (s s' : Server)
        → handle_event crypto crowd s_socket e s ≡ returns s'
        → IsOnce crypto crowd handed s
        → IsOnce crypto crowd handed s'
    unfolding handle_event
    handle_event-IsOnce e handed s s' h once = elim (Bool-cases e.readable) [
      | inr deaf ↦ subst (IsOnce crypto crowd handed) (returns-injective (rw deaf at h)) once
      | inl readable ↦ elim (Bool-cases (e.fd == s_socket)) [
        | inl listening ↦
            let (fd, a, rest) =
              bind-eq-returns (c_accept e.accepted) _ (rw (readable, listening) at h) in
            let (u, b, done) = bind-eq-returns (c_epoll_ctl e.ctl) _ rest in
            subst (IsOnce crypto crowd handed) (returns-injective done)
              (same_lists crypto crowd handed s _ refl refl once)
        | inr connected ↦
            let (r, a, done) =
              bind-eq-returns (handle_message crypto crowd e.fuel e.fd e.ctl e.arrived e.stream s) _
                (rw (readable, connected) at h) in
            subst (IsOnce crypto crowd handed) (returns-injective done)
              (handle_message-IsOnce e.fuel e.fd e.ctl e.arrived e.stream handed s r a once)
      ]
    ]

    handle_events-IsOnce :
        (es : List Ready) (handed : List Vertex) (s s' : Server)
        → handle_events crypto crowd s_socket es s ≡ returns s'
        → IsOnce crypto crowd handed s
        → IsOnce crypto crowd handed s'
    unfolding handle_events
    handle_events-IsOnce [] handed s s' h once =
        subst (IsOnce crypto crowd handed) (returns-injective h) once
    handle_events-IsOnce (e ∷ es) handed s s' h once =
        let (m, a, rest) = bind-eq-returns (handle_event crypto crowd s_socket e s) _ h in
        handle_events-IsOnce es handed m s' rest (handle_event-IsOnce e handed s m a once)

    serve_turn-IsOnce :
        (turn : ServerTurn) (s : Server) (shared : Shared) (next : Server × Shared)
        → serve_turn crypto crowd s_socket turn s shared ≡ returns next
        → IsOnce crypto crowd shared.buffer s
        → IsOnce crypto crowd next.1.buffer next.0
    unfolding serve_turn
    serve_turn-IsOnce turn s shared next h once =
        let (nfds, a, rest) = bind-eq-returns (c_epoll_wait turn.system (pos 0)) _ h in
        let (m, b, given) =
          bind-eq-returns (handle_events crypto crowd s_socket (take nfds turn.events) s) _ rest in
        let m' = others_do turn.waiting m in
        let once' =
          others_do-IsOnce turn.waiting shared.buffer m
            (handle_events-IsOnce (take nfds turn.events) shared.buffer s m b once) in
        elim (Option-cases (hand_over nfds m' shared)) [
          | inl waits ↦ absurd (cc (rw waits at given))
          | inr (last, e) ↦
              subst (λ n. IsOnce crypto crowd n.1.buffer n.0) (returns-injective (rw e at given))
                (hand_over-IsOnce crypto crowd nfds m' shared last e once')
        ]

    serve_turns-IsOnce :
        (turns : List ServerTurn) (s : Server) (shared : Shared) (last : Server × Shared)
        → serve_turns crypto crowd s_socket turns s shared ≡ returns last
        → IsOnce crypto crowd shared.buffer s
        → IsOnce crypto crowd last.1.buffer last.0
    unfolding serve_turns others_do
    serve_turns-IsOnce [] s shared last h once =
        subst (λ n. IsOnce crypto crowd n.1.buffer n.0) (returns-injective h) once
    serve_turns-IsOnce (turn ∷ turns) s shared last h once =
        let s' = others_do turn.before s in
        let once' = others_do-IsOnce turn.before shared.buffer s once in
        elim (Bool-cases s'.is_up) [
          | inr down ↦
              subst (λ n. IsOnce crypto crowd n.1.buffer n.0) (returns-injective (rw down at h))
                once'
          | inl up ↦
              let (next, a, rest) =
                bind-eq-returns (serve_turn crypto crowd s_socket turn s' shared) _ (rw up at h) in
              serve_turns-IsOnce turns next.0 next.1 last rest
                (serve_turn-IsOnce turn s' shared next a once')
        ]

    -- Whatever the system answers to the calls of a new server, whatever comes in on its
    -- connections, and whatever the other thread does meanwhile: if the server has neither ended
    -- nor failed nor waits for the flag, the vertices that it has handed over and those in its list
    -- have different hashes, each hash is in its map, and each vertex passes the test for enough
    -- references.
    pub start-IsOnce :
        (created watched : ℤ) (turns : List ServerTurn) (last : Server × Shared)
        → start crypto crowd s_socket created watched turns new_server new_shared ≡ returns last
        → IsOnce crypto crowd last.1.buffer last.0
    unfolding start new_server AllFound
    start-IsOnce created watched turns last h =
        let (ep_fd, a, rest) = bind-eq-returns (c_epoll_create created) _ h in
        let (u, b, run) = bind-eq-returns (c_epoll_ctl watched) _ rest in
        serve_turns-IsOnce turns new_server new_shared last run
          (record { distinct = tt; known = tt; enough = tt })
