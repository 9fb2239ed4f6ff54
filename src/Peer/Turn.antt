-- ===== src/Peer/Turn.antt =====
-- A turn of the loop of buffer_scan_move_round: what comes before the thread waits for the server, and
-- what comes after it.
pub mod Frame
pub mod Rounds
pub mod Kept
pub mod Loop
pub mod Refines
pub mod Settled
use dag_blockchain.Prelude.{
  Bool, Bytes, List, Option, [], bytes_eq, false, if◌then◌else◌, leb, nat_eq, none, not, some, suc,
  true, zero, ℕ, ◌&&◌, ◌++◌, ◌+◌, ◌==◌, ◌||◌, ◌∷◌,
}
use dag_blockchain.Prelude.Int.{leb_ℤ, negsuc, pos, sub_ℕ, ℤ}
use dag_blockchain.Vertex.{Crypto, Vertex, hash}
use dag_blockchain.Network.Outcome.{Outcome, returns, lift, ◌>>=◌}
use dag_blockchain.Network.Server.{Server, hand_over, is_first_round, set_thread_ready}
use dag_blockchain.Network.Client.{get_socket}
use dag_blockchain.Network.Quorum.{max_byzantines}
use dag_blockchain.Network.Server.{new_server}
use dag_blockchain.Network.Client.{Client}
use dag_blockchain.Peer.{Peer, wave}
use dag_blockchain.Peer.Order.{dag_scan}
use dag_blockchain.Peer.History.{mutual_history}
use dag_blockchain.Peer.Scan.{add_hash}
use dag_blockchain.Peer.Missing.{deliver_request, send_missing_vertices}
use dag_blockchain.Peer.Round.{can_move, advance}

-- The peer, and the local variables that live through the loop. `draws` counts the random numbers.
pub record Turn : Type 0 where
  pub peer : Peer
  pub missing : List Bytes
  pub stop : ℤ
  pub requests_answered : ℕ
  pub missing_vertices : ℕ
  pub need_help : Bool
  pub help_counter : ℕ
  pub draws : ℕ

-- stop--
abbrev pub minus_one : ℤ → ℤ
minus_one (pos zero) = negsuc 0
minus_one (pos (suc n)) = pos n
minus_one (negsuc n) = negsuc (n + 1)

-- A peer that has waited too long gives up in its last round, and asks for help before it.
unfoldable pub ask_for_help : Turn → Outcome Turn
ask_for_help t =
    let p = t.peer in
    if p.round == p.last_round
    then returns (record t { stop = minus_one t.stop })
    else (lift (dag_scan p.round (sub_ℕ p.round wave) p) >>= λ q.
        returns (record t { peer = q; need_help = true; help_counter = t.help_counter + 1 }))

module _ (crypto : Crypto) where
  -- The step to the next round, if there are vertices enough. `late`: more than four times the longest
  -- delay has passed in this round.
  unfoldable pub try_round : Bool → Turn → Outcome Turn
  unfolding ask_for_help
  try_round late t =
      if leb t.peer.round t.peer.last_round
      then (lift (can_move t.peer) >>= λ moves.
          if moves
          then (advance crypto t.peer >>= λ p. returns (record t { peer = p; need_help = false }))
          else if late
          then ask_for_help t
          else returns t)
      else returns t

  -- Up to the wait.
  unfoldable pub begin_turn : Bool → Turn → Outcome Turn
  unfolding try_round
  begin_turn late t = try_round late t >>= λ t'.
      let p = t'.peer in
      returns (record t' { peer = record p { server = set_thread_ready true p.server } })

-- The loop over the requests.
unfoldable pub deliver_requests : List (ℕ × Vertex) → Turn → Outcome Turn
deliver_requests [] t = returns t
deliver_requests (request ∷ rest) t = deliver_request request t.peer >>= λ p.
    deliver_requests rest (record t { peer = p; requests_answered = t.requests_answered + 1 })

-- get_socket, and the call of send_missing_vertices for the set `missing`.
unfoldable pub help_peer : Vertex → ℕ → List Bytes → Peer → Outcome Peer
help_peer unset v_peer_id missing p =
    let (sockfd, client) = get_socket v_peer_id p.client in
    send_missing_vertices unset sockfd missing (record p { client = client })

module _ (crypto : Crypto) (draw : ℕ → ℕ) (unset : Vertex) where
  unfoldable pub help_turn : Vertex → Turn → Outcome Turn
  unfolding help_peer
  help_turn v t = elim t.missing [
    | [] ↦ returns t
    | h ∷ hs ↦
        if leb (draw t.draws) 60
        then (help_peer unset v.peer_id (h ∷ hs) t.peer >>= λ p. returns (record t {
          peer = p;
          missing = [];
          missing_vertices = t.missing_vertices + 1;
          draws = t.draws + 1;
        }))
        else returns (record t { draws = t.draws + 1 })
  ]

  unfoldable pub admit_turn : Vertex → Turn → Outcome Turn
  unfolding help_turn
  admit_turn v t = help_turn v t >>= λ t'.
      lift (add_hash v.round (hash crypto v) t'.peer.dag_image) >>= λ dag.
      let p = t'.peer in returns (record t' { peer = record p { dag_image = dag } })

  -- The vertex stays in the buffer.
  abbrev pub keep_turn : Vertex → Turn → Turn
  keep_turn v t = let p = t.peer in record t { peer = record p { buffer = p.buffer ++ v ∷ [] } }

  unfoldable pub vertex_turn : Vertex → Turn → Outcome Turn
  unfolding admit_turn
  vertex_turn v t =
      if leb_ℤ v.round (pos t.peer.round)
      then if is_first_round v.round
        then admit_turn v t
        else (lift (mutual_history v.round v.references t.peer.dag_image) >>= λ checked.
            if checked.0
            then admit_turn v (record t { missing = checked.1 })
            else returns (keep_turn v (record t { missing = checked.1 })))
      else returns (keep_turn v t)

  -- The loop over the vertices of the buffer; those that stay are put back in their order.
  unfoldable pub vertices_turn : List Vertex → Turn → Outcome Turn
  unfolding vertex_turn
  vertices_turn [] t = returns t
  vertices_turn (v ∷ vs) t = vertex_turn v t >>= vertices_turn vs

  -- The test for the end: true leaves the loop, and the server is told.
  unfoldable pub stop_turn : Turn → Bool × Turn
  stop_turn t =
      let p = t.peer in
      if not (leb_ℤ (pos p.round) t.stop) || (p.fail && p.round == 27)
      then (
        true,
        record t {
          peer = record p { server = record (set_thread_ready true p.server) { is_up = false } };
        },
      )
      else (false, t)

  -- From the wait to the end of the turn.
  unfoldable pub end_turn : Turn → Outcome (Bool × Turn)
  unfolding deliver_requests vertices_turn stop_turn
  end_turn t =
      let p = t.peer in
      deliver_requests p.requests t >>= λ answered.
      let q = answered.peer in
      vertices_turn q.buffer (record answered { peer = record q { requests = []; buffer = [] } })
      >>= λ scanned. returns (stop_turn scanned)

-- cv.wait: the server thread, whose state is `s` by then, hands over after `nfds` events. `none`: it
-- does not wake this thread up.
unfoldable pub wait_turn : ℕ → Server → Turn → Option Turn
wait_turn nfds s t =
    let p = t.peer in
    elim (hand_over nfds s (record { buffer = p.buffer; requests = p.requests })) [
      | none ↦ none
      | some after ↦
          let (s', shared) = after in
          some (record t {
            peer = record p { server = s'; buffer = shared.buffer; requests = shared.requests };
          })
    ]

-- A peer as its constructor and connect_to leave it; the id is the time of the clock.
unfoldable pub new_peer : ℕ → ℕ → ℕ → Bool → Client → Peer
new_peer id crowd last_round fail client = record {
  round = 0;
  crowd = crowd;
  last_round = last_round;
  byzantines = max_byzantines crowd;
  id = id;
  fail = fail;
  server = new_server;
  client = client;
  buffer = [];
  requests = [];
  black_list = [];
  requests_asked = 0;
  dag_image = [];
  tasks = [];
  checks = [];
}

-- The local variables at the head of the loop.
unfoldable pub new_turn : Peer → Turn
new_turn p = record {
  peer = p;
  missing = [];
  stop = pos p.last_round;
  requests_answered = 0;
  missing_vertices = 0;
  need_help = false;
  help_counter = 0;
  draws = 0;
}

-- What one turn of the loop takes from outside.
pub record TurnInput : Type 0 where
  pub late : Bool
  pub nfds : ℕ
  pub server : Server
  pub draw : ℕ → ℕ

module _ (crypto : Crypto) (unset : Vertex) where
  unfoldable pub whole_turn : TurnInput → Turn → Outcome (Bool × Turn)
  unfolding begin_turn wait_turn end_turn
  whole_turn input t = begin_turn crypto input.late t >>= λ ready.
      lift (wait_turn input.nfds input.server ready) >>= end_turn crypto input.draw unset

  -- Turns until the loop is left, or the inputs come to an end.
  unfoldable pub turns : List TurnInput → Turn → Outcome (Bool × Turn)
  unfolding whole_turn
  turns [] t = returns (false, t)
  turns (input ∷ inputs) t = whole_turn input t >>= λ (after : Bool × Turn). elim after.0 [
    | true ↦ returns after
    | false ↦ turns inputs after.1
  ]
