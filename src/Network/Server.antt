-- ===== src/Network/Server.antt =====
-- Server of networking.cpp: the event loop of `start`, one event at a time, and the shared lists that
-- it fills for the other thread of the peer.
pub mod Hashes
pub mod Once
pub mod Loop
use dag_blockchain.Prelude.{
  Bool, Bytes, List, Option, [], bytes_eq, false, if◌then◌else◌, leb, length, nat_eq, none, not,
  some, take, true, ℕ, ◌++◌, ◌==◌, ◌||◌, ◌∷◌,
}
use dag_blockchain.Prelude.Int.{negsuc, pos, ℤ}
use dag_blockchain.Containers.Map
use dag_blockchain.Containers.Map.{Map}
use dag_blockchain.Containers.Set.{erase}
use dag_blockchain.Vertex.{Vertex, Crypto, hash}
use dag_blockchain.Network.Outcome.{Outcome, returns, ◌>>=◌}
use dag_blockchain.Network.Message.{req_msg, reg_msg, fin_msg, examine_msg, process_request}
use dag_blockchain.Network.Receive.{c_recvn}
use dag_blockchain.Network.Quorum.{majority}
use dag_blockchain.Network.Calls.{c_epoll_ctl}

-- The members of the object and the local variables of `start`. `connections` is what epoll watches
-- besides the listening socket.
pub record Server : Type 0 where
  pub vertex_map : Map Bytes Vertex
  pub is_up : Bool
  pub thread_ready : Bool
  pub temp_list : List Vertex
  pub temp_request_list : List (ℕ × Vertex)
  pub connections : List ℕ
  pub bytes_to_recv : ℕ

-- What the two threads share under the mutex.
pub record Shared : Type 0 where
  pub buffer : List Vertex
  pub requests : List (ℕ × Vertex)

-- The state after the constructor, at the head of the loop.
unfoldable pub new_server : Server
new_server = record {
  vertex_map = [];
  is_up = true;
  thread_ready = false;
  temp_list = [];
  temp_request_list = [];
  connections = [];
  bytes_to_recv = 0;
}

-- add_to_map and find_in_map
unfoldable pub add_to_map : Bytes → Vertex → Server → Server
add_to_map key value s = record s { vertex_map = Map.insert key value s.vertex_map }

unfoldable pub find_in_map : Bytes → Server → Option Vertex
find_in_map key s = Map.find key s.vertex_map

-- set_thread_ready and get_thread_flag
unfoldable pub set_thread_ready : Bool → Server → Server
set_thread_ready state s = record s { thread_ready = state }

unfoldable pub get_thread_flag : Server → Bool
get_thread_flag s = s.thread_ready

-- v.get_round() == 1
abbrev pub is_first_round : ℤ → Bool
is_first_round (pos n) = n == 1
is_first_round (negsuc n) = false

-- The test for enough references; the first round needs none.
unfoldable pub has_quorum : ℕ → Vertex → Bool
has_quorum crowd v = leb (majority crowd) (length v.references) || is_first_round v.round

module _ (crypto : Crypto) (crowd : ℕ) where
  -- The body of the loop over the received vertices.
  unfoldable pub accept_vertex : Vertex → Server → Server
  accept_vertex v s =
      if has_quorum crowd v
      then elim (Map.find (hash crypto v) s.vertex_map) [
        | some _ ↦ s
        | none ↦ record s {
          temp_list = v ∷ s.temp_list;
          vertex_map = Map.insert (hash crypto v) v s.vertex_map;
        }
      ]
      else s

  unfoldable pub accept_vertices : List Vertex → Server → Server
  accept_vertices [] s = s
  accept_vertices (v ∷ vs) s = accept_vertices vs (accept_vertex v s)

  -- A request for a vertex that is known is kept for the other thread, with the peer that asks.
  unfoldable pub answer_request : Bytes → ℕ → Server → Server
  answer_request vertex_hash peer_id s = elim (Map.find vertex_hash s.vertex_map) [
    | none ↦ s
    | some v ↦ record s { temp_request_list = (peer_id, v) ∷ s.temp_request_list }
  ]

  -- EPOLLIN on a connection: `arrived` bytes of `stream` are there when the code peeks, or `none` is
  -- an error, and `ctl` is what epoll_ctl answers if it is called. The result has what is left of the
  -- stream.
  unfoldable pub handle_message : ℕ → ℕ → ℤ → Option ℕ → Bytes → Server → Outcome (Server × Bytes)
  unfolding accept_vertices answer_request
  handle_message fuel fd ctl arrived stream s =
      examine_msg s.bytes_to_recv (elim arrived [ none ↦ none | some n ↦ some (take n stream) ])
      >>= λ examined. elim examined.0 [
        | req_msg ↦ process_request (some stream) >>= λ request.
            returns (answer_request request.0 request.1 s, request.2)
        | reg_msg ↦ c_recvn fuel examined.1 stream 0 [] >>= λ received.
            returns
              (accept_vertices received.0 (record s { bytes_to_recv = examined.1 }), received.1)
        | fin_msg ↦ c_epoll_ctl ctl >>= λ _.
            returns (record s { connections = erase fd s.connections }, stream)
      ]

-- The end of a round of the loop, after `nfds` events. `none`: the thread waits for its turn.
unfoldable pub hand_over : ℕ → Server → Shared → Option (Server × Shared)
hand_over nfds s shared =
    if not (leb (length s.temp_list) 0) || not (leb (length s.temp_request_list) 0) || nfds == 0
    then if s.thread_ready
      then some (
        record s { thread_ready = false; temp_list = []; temp_request_list = [] },
        record {
          buffer = shared.buffer ++ s.temp_list;
          requests = shared.requests ++ s.temp_request_list;
        },
      )
      else none
    else some (s, shared)
