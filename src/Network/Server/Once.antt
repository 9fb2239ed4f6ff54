-- ===== src/Network/Server/Once.antt =====
-- The event loop of the server as a row of events, with what it has handed over.
use dag_blockchain.Prelude.{
  >>=-eq-some, All, Bool-cases, Bytes, List, Option, Option-cases, [], ap, append-nil, bytes_eq,
  false, inl, inr, leb, length, map, nat_eq, none, not, refl, some, subst, sym, true, ℕ, ◌++◌, ◌==◌,
  ◌>>=◌, ◌||◌, ◌∙◌, ◌∷◌, ◌≡◌,
}
use dag_blockchain.Network.Server.Hashes.{
  AllFound, AllFound-insert, is_found, IsDistinct-middle, fresh, AllFound-middle, found-inserted,
  All-middle,
}
use dag_blockchain.Network.Server.{
  Server, accept_vertex, accept_vertices, answer_request, add_to_map, hand_over, set_thread_ready,
  new_server, Shared, has_quorum,
}
use dag_blockchain.Vertex.{Vertex, Crypto, hash}
use dag_blockchain.Containers.Map
use dag_blockchain.Containers.Map.{Map}
use dag_blockchain.Containers.Set.{IsDistinct}
use mathlib.Core.Option.{some-injective}

-- What happens to the server between two rounds of its loop: vertices and requests come in, the other
-- thread sets its flag or adds a vertex of its own, and a round ends after a number of events.
pub data ServerEvent : Type 0 where
  receives : List Vertex → ServerEvent
  requested : Bytes → ℕ → ServerEvent
  readied : ServerEvent
  added : Bytes → Vertex → ServerEvent
  turned : ℕ → ServerEvent

module _ (crypto : Crypto) (crowd : ℕ) where
  -- The server and all that it has handed over; `none`: it waits for the other thread.
  unfoldable pub serve_event : ServerEvent → Server → Shared → Option (Server × Shared)
  serve_event (receives vs) s shared = some (accept_vertices crypto crowd vs s, shared)
  serve_event (requested h peer_id) s shared =
      some (answer_request crypto crowd h peer_id s, shared)
  serve_event readied s shared = some (set_thread_ready true s, shared)
  serve_event (added key v) s shared = some (add_to_map key v s, shared)
  serve_event (turned nfds) s shared = hand_over nfds s shared

  unfoldable pub serve : List ServerEvent → Server → Shared → Option (Server × Shared)
  unfolding serve_event
  serve [] s shared = some (s, shared)
  serve (event ∷ events) s shared =
      serve_event event s shared >>= λ next. serve events next.0 next.1

  -- The vertices handed over, and then those that wait in the list: their hashes differ, each hash is
  -- in the map, and each vertex passes the test for enough references.
  pub record IsOnce (handed : List Vertex) (s : Server) : Type 0 where
    pub distinct : IsDistinct (map (hash crypto) (handed ++ s.temp_list))
    pub known : AllFound s.vertex_map (map (hash crypto) (handed ++ s.temp_list))
    pub enough : All (λ v. has_quorum crowd v ≡ true) (handed ++ s.temp_list)

  hashes-append :
      (xs ys : List Vertex)
      → map (hash crypto) (xs ++ ys) ≡ map (hash crypto) xs ++ map (hash crypto) ys
  hashes-append [] ys = refl
  hashes-append (x ∷ xs) ys = ap (λ t. hash crypto x ∷ t) (hashes-append xs ys)

  accept_new :
      (v : Vertex) (handed : List Vertex) (s : Server)
      → has_quorum crowd v ≡ true
      → is_found (hash crypto v) s.vertex_map ≡ false
      → IsOnce handed s
      → IsOnce handed (record s {
        temp_list = v ∷ s.temp_list;
        vertex_map = Map.insert (hash crypto v) v s.vertex_map;
      })
  accept_new v handed s quorum unknown once =
      let k = hash crypto v in
      let hs = map (hash crypto) handed in
      let ts = map (hash crypto) s.temp_list in
      let split = hashes-append handed s.temp_list in
      let split' = hashes-append handed (v ∷ s.temp_list) in
      let known : AllFound s.vertex_map (hs ++ ts) =
        subst (AllFound s.vertex_map) split once.known in
      record {
        distinct = subst IsDistinct (sym split') (
            IsDistinct-middle k hs ts (fresh k s.vertex_map (hs ++ ts) known unknown)
              (subst IsDistinct split once.distinct));
        known = subst (AllFound (Map.insert k v s.vertex_map)) (sym split') (
            AllFound-middle k (Map.insert k v s.vertex_map) hs ts (found-inserted k v s.vertex_map)
              (AllFound-insert k v s.vertex_map (hs ++ ts) known));
        enough =
            All-middle (λ w. has_quorum crowd w ≡ true) v handed s.temp_list quorum once.enough;
      }

  accept_vertex-IsOnce :
      (v : Vertex) (handed : List Vertex) (s : Server)
      → IsOnce handed s
      → IsOnce handed (accept_vertex crypto crowd v s)
  unfolding accept_vertex
  accept_vertex-IsOnce v handed s once = elim (Bool-cases (has_quorum crowd v)) [
    | inr few ↦ rw few once
    | inl quorum ↦ elim (Option-cases (Map.find (hash crypto v) s.vertex_map)) [
      | inl unknown ↦
          rw (quorum, unknown)
            (accept_new v handed s quorum
              (ap (λ o. elim o [ none ↦ false | some w ↦ true ]) unknown) once)
      | inr (w, found) ↦ rw (quorum, found) once
    ]
  ]

  pub accept_vertices-IsOnce :
      (vs handed : List Vertex) (s : Server)
      → IsOnce handed s
      → IsOnce handed (accept_vertices crypto crowd vs s)
  unfolding accept_vertices
  accept_vertices-IsOnce [] handed s once = once
  accept_vertices-IsOnce (v ∷ vs) handed s once =
      accept_vertices-IsOnce vs handed (accept_vertex crypto crowd v s)
        (accept_vertex-IsOnce v handed s once)

  -- The rest of the state does not matter.
  pub same_lists :
      (handed : List Vertex) (s s' : Server)
      → s.temp_list ≡ s'.temp_list
      → s.vertex_map ≡ s'.vertex_map
      → IsOnce handed s
      → IsOnce handed s'
  same_lists handed s s' lists maps once = record {
    distinct = subst (λ t. IsDistinct (map (hash crypto) (handed ++ t))) lists once.distinct;
    known =
        subst (λ t. AllFound s'.vertex_map (map (hash crypto) (handed ++ t))) lists
          (subst (λ m. AllFound m (map (hash crypto) (handed ++ s.temp_list))) maps once.known);
    enough = subst (λ t. All (λ v. has_quorum crowd v ≡ true) (handed ++ t)) lists once.enough;
  }

  pub answer_request-IsOnce :
      (k : Bytes) (peer_id : ℕ) (handed : List Vertex) (s : Server)
      → IsOnce handed s
      → IsOnce handed (answer_request crypto crowd k peer_id s)
  unfolding answer_request
  answer_request-IsOnce k peer_id handed s once = elim (Option-cases (Map.find k s.vertex_map)) [
    | inl unknown ↦ rw (answer_request, unknown) once
    | inr (v, found) ↦ rw (answer_request, found) (same_lists handed s _ refl refl once)
  ]

  pub add_to_map-IsOnce :
      (key : Bytes) (v : Vertex) (handed : List Vertex) (s : Server)
      → IsOnce handed s
      → IsOnce handed (add_to_map key v s)
  unfolding add_to_map
  add_to_map-IsOnce key v handed s once = record {
    distinct = once.distinct;
    known = AllFound-insert key v s.vertex_map _ once.known;
    enough = once.enough;
  }

  -- After a hand-over the list is empty.
  given :
      (handed : List Vertex) (s s' : Server)
      → s'.temp_list ≡ []
      → s.vertex_map ≡ s'.vertex_map
      → IsOnce handed s
      → IsOnce (handed ++ s.temp_list) s'
  given handed s s' none_left maps once =
      let lists : (handed ++ s.temp_list) ++ s'.temp_list ≡ handed ++ s.temp_list =
        ap (λ t. (handed ++ s.temp_list) ++ t) none_left ∙ append-nil (handed ++ s.temp_list) in
      record {
        distinct = subst (λ t. IsDistinct (map (hash crypto) t)) (sym lists) once.distinct;
        known =
            subst (λ t. AllFound s'.vertex_map (map (hash crypto) t)) (sym lists)
              (subst (λ m. AllFound m (map (hash crypto) (handed ++ s.temp_list))) maps once.known);
        enough = subst (All (λ v. has_quorum crowd v ≡ true)) (sym lists) once.enough;
      }

  pub hand_over-IsOnce :
      (nfds : ℕ) (s : Server) (shared : Shared) (next : Server × Shared)
      → hand_over nfds s shared ≡ some next
      → IsOnce shared.buffer s
      → IsOnce next.1.buffer next.0
  unfolding hand_over
  hand_over-IsOnce nfds s shared next h once =
      elim (Bool-cases (
        not (leb (length s.temp_list) 0)
        || not (leb (length s.temp_request_list) 0)
        || nfds == 0)) [
          | inl due ↦ elim (Bool-cases s.thread_ready) [
            | inl ready ↦
                subst (λ n. IsOnce n.1.buffer n.0) (some-injective _ _ (rw (due, ready) at h))
                  (given shared.buffer s _ refl refl once)
            | inr waits ↦ absurd (cc (rw (due, waits) at h))
          ]
          | inr early ↦ subst (λ n. IsOnce n.1.buffer n.0) (some-injective _ _ (rw early at h)) once
        ]

  serve_event-IsOnce :
      (event : ServerEvent) (s : Server) (shared : Shared) (next : Server × Shared)
      → serve_event event s shared ≡ some next
      → IsOnce shared.buffer s
      → IsOnce next.1.buffer next.0
  unfolding serve_event set_thread_ready
  serve_event-IsOnce (receives vs) s shared next h once =
      subst (λ n. IsOnce n.1.buffer n.0) (some-injective _ _ h)
        (accept_vertices-IsOnce vs shared.buffer s once)
  serve_event-IsOnce (requested k peer_id) s shared next h once =
      subst (λ n. IsOnce n.1.buffer n.0) (some-injective _ _ h)
        (answer_request-IsOnce k peer_id shared.buffer s once)
  serve_event-IsOnce readied s shared next h once =
      subst (λ n. IsOnce n.1.buffer n.0) (some-injective _ _ h)
        (same_lists shared.buffer s _ refl refl once)
  serve_event-IsOnce (added key v) s shared next h once =
      subst (λ n. IsOnce n.1.buffer n.0) (some-injective _ _ h)
        (add_to_map-IsOnce key v shared.buffer s once)
  serve_event-IsOnce (turned nfds) s shared next h once = hand_over-IsOnce nfds s shared next h once

  serve-IsOnce :
      (events : List ServerEvent) (s : Server) (shared : Shared) (last : Server × Shared)
      → serve events s shared ≡ some last
      → IsOnce shared.buffer s
      → IsOnce last.1.buffer last.0
  unfolding serve
  serve-IsOnce [] s shared last h once =
      subst (λ n. IsOnce n.1.buffer n.0) (some-injective _ _ h) once
  serve-IsOnce (event ∷ events) s shared last h once =
      let (next, first, rest) =
        >>=-eq-some (serve_event event s shared) (λ n. serve events n.0 n.1) h in
      serve-IsOnce events next.0 next.1 last rest
        (serve_event-IsOnce event s shared next first once)

  -- A new server goes through any events: vertices that come in, requests, the flag and the
  -- vertices of the other thread, and ends of a round of its loop, none of which it waits in. Then
  -- the vertices that it has handed over and those in its list have different hashes, each hash is
  -- in its map, and each vertex passes the test for enough references.
  pub new_server-IsOnce :
      (events : List ServerEvent) (s : Server) (shared : Shared)
      → serve events new_server (record { buffer = []; requests = [] }) ≡ some (s, shared)
      → IsOnce shared.buffer s
  unfolding new_server AllFound
  new_server-IsOnce events s shared h =
      serve-IsOnce events _ _ (s, shared) h (record { distinct = tt; known = tt; enough = tt })
