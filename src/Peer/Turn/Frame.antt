-- ===== src/Peer/Turn/Frame.antt =====
-- send_missing_vertices works on the sends and the sockets of the peer, and leaves the rounds, the
-- DAG and the buffer alone.
use dag_blockchain.Prelude.{
  Bool, Bytes, List, Option, [], ap, false, if◌then◌else◌, leb, none, refl, some, sym, true, ℕ, ◌∙◌,
  ◌∷◌, ◌≡◌,
}
use dag_blockchain.Vertex.{Vertex}
use dag_blockchain.Network.Outcome.{bind_assoc, bind_cong, Outcome, returns, lift, ◌>>=◌}
use dag_blockchain.Network.Message.{attach_length_to_msg, dynamic_copy}
use dag_blockchain.Network.Server.{find_in_map}
use dag_blockchain.Network.Client.{get_socket}
use dag_blockchain.Peer.{Peer}
use dag_blockchain.Peer.Packing.{Packing, add_vertex}
use dag_blockchain.Peer.Missing.{
  send_packet, close_packet, emptied, send_rest, send_loop, send_missing_vertices, found_or,
}
use dag_blockchain.Peer.Turn.{help_peer}

-- A peer in another round, with another last round, another DAG and another buffer.
abbrev pub framed : ℕ → ℕ → List (List Bytes) → List Vertex → Peer → Peer
framed round last_round dag buffer p = record p {
  round = round;
  last_round = last_round;
  dag_image = dag;
  buffer = buffer;
}

module _ (round last_round : ℕ) (dag : List (List Bytes)) (buffer : List Vertex) where
  abbrev put : Peer → Outcome Peer
  put p = returns (framed round last_round dag buffer p)

  abbrev put_second : Packing × Peer → Outcome (Packing × Peer)
  put_second next = returns (next.0, framed round last_round dag buffer next.1)

  send_packet-framed :
      (socket : ℕ) (stream : Bytes) (n : ℕ) (p : Peer)
      → send_packet socket stream n (framed round last_round dag buffer p)
        ≡ (send_packet socket stream n p >>= put)
  unfolding send_packet
  send_packet-framed socket stream n p =
      bind_cong (attach_length_to_msg stream n) _ _
        (λ attached. sym (bind_assoc (lift (dynamic_copy attached n)) _ put))
      ∙ sym (bind_assoc (attach_length_to_msg stream n) _ put)

  close-framed :
      (socket : ℕ) (full : Bool) (stream : Option Bytes) (k : Packing) (p : Peer)
      → (if full
          then elim stream [
            | none ↦ returns (k, framed round last_round dag buffer p)
            | some s ↦
                send_packet socket s k.packet_size (framed round last_round dag buffer p) >>= λ p'.
                returns (emptied k, p')
          ]
          else returns (k, framed round last_round dag buffer p))
        ≡ ((if full
              then elim stream [
                | none ↦ returns (k, p)
                | some s ↦ send_packet socket s k.packet_size p >>= λ p'. returns (emptied k, p')
              ]
              else returns (k, p))
            >>= put_second)
  close-framed socket false stream k p = refl
  close-framed socket true none k p = refl
  close-framed socket true (some s) k p =
      ap (λ o. o >>= λ p'. returns (emptied k, p')) (send_packet-framed socket s k.packet_size p)
      ∙ bind_assoc (send_packet socket s k.packet_size p) put _
      ∙ sym (bind_assoc (send_packet socket s k.packet_size p) _ put_second)

  close_packet-framed :
      (socket : ℕ) (k : Packing) (p : Peer)
      → close_packet socket k (framed round last_round dag buffer p)
        ≡ (close_packet socket k p >>= put_second)
  unfolding close_packet
  close_packet-framed socket k p = close-framed socket (leb 40000 k.packet_size) k.packet_stream k p

  rest-framed :
      (socket n : ℕ) (stream : Option Bytes) (p : Peer)
      → elim stream as (λ x. Outcome Peer) [
        | none ↦ put p
        | some s ↦ send_packet socket s n (framed round last_round dag buffer p)
      ]
        ≡ (elim stream as (λ x. Outcome Peer) [
          | none ↦ returns p
          | some s ↦ send_packet socket s n p
        ]
            >>= put)
  rest-framed socket n none p = refl
  rest-framed socket n (some s) p = send_packet-framed socket s n p

  send_loop-framed :
      (socket : ℕ) (hashes : List Bytes) (k : Packing) (p : Peer)
      → send_loop socket hashes k (framed round last_round dag buffer p)
        ≡ (send_loop socket hashes k p >>= put)
  unfolding send_loop send_rest
  send_loop-framed socket [] k p = rest-framed socket k.packet_size k.packet_stream p
  send_loop-framed socket (h ∷ hashes) k p =
      let added = lift (add_vertex (found_or k.vertex (find_in_map h p.server)) k) in
      bind_cong added _ _ (λ k'.
        ap (λ o. o >>= λ next. send_loop socket hashes next.0 next.1)
          (close_packet-framed socket k' p)
        ∙ bind_assoc (close_packet socket k' p) put_second _
        ∙ bind_cong (close_packet socket k' p) _ _
            (λ next. send_loop-framed socket hashes next.0 next.1)
        ∙ sym (bind_assoc (close_packet socket k' p) _ put))
      ∙ sym (bind_assoc added _ put)

  pub help_peer-framed :
      (unset : Vertex) (peer_id : ℕ) (missing : List Bytes) (p : Peer)
      → help_peer unset peer_id missing (framed round last_round dag buffer p)
        ≡ (help_peer unset peer_id missing p >>= put)
  unfolding help_peer send_missing_vertices
  help_peer-framed unset peer_id missing p =
      let (sockfd, client) = get_socket peer_id p.client in
      send_loop-framed sockfd missing _ (record p { client = client })
