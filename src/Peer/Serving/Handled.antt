-- ===== src/Peer/Serving/Handled.antt =====
-- One happening is handled as its event says.
use dag_blockchain.Prelude.{
  Bool-cases, Bytes, List, Option-cases, [], ap, append_assoc, arith, beq_refl, bytes_eq, inl, inr,
  length, length-append, nat_eq, refl, some, sym, take, take-append, ℕ, ◌++◌, ◌+◌, ◌∙◌, ◌∷◌, ◌≡◌,
  ◌≤◌,
}
use dag_blockchain.Network.Receive.{c_recvn}
use dag_blockchain.Peer.Missing.Received.{AreFrames, vertices-tail}
use dag_blockchain.Vertex.Wire.{body}
use dag_blockchain.Bytes.Words.{be64, length-be64, be32, length-be32}
use dag_blockchain.Network.Message.Kinds.{
  examine_msg-packet, examine_msg-request, process_request-bytes, request_bytes,
}
use dag_blockchain.Network.Outcome.{max_stream_size, returns}
use dag_blockchain.Peer.Missing.Batches.{frames, length-packet, wires, packet-frames, tail_frames}
use dag_blockchain.Network.Server.Loop.{handle_event}
use dag_blockchain.Network.Message.{hex_hash, examine_msg, reg_msg, req_msg}
use dag_blockchain.Network.Receive.Framing.{packet, c_recvn-packet}
use dag_blockchain.Containers.Map
use dag_blockchain.Vertex.{Crypto, Vertex, hash}
use dag_blockchain.Network.Calls.{c_accept, c_epoll_ctl}
use dag_blockchain.Network.Server.{
  handle_message, Server, accept_vertex, accept_vertices, answer_request, has_quorum,
}
use dag_blockchain.Peer.Serving.{
  Happening, within, IsProper, bytes_by, connections_by, happens, ready_of, connects, closes, asks,
  brings,
}

module _ (crypto : Crypto) (crowd : ℕ) where
  accept_vertex-within :
      (v : Vertex) (c : List ℕ) (b : ℕ) (s : Server)
      → accept_vertex crypto crowd v (within c b s) ≡ within c b (accept_vertex crypto crowd v s)
  unfolding accept_vertex
  accept_vertex-within v c b s = elim (Bool-cases (has_quorum crowd v)) [
    | inr few ↦ rw few refl
    | inl quorum ↦ elim (Option-cases (Map.find (hash crypto v) s.vertex_map)) [
      | inl unknown ↦ rw (quorum, unknown) refl
      | inr (w, found) ↦ rw (quorum, found) refl
    ]
  ]

  accept_vertices-within :
      (vs : List Vertex) (c : List ℕ) (b : ℕ) (s : Server)
      → accept_vertices crypto crowd vs (within c b s)
        ≡ within c b (accept_vertices crypto crowd vs s)
  unfolding accept_vertices
  accept_vertices-within [] c b s = refl
  accept_vertices-within (v ∷ vs) c b s =
      ap (accept_vertices crypto crowd vs) (accept_vertex-within v c b s)
      ∙ accept_vertices-within vs c b (accept_vertex crypto crowd v s)

  answer_request-within :
      (k : Bytes) (id : ℕ) (c : List ℕ) (b : ℕ) (s : Server)
      → answer_request crypto crowd k id (within c b s)
        ≡ within c b (answer_request crypto crowd k id s)
  unfolding answer_request
  answer_request-within k id c b s = elim (Option-cases (Map.find k s.vertex_map)) [
    | inl unknown ↦ rw (answer_request, unknown) refl
    | inr (v, found) ↦ rw (answer_request, found) refl
  ]

  -- The head of a packet, and whatever has arrived behind it.
  peeked_packet :
      (v : Vertex) (vs : List Vertex) (later : Bytes) (b n : ℕ)
      → length (packet (frames (v ∷ vs))) ≤ max_stream_size
      → examine_msg b (some (take (4 + n) (packet (frames (v ∷ vs)) ++ later)))
        ≡ returns (reg_msg, length (packet (frames (v ∷ vs))))
  peeked_packet v vs later b n fits =
      let size = length-packet (v ∷ vs) in
      let len = length (wires (v ∷ vs)) in
      let behind = (body v ++ wires vs) ++ later in
      ap (λ t. examine_msg b (some (take (4 + n) t)))
        (ap (λ t. t ++ later) (packet-frames v vs)
          ∙ append_assoc (be32 len) (body v ++ wires vs) later)
      ∙ ap (λ t. examine_msg b (some t))
          (ap (λ k. take (k + n) (be32 len ++ behind)) (sym (length-be32 len))
            ∙ take-append (be32 len) behind n)
      ∙ examine_msg-packet b len (take n behind) (omega (arith, size, fits))
      ∙ ap (λ k. returns (reg_msg, k)) (sym size)

  peeked_request :
      (hash later : Bytes) (id b n : ℕ)
      → length hash ≡ hex_hash
      → examine_msg b (some (take (73 + n) (request_bytes hash id ++ later))) ≡ returns (req_msg, b)
  peeked_request hash later id b n h =
      let size : 73 ≡ length (request_bytes hash id) =
        omega (arith, h, length-append hash (be64 id), length-be64 id) in
      ap (λ t. examine_msg b (some t))
        (ap (λ k. take (k + n) (request_bytes hash id ++ later)) size
          ∙ take-append (request_bytes hash id) later n)
      ∙ examine_msg-request b id hash (take n later)

  received_packet :
      (v : Vertex) (vs : List Vertex) (later : Bytes)
      → AreFrames (v ∷ vs)
      → length (packet (frames (v ∷ vs))) ≤ max_stream_size
      → c_recvn 1 (length (packet (frames (v ∷ vs)))) (packet (frames (v ∷ vs)) ++ later) 0 []
        ≡ returns (v ∷ vs, later)
  received_packet v vs later ok fits =
      c_recvn-packet (record { header = be32 (length (wires (v ∷ vs))); vertex = v })
        (tail_frames vs) later 0 ok fits
      ∙ ap (λ t. returns (v ∷ t, later)) (vertices-tail vs)

  pub handled :
      (s_socket : ℕ) (h : Happening) (c : List ℕ) (b : ℕ) (s : Server)
      → IsProper s_socket h
      → handle_event crypto crowd s_socket (ready_of s_socket h) (within c b s)
        ≡ returns (within (connections_by h c) (bytes_by h b) (happens crypto crowd h s))
  unfolding handle_event handle_message c_accept c_epoll_ctl examine_msg
  handled s_socket (connects new) c b s ok = rw (beq_refl s_socket) refl
  handled s_socket (closes fd) c b s ok = rw ok refl
  handled s_socket (asks fd name id n later) c b s ok =
      rw
        (ok.0, peeked_request name later id b n ok.1, process_request-bytes name later id ok.1 ok.2)
        (ap returns (answer_request-within name id c b s))
  handled s_socket (brings fd v vs n later) c b s ok =
      rw (ok.0, peeked_packet v vs later b n ok.2, received_packet v vs later ok.1 ok.2)
        (ap returns (accept_vertices-within (v ∷ vs) c (length (packet (frames (v ∷ vs)))) s))
