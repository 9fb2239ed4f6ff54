-- ===== src/Peer/Missing/Delivery.antt =====
-- What send_missing_vertices gives to the pool.
use dag_blockchain.Prelude.{
  All, Bool-cases, Bytes, List, [], ap, append-nil, append_assoc, arith, concat, false, inl, inr,
  leb, leb→le, length, length-append, le→leb, lt→not_leb, not_leb→lt, refl, some, sym, true, ℕ,
  ◌++◌, ◌+◌, ◌<◌, ◌^◌, ◌∙◌, ◌∷◌, ◌≡◌, ◌≤◌,
}
use dag_blockchain.Peer.Packing.{Packing, add_vertex}
use dag_blockchain.Vertex.{Vertex}
use dag_blockchain.Vertex.Wire.{wire}
use dag_blockchain.Network.Outcome.{Outcome, returns, lift, ◌>>=◌}
use dag_blockchain.Network.Receive.Framing.{packet}
use dag_blockchain.Network.Server.{Server, find_in_map}
use dag_blockchain.Peer.{Peer}
use dag_blockchain.Peer.Packing.Wires.{packing_of, add-packing_of}
use dag_blockchain.Peer.Missing.{
  enqueue_send, send_loop, close_packet, send_rest, found_or, send_missing_vertices,
}
use dag_blockchain.Peer.Missing.Sizes.{IsPacket, batches-sizes, IsSmall, wires-snoc, concat-batches}
use dag_blockchain.Peer.Missing.Batches.{wires, batches, frames, send_packet-wires}

-- The hashes are in the map of the server, with these vertices.
abbrev pub Located : Server → List Bytes → List Vertex → Type 0
Located s [] [] = Unit {0}
Located s (h ∷ hashes) (v ∷ vs) = (find_in_map h s ≡ some v) × Located s hashes vs
Located _ _ _ = ⊥

-- The sends of the packets, behind those of the peer.
abbrev pub sends : ℕ → List (List Vertex) → List (ℕ × Bytes)
sends socket [] = []
sends socket (batch ∷ rest) = (socket, packet (frames batch)) ∷ sends socket rest

abbrev pub with_sends : ℕ → List (List Vertex) → Peer → Peer
with_sends socket packets p = record p { tasks = p.tasks ++ sends socket packets }

send-then :
    (socket : ℕ) (batch : List Vertex) (rest : List (List Vertex)) (p : Peer)
    → with_sends socket rest (enqueue_send socket (packet (frames batch)) p)
      ≡ with_sends socket (batch ∷ rest) p
send-then socket batch rest p =
    ap (λ t. record p { tasks = t })
      (append_assoc p.tasks ((socket, packet (frames batch)) ∷ []) (sends socket rest))

packing_of-vertex : (v : Vertex) (bytes : Bytes) → (packing_of v bytes).vertex ≡ v
packing_of-vertex v [] = refl
packing_of-vertex v (b ∷ bytes) = refl

-- A packet with a vertex in it stays open, or is sent.
close-open :
    (socket : ℕ) (v c : Vertex) (cs : List Vertex) (p : Peer)
    → length (wires (c ∷ cs)) < 40000
    → close_packet socket (packing_of v (wires (c ∷ cs))) p
      ≡ returns (packing_of v (wires (c ∷ cs)), p)
unfolding close_packet
close-open socket v c cs p few = rw (lt→not_leb 40000 (length (wires (c ∷ cs))) few) refl

close-full :
    (socket : ℕ) (v c : Vertex) (cs : List Vertex) (p : Peer)
    → 40000 ≤ length (wires (c ∷ cs))
    → length (wires (c ∷ cs)) < 2 ^ 32
    → close_packet socket (packing_of v (wires (c ∷ cs))) p
      ≡ returns (packing_of v [], enqueue_send socket (packet (frames (c ∷ cs))) p)
unfolding close_packet
close-full socket v c cs p full small =
    rw (le→leb 40000 (length (wires (c ∷ cs))) full, send_packet-wires socket c cs p small) refl

-- One round of the loop, from what it does to a packet with the new vertex in it.
round :
    (socket : ℕ) (h : Bytes) (hashes : List Bytes) (v w : Vertex) (bytes bytes' : Bytes)
    (p p' : Peer) (next : Packing) (outcome : Outcome Peer)
    → find_in_map h p.server ≡ some v
    → IsSmall v
    → length bytes < 40000
    → bytes ++ wire v ≡ bytes'
    → close_packet socket (packing_of v bytes') p ≡ returns (next, p')
    → send_loop socket hashes next p' ≡ outcome
    → send_loop socket (h ∷ hashes) (packing_of w bytes) p ≡ outcome
unfolding send_loop
round socket h hashes v w bytes bytes' p p' next outcome found small few e closed rest =
    let go : Packing × Peer → Outcome Peer = λ n. send_loop socket hashes n.0 n.1 in
    let k = packing_of w bytes in
    ap (λ o. lift (add_vertex (found_or k.vertex o) k) >>= λ k'. close_packet socket k' p >>= go)
      found
    ∙ ap (λ o. lift o >>= λ k'. close_packet socket k' p >>= go)
        (add-packing_of v w bytes small.long (omega (arith, small.fits))
          (omega (arith, small.fits)))
    ∙ ap (λ b. close_packet socket (packing_of v b) p >>= go) e
    ∙ ap (λ o. o >>= go) closed
    ∙ rest

-- The two ways on, for a packet of the vertices `c ∷ cs` with the last one in it.
on : ℕ → List Vertex → Vertex → List Vertex → Peer → Outcome Peer
on socket vs c cs p = returns (
    with_sends socket
      (elim (leb 40000 (length (wires (c ∷ cs)))) [
        | true ↦ (c ∷ cs) ∷ batches [] vs
        | false ↦ batches (c ∷ cs) vs
      ])
      p)

round-on :
    (socket : ℕ) (h : Bytes) (hashes : List Bytes) (v w c : Vertex) (vs cs : List Vertex)
    (bytes : Bytes) (p : Peer)
    → find_in_map h p.server ≡ some v
    → IsSmall v
    → length bytes < 40000
    → bytes ++ wire v ≡ wires (c ∷ cs)
    → (length (wires (c ∷ cs)) < 40000
        → send_loop socket hashes (packing_of v (wires (c ∷ cs))) p
          ≡ returns (with_sends socket (batches (c ∷ cs) vs) p))
    → send_loop socket hashes (packing_of v []) (enqueue_send socket (packet (frames (c ∷ cs))) p)
      ≡ returns
          (with_sends socket (batches [] vs) (enqueue_send socket (packet (frames (c ∷ cs))) p))
    → send_loop socket (h ∷ hashes) (packing_of w bytes) p ≡ on socket vs c cs p
unfolding on
round-on socket h hashes v w c vs cs bytes p found small few e more new =
    elim (Bool-cases (leb 40000 (length (wires (c ∷ cs))))) [
      | inr early ↦
          let open_still : length (wires (c ∷ cs)) < 40000 = not_leb→lt _ _ early in
          rw early (
            round socket h hashes v w bytes (wires (c ∷ cs)) p p _ _ found small few e
              (close-open socket v c cs p open_still) (more open_still))
      | inl full ↦
          let size : length (wires (c ∷ cs)) ≡ length bytes + length (wire v) =
            ap length (sym e) ∙ length-append bytes (wire v) in
          rw full (
            round socket h hashes v w bytes (wires (c ∷ cs)) p _ _ _ found small few e
              (close-full socket v c cs p (leb→le _ _ full) (omega (arith, size, small.fits)))
              (new ∙ ap returns (send-then socket (c ∷ cs) (batches [] vs) p)))
    ]

send_loop-batches :
    (socket : ℕ) (hashes : List Bytes) (vs batch : List Vertex) (w : Vertex) (p : Peer)
    → Located p.server hashes vs
    → All IsSmall vs
    → length (wires batch) < 40000
    → send_loop socket hashes (packing_of w (wires batch)) p
      ≡ returns (with_sends socket (batches batch vs) p)
unfolding send_loop batches send_rest on
send_loop-batches socket [] [] [] w p found small few =
    ap (λ t. returns (record p { tasks = t })) (sym (append-nil p.tasks))
send_loop-batches socket [] [] (b ∷ batch) w p found small few =
    send_packet-wires socket b batch p (omega arith)
send_loop-batches socket [] (v ∷ vs) batch w p found small few = absurd found
send_loop-batches socket (h ∷ hashes) [] batch w p found small few = absurd found
send_loop-batches socket (h ∷ hashes) (v ∷ vs) [] w p found small few =
    round-on socket h hashes v w v vs [] [] p found.0 small.0 few (sym (append-nil (wire v)))
      (λ open_still. send_loop-batches socket hashes vs (v ∷ []) v p found.1 small.1 open_still)
      (send_loop-batches socket hashes vs [] v _ found.1 small.1 (omega arith))
send_loop-batches socket (h ∷ hashes) (v ∷ vs) (b ∷ batch) w p found small few =
    round-on socket h hashes v w b vs (batch ++ v ∷ []) (wires (b ∷ batch)) p found.0 small.0 few
      (sym (wires-snoc (b ∷ batch) v))
      (λ open_still.
        send_loop-batches socket hashes vs (b ∷ (batch ++ v ∷ [])) v p found.1 small.1 open_still)
      (send_loop-batches socket hashes vs [] v _ found.1 small.1 (omega arith))

-- If all hashes of the set are found in the map, and the vertices have messages of at most 25537
-- bytes and references longer than 50 bytes: send_missing_vertices gives to the pool one send for
-- each batch, in which a batch is closed at 40000 bytes or more, and the batches joined are the
-- vertices in their order.
pub send_missing_vertices_lem :
    (unset : Vertex) (socket : ℕ) (reference_set : List Bytes) (vs : List Vertex) (p : Peer)
    → Located p.server reference_set vs
    → All IsSmall vs
    → (send_missing_vertices unset socket reference_set p
        ≡ returns (with_sends socket (batches [] vs) p))
      × (concat (batches [] vs) ≡ vs)
unfolding send_missing_vertices
send_missing_vertices_lem unset socket reference_set vs p found small = (
  send_loop-batches socket reference_set vs [] unset p found small (omega arith),
  concat-batches [] vs,
)

-- If all hashes of the set are found in the map, and the vertices have messages of at most 25537
-- bytes and references longer than 50 bytes: what send_missing_vertices gives to the pool are
-- packets with at least one vertex, none of them larger than the stream buffer that receives it.
pub send_missing_vertices-IsPacket :
    (unset : Vertex) (socket : ℕ) (reference_set : List Bytes) (vs : List Vertex) (p : Peer)
    → Located p.server reference_set vs
    → All IsSmall vs
    → (packets : List (List Vertex)) × (send_missing_vertices unset socket reference_set p
        ≡ returns (with_sends socket packets p))
      × All IsPacket packets
send_missing_vertices-IsPacket unset socket reference_set vs p found small = (
  batches [] vs,
  (send_missing_vertices_lem unset socket reference_set vs p found small).0,
  batches-sizes [] vs (omega arith) small,
)
