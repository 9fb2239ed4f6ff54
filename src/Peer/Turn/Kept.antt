-- ===== src/Peer/Turn/Kept.antt =====
-- The parts of a turn that leave the rounds and the number of sets in the DAG as they are.
use dag_blockchain.Prelude.{
  Bool, Bool-cases, Bytes, List, [], ap, bytes_eq, false, if◌then◌else◌, inl, inr, leb, length,
  nat_eq, not, refl, subst, sym, true, ℕ, ◌&&◌, ◌==◌, ◌||◌, ◌∙◌, ◌∷◌, ◌≡◌,
}
use dag_blockchain.Prelude.Int.{leb_ℤ, pos, sub_ℕ}
use dag_blockchain.Peer.Turn.Frame.{framed, help_peer-framed}
use dag_blockchain.Vertex.{Crypto, Vertex, hash}
use dag_blockchain.Network.Outcome.{
  ◌>>=◌, returns, lift, bind-eq-returns, lift-eq-returns, returns-injective,
}
use dag_blockchain.Network.Server.{is_first_round}
use dag_blockchain.Network.Transfer.{message_of}
use dag_blockchain.Peer.{Peer, wave}
use dag_blockchain.Peer.History.{mutual_history}
use dag_blockchain.Peer.Order.{dag_scan}
use dag_blockchain.Peer.Order.Keeps.{Keeps, Keeps-refl, Keeps-trans, dag_scan-Keeps}
use dag_blockchain.Peer.Scan.{add_hash}
use dag_blockchain.Peer.Scan.Growth.{add_hash-Grows}
use dag_blockchain.Peer.Missing.{deliver_request}
use dag_blockchain.Peer.Turn.{
  Turn, ask_for_help, deliver_requests, help_peer, help_turn, admit_turn, keep_turn, vertex_turn,
  vertices_turn, stop_turn, end_turn,
}
use dag_blockchain.Peer.Turn.Rounds.{Keeps-returns}

-- The same for turns.
abbrev pub Follow : Turn → Turn → Type 0
Follow t t' = Keeps t.peer t'.peer

pub Follow-returns : (t u t' : Turn) → returns u ≡ returns t' → Follow t u → Follow t t'
Follow-returns t u t' h k = subst (Follow t) (returns-injective h) k

pub help_asked-Follow : (t t' : Turn) → ask_for_help t ≡ returns t' → Follow t t'
unfolding ask_for_help
help_asked-Follow t t' h = elim (Bool-cases (t.peer.round == t.peer.last_round)) [
  | inl last ↦ Follow-returns t _ t' (rw last at h) (Keeps-refl t.peer)
  | inr early ↦
      let (q, e, r) =
        bind-eq-returns (lift (dag_scan t.peer.round (sub_ℕ t.peer.round wave) t.peer)) _
          (rw early at h) in
      Follow-returns t _ t' r (dag_scan-Keeps _ _ t.peer q (lift-eq-returns _ e))
]

deliver_request-Keeps :
    (request : ℕ × Vertex) (p q : Peer) → deliver_request request p ≡ returns q → Keeps p q
unfolding deliver_request
deliver_request-Keeps request p q h =
    let (message, e, r) = bind-eq-returns (message_of request.1) _ h in
    Keeps-returns p _ q r (record { same_round = refl; same_last = refl; same_length = refl })

deliver_requests-Follow :
    (requests : List (ℕ × Vertex)) (t t' : Turn)
    → deliver_requests requests t ≡ returns t'
    → Follow t t'
unfolding deliver_requests
deliver_requests-Follow [] t t' h = Follow-returns t t t' h (Keeps-refl t.peer)
deliver_requests-Follow (request ∷ rest) t t' h =
    let (p, e, r) = bind-eq-returns (deliver_request request t.peer) _ h in
    Keeps-trans t.peer p t'.peer (deliver_request-Keeps request t.peer p e)
      (deliver_requests-Follow rest _ t' r)

help_peer-Keeps :
    (unset : Vertex) (peer_id : ℕ) (missing : List Bytes) (p q : Peer)
    → help_peer unset peer_id missing p ≡ returns q
    → Keeps p q
help_peer-Keeps unset peer_id missing p q h =
    let put : Peer → Peer = framed p.round p.last_round p.dag_image p.buffer in
    let same : q ≡ put q = returns-injective (
      sym h
      ∙ help_peer-framed p.round p.last_round p.dag_image p.buffer unset peer_id missing p
      ∙ ap (λ o. o >>= λ x. returns (put x)) h) in
    record {
      same_round = ap (λ x. x.round) same;
      same_last = ap (λ x. x.last_round) same;
      same_length = ap (λ x. length x.dag_image) same;
    }

module _ (crypto : Crypto) (draw : ℕ → ℕ) (unset : Vertex) where
  help_cases :
      (v : Vertex) (t : Turn) (missing : List Bytes) (t' : Turn)
      → help_turn crypto draw unset v (record t { missing = missing }) ≡ returns t'
      → Follow t t'
  unfolding help_turn
  help_cases v t [] t' h = Follow-returns t _ t' h (Keeps-refl t.peer)
  help_cases v t (m ∷ missing) t' h = elim (Bool-cases (leb (draw t.draws) 60)) [
    | inl helps ↦
        let (q, e, r) =
          bind-eq-returns (help_peer unset v.peer_id (m ∷ missing) t.peer) _ (rw helps at h) in
        Follow-returns t _ t' r (help_peer-Keeps unset v.peer_id (m ∷ missing) t.peer q e)
    | inr waits ↦ Follow-returns t _ t' (rw waits at h) (Keeps-refl t.peer)
  ]

  help_turn-Follow :
      (v : Vertex) (t t' : Turn) → help_turn crypto draw unset v t ≡ returns t' → Follow t t'
  unfolding help_turn
  help_turn-Follow v t t' h = help_cases v t t.missing t' h

  admit_turn-Follow :
      (v : Vertex) (t t' : Turn) → admit_turn crypto draw unset v t ≡ returns t' → Follow t t'
  unfolding admit_turn
  admit_turn-Follow v t t' h =
      let (u, e, r) = bind-eq-returns (help_turn crypto draw unset v t) _ h in
      let (dag, e', r') =
        bind-eq-returns (lift (add_hash v.round (hash crypto v) u.peer.dag_image)) _ r in
      let grown =
        add_hash-Grows v.round (hash crypto v) u.peer.dag_image dag (lift-eq-returns _ e') in
      Keeps-trans t.peer u.peer t'.peer (help_turn-Follow v t u e) (
        Follow-returns u _ t' r'
          (record { same_round = refl; same_last = refl; same_length = grown.2 }))

  admit_or_keep :
      (b : Bool) (v : Vertex) (t t' : Turn)
      → (if b then admit_turn crypto draw unset v t else returns (keep_turn crypto draw unset v t))
        ≡ returns t'
      → Follow t t'
  admit_or_keep true v t t' h = admit_turn-Follow v t t' h
  admit_or_keep false v t t' h =
      Follow-returns t _ t' h (record { same_round = refl; same_last = refl; same_length = refl })

  vertex_turn-Follow :
      (v : Vertex) (t t' : Turn) → vertex_turn crypto draw unset v t ≡ returns t' → Follow t t'
  unfolding vertex_turn
  vertex_turn-Follow v t t' h = elim (Bool-cases (leb_ℤ v.round (pos t.peer.round))) [
    | inl reached ↦ elim (Bool-cases (is_first_round v.round)) [
      | inl first ↦ admit_turn-Follow v t t' (rw (reached, first) at h)
      | inr later ↦
          let (checked, e, r) =
            bind-eq-returns (lift (mutual_history v.round v.references t.peer.dag_image)) _
              (rw (reached, later) at h) in
          admit_or_keep checked.0 v (record t { missing = checked.1 }) t' r
    ]
    | inr ahead ↦ admit_or_keep false v t t' (rw ahead at h)
  ]

  vertices_turn-Follow :
      (vs : List Vertex) (t t' : Turn)
      → vertices_turn crypto draw unset vs t ≡ returns t'
      → Follow t t'
  unfolding vertices_turn
  vertices_turn-Follow [] t t' h = Follow-returns t t t' h (Keeps-refl t.peer)
  vertices_turn-Follow (v ∷ vs) t t' h =
      let (u, e, r) = bind-eq-returns (vertex_turn crypto draw unset v t) _ h in
      Keeps-trans t.peer u.peer t'.peer (vertex_turn-Follow v t u e)
        (vertices_turn-Follow vs u t' r)

  stop_turn-Follow :
      (t : Turn)
      → Follow t (stop_turn crypto draw unset t).1
        × ((stop_turn crypto draw unset t).0 ≡ true
            → (stop_turn crypto draw unset t).1.peer.server.is_up ≡ false)
  unfolding stop_turn
  stop_turn-Follow t =
      elim (Bool-cases
        (not (leb_ℤ (pos t.peer.round) t.stop) || (t.peer.fail && t.peer.round == 27))) [
          | inl over ↦
              rw over
                (record { same_round = refl; same_last = refl; same_length = refl }, λ _. refl)
          | inr going ↦ rw going (Keeps-refl t.peer, λ h. absurd (cc h))
        ]

  pub end_turn-Follow :
      (t : Turn) (after : Bool × Turn)
      → end_turn crypto draw unset t ≡ returns after
      → Follow t after.1 × (after.0 ≡ true → after.1.peer.server.is_up ≡ false)
  unfolding end_turn
  end_turn-Follow t after h =
      let (answered, e, r) = bind-eq-returns (deliver_requests t.peer.requests t) _ h in
      let cleared : Turn =
        let q = answered.peer in
        record answered { peer = record q { requests = []; buffer = [] } } in
      let (scanned, e', r') =
        bind-eq-returns (vertices_turn crypto draw unset answered.peer.buffer cleared) _ r in
      let (follow, down) = stop_turn-Follow scanned in
      let before : Follow t cleared =
        Keeps-trans t.peer answered.peer cleared.peer
          (deliver_requests-Follow t.peer.requests t answered e)
          (record { same_round = refl; same_last = refl; same_length = refl }) in
      let through : Follow t scanned =
        Keeps-trans t.peer cleared.peer scanned.peer before
          (vertices_turn-Follow answered.peer.buffer cleared scanned e') in
      subst (λ (a : Bool × Turn). Follow t a.1 × (a.0 ≡ true → a.1.peer.server.is_up ≡ false))
        (returns-injective r')
        (
          Keeps-trans t.peer scanned.peer (stop_turn crypto draw unset scanned).1.peer through
              follow,
          down,
        )
