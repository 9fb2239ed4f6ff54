-- ===== src/Peer/Turn/Rounds.antt =====
-- The rounds of a peer and the sets of its DAG, from turn to turn.
use dag_blockchain.Prelude.{
  Bool, Bool-cases, Bytes, [], ap, ap₂, arith, bytes_eq, false, get_elem?, if◌then◌else◌, inl, inr,
  leb, leb→le, length, length-append, length-set, le→leb, nat_eq, not_leb→lt, refl, some, subst,
  sym, true, ℕ, ◌++◌, ◌+◌, ◌-◌, ◌∙◌, ◌∷◌, ◌≡◌, ◌≤◌,
}
use dag_blockchain.Prelude.Int.{ℤ}
use dag_blockchain.Vertex.{Crypto, Vertex}
use dag_blockchain.Vertex.Serialize.{serialize_data}
use dag_blockchain.Network.Outcome.{
  returns, lift, bind-eq-returns, lift-eq-returns, returns-injective, max_stream_size,
}
use dag_blockchain.Network.Message.{attach_length_to_msg, dynamic_copy}
use dag_blockchain.Peer.{Peer}
use dag_blockchain.Peer.Order.{dag_scan, total_order}
use dag_blockchain.Peer.Order.Keeps.{
  Keeps, Keeps-refl, Keeps-trans, dag_scan-Keeps, total_order-Keeps,
}
use dag_blockchain.Peer.Round.{check_waves, proposal, broadcast, publish, advance}

-- One set for each round up to the current one or the last one, and no round behind the one after it.
pub record IsAligned (p : Peer) : Type 0 where
  pub rounds : length p.dag_image ≡ (if leb p.round p.last_round then p.round else p.last_round)
  pub bounded : p.round ≤ p.last_round + 1

pub Keeps-IsAligned : (p q : Peer) → Keeps p q → IsAligned p → IsAligned q
Keeps-IsAligned p q k a = record {
  rounds =
      k.same_length
      ∙ a.rounds
      ∙ ap₂ (λ r l. if leb r l then r else l) (sym k.same_round) (sym k.same_last);
  bounded = omega (arith, a.bounded, k.same_round, k.same_last);
}

-- A result that is known.
pub Keeps-returns : (p q q' : Peer) → returns q ≡ returns q' → Keeps p q → Keeps p q'
Keeps-returns p q q' h k = subst (Keeps p) (returns-injective h) k

module _ (crypto : Crypto) where
  waves-Keeps :
      (b c : Bool) (end end' : ℕ) (start : ℤ) (start' : ℕ) (p q : Peer)
      → (if b then dag_scan end start p else if c then total_order crypto end' start' p else some p)
        ≡ some q
      → Keeps p q
  waves-Keeps true c end end' start start' p q h = dag_scan-Keeps end start p q h
  waves-Keeps false true end end' start start' p q h = total_order-Keeps crypto end' start' p q h
  waves-Keeps false false end end' start start' p q h =
      Keeps-returns p p q (ap lift h) (Keeps-refl p)

  check_waves-Keeps : (p q : Peer) → check_waves crypto p ≡ some q → Keeps p q
  unfolding check_waves
  check_waves-Keeps p q h = waves-Keeps _ _ _ _ _ _ p q h

  broadcast-Keeps :
      (data_bytes : Bytes) (size : ℕ) (p q : Peer)
      → broadcast crypto data_bytes size p ≡ returns q
      → Keeps p q
  unfolding broadcast
  broadcast-Keeps data_bytes size p q h =
      elim (Bool-cases (leb (length p.client.c_sockets) (p.crowd - 1))) [
        | inl fits ↦
            let (copy, e, r) =
              bind-eq-returns (lift (dynamic_copy data_bytes size)) _ (rw fits at h) in
            Keeps-returns p _ q r
              (record { same_round = refl; same_last = refl; same_length = refl })
        | inr over ↦ absurd (cc (rw over at h))
      ]

  publish-Keeps : (v : Vertex) (p q : Peer) → publish crypto v p ≡ returns q → Keeps p q
  unfolding publish
  publish-Keeps v p q h =
      let (vertices, e, r) = bind-eq-returns (lift (get_elem? p.dag_image (p.round - 1))) _ h in
      let (written, e', r') = bind-eq-returns (lift (serialize_data v max_stream_size)) _ r in
      let (stream, e'', r'') = bind-eq-returns (attach_length_to_msg written.0 written.1) _ r' in
      Keeps-trans p _ q
        (record {
          same_round = refl;
          same_last = refl;
          same_length = length-set p.dag_image (p.round - 1) _;
        })
        (broadcast-Keeps stream written.1 _ q r'')

  -- The step to the next round.
  pub advance-IsAligned :
      (p q : Peer)
      → IsAligned p
      → p.round ≤ p.last_round
      → advance crypto p ≡ returns q
      → IsAligned q
  unfolding advance
  advance-IsAligned p q a h e =
      let (m, e', r) = bind-eq-returns (lift (check_waves crypto p)) _ e in
      let k = check_waves-Keeps p m (lift-eq-returns (check_waves crypto p) e') in
      let size : length m.dag_image ≡ p.round =
        k.same_length ∙ a.rounds ∙ rw (le→leb p.round p.last_round h) refl in
      elim (Bool-cases (leb (m.round + 1) m.last_round)) [
        | inl more ↦
            let opened : Peer = record m {
              round = m.round + 1;
              dag_image = m.dag_image ++ [] ∷ [];
            } in
            let (v, e'', r') = bind-eq-returns (lift (proposal crypto opened)) _ (rw more at r) in
            Keeps-IsAligned opened q (publish-Keeps v opened q r') (record {
              rounds =
                  rw more (omega (arith, size, k.same_round, length-append m.dag_image ([] ∷ [])));
              bounded = omega (arith, leb→le _ _ more);
            })
        | inr last ↦
            let ended : Peer = record m { round = m.round + 1 } in
            Keeps-IsAligned ended q (Keeps-returns ended ended q (rw last at r) (Keeps-refl ended))
              (record {
                rounds =
                    rw last (omega (arith, size, k.same_round, k.same_last, not_leb→lt _ _ last));
                bounded = omega (arith, k.same_round, k.same_last);
              })
      ]
