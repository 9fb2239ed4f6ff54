-- ===== src/Peer/Order/Full.antt =====
-- total_order leaves a peer as it is when its part of the DAG is full.
use dag_blockchain.Prelude.{
  Bytes, List, arith, bytes_eq, get_elem?, length, le→not_ltb, nat_eq, refl, some, suc, zero, ℕ,
  ◌+◌, ◌-◌, ◌<◌, ◌≡◌, ◌≤◌,
}
use dag_blockchain.Vertex.{Crypto}
use dag_blockchain.Peer.{Peer}
use dag_blockchain.Peer.Order.{order_rounds, total_order}

-- Every round from `start` to the one before `end` has all its vertices.
abbrev pub AreFull : ℕ → ℕ → Peer → Type 0
AreFull start end p =
    (k : ℕ)
    → start ≤ k
    → k < end
    → (vertices : List Bytes) × (get_elem? p.dag_image k ≡ some vertices)
      × (p.crowd ≤ length vertices)

module _ (crypto : Crypto) where
  order_rounds-AreFull :
      (count i : ℕ) (p : Peer) → AreFull i (i + count) p → order_rounds crypto count i p ≡ some p
  unfolding order_rounds
  order_rounds-AreFull zero i p full = refl
  order_rounds-AreFull (suc count) i p full =
      let (vertices, e, enough) = full i (omega arith) (omega arith) in
      rw (e, le→not_ltb (length vertices) p.crowd enough)
        (order_rounds-AreFull count (i + 1) p
          (λ k from to. full k (omega (arith, from)) (omega (arith, to))))

  pub total_order-AreFull :
      (end start : ℕ) (p : Peer) → AreFull start end p → total_order crypto end start p ≡ some p
  unfolding total_order
  total_order-AreFull end start p full =
      order_rounds-AreFull (end - start) start p
        (λ k from to. full k from (omega (arith, from, to)))
