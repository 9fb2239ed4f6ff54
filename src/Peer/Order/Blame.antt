-- ===== src/Peer/Order/Blame.antt =====
-- Whom total_order puts on the list of failed peers.
use dag_blockchain.Prelude.{
  Bool, Bool-cases, Bytes, List, Option-cases, ap, arith, bytes_eq, false, get_elem?, inl, inr,
  length, nat_eq, some, suc, sym, take, true, zero, ℕ, ◌+◌, ◌-◌, ◌<◌, ◌||◌, ◌↔◌, ◌∙◌, ◌≡◌, ◌≤◌, ◌⊎◌,
}
use dag_blockchain.Prelude.Int.{pos}
use dag_blockchain.Vertex.{Crypto, hash_256, key}
use dag_blockchain.Containers.Set.{contains}
use dag_blockchain.Peer.{Peer}
use dag_blockchain.Peer.Order.Suspects.{lacks_in, suspect_at, is_suspect, order_rounds-Adds}
use dag_blockchain.Peer.Order.{total_order}

or_left : (a b : Bool) → a ≡ true → (a || b) ≡ true
or_left a b h = ground (arith, h)

or_behind : (a b : Bool) → b ≡ true → (a || b) ≡ true
or_behind a b h = ground (arith, h)

or_right : (a b : Bool) → a ≡ false → (a || b) ≡ true → b ≡ true
or_right a b h k = ground (arith, h, k)

pub equal_or_below : (i k : ℕ) → i ≤ k → (i ≡ k) ⊎ (i < k)
equal_or_below i k h = ground (arith, h)

module _ (crypto : Crypto) where
  -- Between the two rounds is one that is not full and lacks the vertex of this peer.
  abbrev pub Misses : ℕ → ℕ → ℕ → List ℕ → List (List Bytes) → ℕ → Type 0
  Misses start end crowd ids dag x =
      (i : ℕ) × (vertices : List Bytes) × (start ≤ i)
      × (i < end)
      × (get_elem? dag i ≡ some vertices)
      × (length vertices < crowd)
      × (contains x (take (crowd - 1) ids) ≡ true)
      × (contains (hash_256 crypto (key (pos (i + 1)) x)) vertices ≡ false)

  lacks_in-parts :
      (crowd i x : ℕ) (ids : List ℕ) (vertices : List Bytes)
      → (lacks_in crypto crowd ids i vertices x ≡ true) ↔ (
          (length vertices < crowd)
          × (contains x (take (crowd - 1) ids) ≡ true)
          × (contains (hash_256 crypto (key (pos (i + 1)) x)) vertices ≡ false))
  lacks_in-parts crowd i x ids vertices = ground arith

  is_suspect-Misses :
      (count i crowd x : ℕ) (ids : List ℕ) (dag : List (List Bytes))
      → is_suspect crypto count i crowd ids dag x ≡ true
      → Misses i (i + count) crowd ids dag x
  is_suspect-Misses zero i crowd x ids dag h = absurd (cc h)
  is_suspect-Misses (suc count) i crowd x ids dag h =
      let later : suspect_at crypto crowd ids i (get_elem? dag i) x ≡ false
          → Misses i (i + suc count) crowd ids dag x =
        λ quiet.
          let (k, vertices, from, to, e, few, known, missing) =
            is_suspect-Misses count (i + 1) crowd x ids dag (or_right _ _ quiet h) in
          (k, vertices, omega (arith, from), omega (arith, to), e, few, known, missing) in
      elim (Option-cases (get_elem? dag i)) [
        | inl absent ↦ later (ap (λ o. suspect_at crypto crowd ids i o x) absent)
        | inr (vertices, e) ↦ elim (Bool-cases (lacks_in crypto crowd ids i vertices x)) [
          | inl here ↦
              let (few, known, missing) = (lacks_in-parts crowd i x ids vertices).0 here in
              (i, vertices, omega arith, omega arith, e, few, known, missing)
          | inr not_here ↦ later (ap (λ o. suspect_at crypto crowd ids i o x) e ∙ not_here)
        ]
      ]

  Misses-is_suspect :
      (count i crowd x : ℕ) (ids : List ℕ) (dag : List (List Bytes))
      → Misses i (i + count) crowd ids dag x
      → is_suspect crypto count i crowd ids dag x ≡ true
  Misses-is_suspect zero i crowd x ids dag (k, vertices, from, to, e, few, known, missing) =
      absurd (omega (arith, from, to))
  Misses-is_suspect (suc count) i crowd x ids dag (k, vertices, from, to, e, few, known, missing) =
      elim (equal_or_below i k from) [
        | inl same ↦
            let first : suspect_at crypto crowd ids i (get_elem? dag i) x ≡ true =
              ap (λ o. suspect_at crypto crowd ids i o x) (ap (get_elem? dag) same ∙ e)
              ∙ (lacks_in-parts crowd i x ids vertices).1 (
                few,
                known,
                ap (λ j. contains (hash_256 crypto (key (pos (j + 1)) x)) vertices) same ∙ missing,
              ) in
            or_left _ _ first
        | inr less ↦ or_behind _ _ (
            Misses-is_suspect count (i + 1) crowd x ids dag
              (k, vertices, omega (arith, less), omega (arith, to), e, few, known, missing))
      ]

  -- The number of rounds of the loop.
  Misses-end :
      (start end crowd x : ℕ) (ids : List ℕ) (dag : List (List Bytes))
      → Misses start (start + (end - start)) crowd ids dag x ↔ Misses start end crowd ids dag x
  Misses-end start end crowd x ids dag = (
    λ m. (m.0, m.1, m.2, omega (arith, m.2, m.3), m.4, m.5, m.6, m.7),
    λ m. (m.0, m.1, m.2, omega (arith, m.2, m.3), m.4, m.5, m.6, m.7),
  )

  -- If total_order returns, a peer is on the list of failed peers afterwards if and only if it was
  -- before, or one of the rounds from the start to the end is not full and lacks the vertex of this
  -- peer, which is among the first `crowd` - 1 that the client knows.
  pub total_order_lem :
      (end start x : ℕ) (p q : Peer)
      → total_order crypto end start p ≡ some q
      → (contains x q.black_list ≡ true)
        ↔ ((contains x p.black_list ≡ true) ⊎ Misses start end p.crowd p.client.peers p.dag_image x)
  unfolding total_order
  total_order_lem end start x p q h =
      let listed = (order_rounds-Adds crypto x (end - start) start p q h).listed in
      let ids = p.client.peers in
      let range = Misses-end start end p.crowd x ids p.dag_image in
      let b = is_suspect crypto (end - start) start p.crowd ids p.dag_image x in
      (
        λ on. elim (Bool-cases (contains x p.black_list)) [
          | inl before ↦ inl before
          | inr new ↦ inr (
              range.0 (
                is_suspect-Misses (end - start) start p.crowd x ids p.dag_image
                  (or_right _ b new (sym listed ∙ on))))
        ],
        λ reason. elim reason [
          | inl before ↦ listed ∙ or_left _ b before
          | inr m ↦
              listed
              ∙ or_behind _ b
                  (Misses-is_suspect (end - start) start p.crowd x ids p.dag_image (range.1 m))
        ],
      )
