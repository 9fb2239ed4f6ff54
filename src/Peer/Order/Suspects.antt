-- ===== src/Peer/Order/Suspects.antt =====
-- What the loops of total_order add to the list of failed peers, as a test on the peer before them.
use dag_blockchain.Prelude.{
  >>=-eq-some, Bool, Bytes, List, Option, [], ap, arith, bytes_eq, drop, false, get_elem?,
  if◌then◌else◌, length, ltb, nat_eq, none, not, refl, some, subst, suc, sym, take, true, zero, ℕ,
  ◌&&◌, ◌+◌, ◌-◌, ◌==◌, ◌||◌, ◌∙◌, ◌∷◌, ◌≡◌,
}
use dag_blockchain.Prelude.Int.{pos}
use dag_blockchain.Vertex.{Crypto, hash_256, key}
use mathlib.Core.Option.{some-injective}
use dag_blockchain.Containers.Set.{contains, contains-emplace}
use dag_blockchain.Network.Client.{get_socket, get_peer_id_at}
use dag_blockchain.Network.Client
use dag_blockchain.Peer.{Peer}
use dag_blockchain.Peer.Order.{blame, erase_socket, order_peers, order_rounds}

-- The list has the element at the place of the loop next.
take-drop_at :
    (xs : List ℕ) (j count x : ℕ)
    → get_elem? xs j ≡ some x
    → take (suc count) (drop j xs) ≡ x ∷ take count (drop (suc j) xs)
take-drop_at [] j count x h = absurd (ground (arith, h))
take-drop_at (y ∷ xs) zero count x h = ap (λ z. z ∷ take count xs) (some-injective _ _ h)
take-drop_at (y ∷ xs) (suc j) count x h = take-drop_at xs j count x h

take-drop_next :
    (xs : List ℕ) (j count x : ℕ)
    → get_elem? xs j ≡ some x
    → take (suc count) (drop j xs) ≡ x ∷ take count (drop (j + 1) xs)
take-drop_next xs j count x h =
    let e : suc j ≡ j + 1 = omega arith in
    take-drop_at xs j count x h ∙ ap (λ k. x ∷ take count (drop k xs)) e

-- What the loop over the peers leaves as it is.
pub record Alike (p q : Peer) : Type 0 where
  pub same_peers : q.client.peers ≡ p.client.peers
  pub same_dag : q.dag_image ≡ p.dag_image
  pub same_crowd : q.crowd ≡ p.crowd

Alike-refl : (p : Peer) → Alike p p
Alike-refl p = record { same_peers = refl; same_dag = refl; same_crowd = refl }

Alike-trans : (p q r : Peer) → Alike p q → Alike q r → Alike p r
Alike-trans p q r a b = record {
  same_peers = b.same_peers ∙ a.same_peers;
  same_dag = b.same_dag ∙ a.same_dag;
  same_crowd = b.same_crowd ∙ a.same_crowd;
}

-- The list of the later state has those of the earlier one for whom `b` holds as well.
pub record Adds (x : ℕ) (b : Bool) (p q : Peer) : Type 0 where
  pub alike : Alike p q
  pub listed : contains x q.black_list ≡ (contains x p.black_list || b)

Adds-none : (x : ℕ) (b : Bool) (p q : Peer) → some p ≡ some q → b ≡ false → Adds x b p q
Adds-none x b p q h none_added =
    subst (Adds x b p) (some-injective _ _ h)
      (record { alike = Alike-refl p; listed = ground (arith, none_added) })

Adds-trans :
    (x : ℕ) (b c d : Bool) (p q r : Peer)
    → (b || c) ≡ d
    → Adds x b p q
    → Adds x c q r
    → Adds x d p r
Adds-trans x b c d p q r e s t = record {
  alike = Alike-trans p q r s.alike t.alike;
  listed = ground (arith, e, s.listed, t.listed);
}

get_socket-Alike : (peer_id : ℕ) (c : Client.Client) → (get_socket peer_id c).1.peers ≡ c.peers
unfolding get_socket
get_socket-Alike peer_id c = ground arith

blame-Adds : (x peer_id : ℕ) (p q : Peer) → blame peer_id p ≡ some q → Adds x (peer_id == x) p q
unfolding blame
blame-Adds x peer_id p q h =
    let (dead_socket, client) = get_socket peer_id p.client in
    let (sockets, e, r) = >>=-eq-some (erase_socket dead_socket client.c_sockets) _ h in
    subst (Adds x (peer_id == x) p) (some-injective _ _ r) (record {
      alike = record {
        same_peers = get_socket-Alike peer_id p.client;
        same_dag = refl;
        same_crowd = refl;
      };
      listed = ground (arith, contains-emplace peer_id x p.black_list);
    })

module _ (crypto : Crypto) where
  -- The vertex of the peer for the round at index `i` is not among these.
  abbrev pub lacks : ℕ → List Bytes → ℕ → Bool
  lacks i vertices x = not (contains (hash_256 crypto (key (pos (i + 1)) x)) vertices)

  turn-Adds :
      (b : Bool) (x peer_id : ℕ) (p q : Peer)
      → (if b then some p else blame peer_id p) ≡ some q
      → Adds x (peer_id == x && not b) p q
  turn-Adds true x peer_id p q h = Adds-none x _ p q h (ground arith)
  turn-Adds false x peer_id p q h =
      let s = blame-Adds x peer_id p q h in
      record { alike = s.alike; listed = ground (arith, s.listed) }

  -- The first peer lacks its vertex, or a later one does.
  suspect_first :
      (i : ℕ) (vertices : List Bytes) (x y : ℕ) (ys : List ℕ)
      → ((y == x && lacks i vertices y) || (contains x ys && lacks i vertices x))
        ≡ (contains x (y ∷ ys) && lacks i vertices x)
  unfolding contains
  suspect_first i vertices x y ys =
      ground (arith, nat_eq.agrees y x, λ (e : y ≡ x). ap (lacks i vertices) e)

  -- The places of the loop that are left, when the first one is that of `y`.
  suspects_left :
      (x y count j i : ℕ) (vertices : List Bytes) (ids ids' : List ℕ)
      → get_elem? ids j ≡ some y
      → ids' ≡ ids
      → ((y == x && lacks i vertices y)
          || (contains x (take count (drop (j + 1) ids')) && lacks i vertices x))
        ≡ (contains x (take (suc count) (drop j ids)) && lacks i vertices x)
  suspects_left x y count j i vertices ids ids' h same =
      ap
        (λ ps.
          (y == x && lacks i vertices y)
          || (contains x (take count (drop (j + 1) ps)) && lacks i vertices x))
        same
      ∙ suspect_first i vertices x y (take count (drop (j + 1) ids))
      ∙ ap (λ ps. contains x ps && lacks i vertices x) (sym (take-drop_next ids j count y h))

  order_peers-Adds :
      (x count j i : ℕ) (vertices : List Bytes) (p q : Peer)
      → order_peers crypto count j i vertices p ≡ some q
      → Adds x (contains x (take count (drop j p.client.peers)) && lacks i vertices x) p q
  unfolding order_peers contains get_peer_id_at
  order_peers-Adds x zero j i vertices p q h = Adds-none x _ p q h refl
  order_peers-Adds x (suc count) j i vertices p q h =
      let (peer_id, e, r) = >>=-eq-some (get_peer_id_at j p.client) _ h in
      let (m, e', r') =
        >>=-eq-some
          (if contains (hash_256 crypto (key (pos (i + 1)) peer_id)) vertices
            then some p
            else blame peer_id p)
          _ r in
      let turn = turn-Adds _ x peer_id p m e' in
      let rest = order_peers-Adds x count (j + 1) i vertices m q r' in
      Adds-trans x _ _ _ p m q
        (suspects_left x peer_id count j i vertices p.client.peers m.client.peers e
          turn.alike.same_peers)
        turn rest

  -- A round that is not full, and lacks the vertex of one of the peers of the loop.
  abbrev pub lacks_in : ℕ → List ℕ → ℕ → List Bytes → ℕ → Bool
  lacks_in crowd ids i vertices x =
      ltb (length vertices) crowd && (contains x (take (crowd - 1) ids) && lacks i vertices x)

  abbrev pub suspect_at : ℕ → List ℕ → ℕ → Option (List Bytes) → ℕ → Bool
  suspect_at crowd ids i none x = false
  suspect_at crowd ids i (some vertices) x = lacks_in crowd ids i vertices x

  abbrev pub is_suspect : ℕ → ℕ → ℕ → List ℕ → List (List Bytes) → ℕ → Bool
  is_suspect zero i crowd ids dag x = false
  is_suspect (suc count) i crowd ids dag x =
      suspect_at crowd ids i (get_elem? dag i) x || is_suspect count (i + 1) crowd ids dag x

  suspects_from :
      (x count i : ℕ) (vertices : List Bytes) (p m : Peer)
      → get_elem? p.dag_image i ≡ some vertices
      → Alike p m
      → (lacks_in p.crowd p.client.peers i vertices x
          || is_suspect count (i + 1) m.crowd m.client.peers m.dag_image x)
        ≡ is_suspect (suc count) i p.crowd p.client.peers p.dag_image x
  suspects_from x count i vertices p m e a = rw (a.same_crowd, a.same_peers, a.same_dag, e) refl

  round-Adds :
      (b : Bool) (x i : ℕ) (vertices : List Bytes) (p q : Peer)
      → (if b then order_peers crypto (p.crowd - 1) 0 i vertices p else some p) ≡ some q
      → Adds x (b && (contains x (take (p.crowd - 1) p.client.peers) && lacks i vertices x)) p q
  round-Adds true x i vertices p q h = order_peers-Adds x (p.crowd - 1) 0 i vertices p q h
  round-Adds false x i vertices p q h = Adds-none x _ p q h refl

  pub order_rounds-Adds :
      (x count i : ℕ) (p q : Peer)
      → order_rounds crypto count i p ≡ some q
      → Adds x (is_suspect count i p.crowd p.client.peers p.dag_image x) p q
  unfolding order_rounds
  order_rounds-Adds x zero i p q h = Adds-none x _ p q h refl
  order_rounds-Adds x (suc count) i p q h =
      let (vertices, e, r) = >>=-eq-some (get_elem? p.dag_image i) _ h in
      let (m, e', r') =
        >>=-eq-some
          (if ltb (length vertices) p.crowd
            then order_peers crypto (p.crowd - 1) 0 i vertices p
            else some p)
          _ r in
      let first = round-Adds _ x i vertices p m e' in
      let rest = order_rounds-Adds x count (i + 1) m q r' in
      Adds-trans x _ _ _ p m q (suspects_from x count i vertices p m e first.alike) first rest
