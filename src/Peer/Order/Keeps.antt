-- ===== src/Peer/Order/Keeps.antt =====
-- What dag_scan and total_order leave as it is.
use dag_blockchain.Prelude.{
  >>=-eq-some, Bool, Bytes, List, Option, [], ap, bytes_eq, false, get_elem?, if◌then◌else◌, length,
  ltb, nat_eq, none, refl, some, subst, suc, true, zero, ℕ, ◌++◌, ◌+◌, ◌-◌, ◌∙◌, ◌∷◌, ◌≡◌,
}
use dag_blockchain.Prelude.Int.{pos, ℤ}
use dag_blockchain.Containers.Set.{contains}
use dag_blockchain.Vertex.{Crypto, hash_256, key}
use dag_blockchain.Network.Client.{get_socket, get_peer_id_at}
use dag_blockchain.Peer.{Peer}
use dag_blockchain.Peer.Order.{
  scan_rounds, dag_scan, blame, erase_socket, order_peers, order_rounds, total_order,
}

-- The round, the last round and the number of rounds in the DAG.
pub record Keeps (p q : Peer) : Type 0 where
  pub same_round : q.round ≡ p.round
  pub same_last : q.last_round ≡ p.last_round
  pub same_length : length q.dag_image ≡ length p.dag_image

pub Keeps-refl : (p : Peer) → Keeps p p
Keeps-refl p = record { same_round = refl; same_last = refl; same_length = refl }

pub Keeps-trans : (p q r : Peer) → Keeps p q → Keeps q r → Keeps p r
Keeps-trans p q r a b = record {
  same_round = b.same_round ∙ a.same_round;
  same_last = b.same_last ∙ a.same_last;
  same_length = b.same_length ∙ a.same_length;
}

peer_or : Peer → Option Peer → Peer
peer_or p none = p
peer_or p (some q) = q

-- A result that is known.
Keeps-some : (p q q' : Peer) → some q ≡ some q' → Keeps p q → Keeps p q'
unfolding peer_or
Keeps-some p q q' h k = subst (Keeps p) (ap (peer_or q) h) k

marked :
    (b : Bool) (i : ℕ) (p : Peer)
    → Keeps p (if b then record p { checks = p.checks ++ i ∷ [] } else p)
marked true i p = record { same_round = refl; same_last = refl; same_length = refl }
marked false i p = Keeps-refl p

scan_rounds-Keeps : (count i : ℕ) (p q : Peer) → scan_rounds count i p ≡ some q → Keeps p q
unfolding scan_rounds
scan_rounds-Keeps zero i p q h = Keeps-some p p q h (Keeps-refl p)
scan_rounds-Keeps (suc count) i p q h =
    let (vertices, e, r) = >>=-eq-some (get_elem? p.dag_image i) _ h in
    Keeps-trans p _ q (marked (ltb (length vertices) p.crowd) i p)
      (scan_rounds-Keeps count (i + 1) _ q r)

pub dag_scan-Keeps : (end : ℕ) (start : ℤ) (p q : Peer) → dag_scan end start p ≡ some q → Keeps p q
unfolding dag_scan
dag_scan-Keeps end start p q h = scan_rounds-Keeps _ _ p q h

blame-Keeps : (peer_id : ℕ) (p q : Peer) → blame peer_id p ≡ some q → Keeps p q
unfolding blame
blame-Keeps peer_id p q h =
    let (dead_socket, client) = get_socket peer_id p.client in
    let (sockets, e, r) = >>=-eq-some (erase_socket dead_socket client.c_sockets) _ h in
    Keeps-some p _ q r (record { same_round = refl; same_last = refl; same_length = refl })

present_or_blamed :
    (b : Bool) (peer_id : ℕ) (p q : Peer)
    → (if b then some p else blame peer_id p) ≡ some q
    → Keeps p q
present_or_blamed true peer_id p q h = Keeps-some p p q h (Keeps-refl p)
present_or_blamed false peer_id p q h = blame-Keeps peer_id p q h

module _ (crypto : Crypto) where
  order_peers-Keeps :
      (count j i : ℕ) (vertices : List Bytes) (p q : Peer)
      → order_peers crypto count j i vertices p ≡ some q
      → Keeps p q
  unfolding order_peers
  order_peers-Keeps zero j i vertices p q h = Keeps-some p p q h (Keeps-refl p)
  order_peers-Keeps (suc count) j i vertices p q h =
      let (peer_id, e, r) = >>=-eq-some (get_peer_id_at j p.client) _ h in
      let (m, e', r') =
        >>=-eq-some
          (if contains (hash_256 crypto (key (pos (i + 1)) peer_id)) vertices
            then some p
            else blame peer_id p)
          _ r in
      Keeps-trans p m q (present_or_blamed _ peer_id p m e')
        (order_peers-Keeps count (j + 1) i vertices m q r')

  full_or_ordered :
      (b : Bool) (count i : ℕ) (vertices : List Bytes) (p q : Peer)
      → (if b then order_peers crypto count 0 i vertices p else some p) ≡ some q
      → Keeps p q
  full_or_ordered true count i vertices p q h = order_peers-Keeps count 0 i vertices p q h
  full_or_ordered false count i vertices p q h = Keeps-some p p q h (Keeps-refl p)

  order_rounds-Keeps :
      (count i : ℕ) (p q : Peer) → order_rounds crypto count i p ≡ some q → Keeps p q
  unfolding order_rounds
  order_rounds-Keeps zero i p q h = Keeps-some p p q h (Keeps-refl p)
  order_rounds-Keeps (suc count) i p q h =
      let (vertices, e, r) = >>=-eq-some (get_elem? p.dag_image i) _ h in
      let (m, e', r') =
        >>=-eq-some
          (if ltb (length vertices) p.crowd
            then order_peers crypto (p.crowd - 1) 0 i vertices p
            else some p)
          _ r in
      Keeps-trans p m q (full_or_ordered _ (p.crowd - 1) i vertices p m e')
        (order_rounds-Keeps count (i + 1) m q r')

  pub total_order-Keeps :
      (end start : ℕ) (p q : Peer) → total_order crypto end start p ≡ some q → Keeps p q
  unfolding total_order
  total_order-Keeps end start p q h = order_rounds-Keeps _ _ p q h
