-- ===== src/Peer/Order/Sockets.antt =====
-- The loop of total_order that erases the socket of a peer, when the socket stands once in the list.
use dag_blockchain.Prelude.{
  List, Option, [], arith, beq_refl, false, length, length-append, nat_eq, none, refl, some, ℕ,
  ◌++◌, ◌<◌, ◌==◌, ◌∷◌, ◌≡◌,
}
use dag_blockchain.Containers.Set.{contains}
use dag_blockchain.Peer.Order.{erase_socket}

erase_absent :
    (dead : ℕ) (sockets : List ℕ)
    → contains dead sockets ≡ false
    → erase_socket dead sockets ≡ some sockets
unfolding erase_socket contains
erase_absent dead [] h = refl
erase_absent dead (s ∷ []) h = ground arith
erase_absent dead (s ∷ t ∷ rest) h = ground (arith, erase_absent dead (t ∷ rest) (ground arith))

-- The result for the list `before ++ dead ∷ behind`.
abbrev pub erased : List ℕ → List ℕ → Option (List ℕ)
erased before [] = none
erased before (t ∷ rest) = some (before ++ t ∷ rest)

erase_first :
    (dead : ℕ) (behind : List ℕ)
    → contains dead behind ≡ false
    → erase_socket dead (dead ∷ behind) ≡ erased [] behind
unfolding erase_socket contains
erase_first dead [] h = rw (beq_refl dead) refl
erase_first dead (t ∷ rest) h =
    let e : erase_socket dead rest ≡ some rest = erase_absent dead rest (ground arith) in
    rw (beq_refl dead, e) refl

erase_step :
    (dead s : ℕ) (sockets before behind : List ℕ)
    → s == dead ≡ false
    → 0 < length sockets
    → erase_socket dead sockets ≡ erased before behind
    → erase_socket dead (s ∷ sockets) ≡ erased (s ∷ before) behind
unfolding erase_socket
erase_step dead s [] before behind h some_left e = absurd (omega arith)
erase_step dead s (t ∷ rest) before [] h some_left e = rw (h, e) refl
erase_step dead s (t ∷ rest) before (u ∷ behind) h some_left e = rw (h, e) refl

-- In a list in which the socket of the peer stands once: if another socket stands behind it, the
-- loop takes it out and leaves the others in their order; if it is the last one, the iterator moves
-- past the end, which is undefined.
pub erase_socket_lem :
    (dead : ℕ) (before behind : List ℕ)
    → contains dead before ≡ false
    → contains dead behind ≡ false
    → erase_socket dead (before ++ dead ∷ behind) ≡ erased before behind
unfolding contains
erase_socket_lem dead [] behind h k = erase_first dead behind k
erase_socket_lem dead (s ∷ before) behind h k =
    erase_step dead s (before ++ dead ∷ behind) before behind (ground arith)
      (omega (arith, length-append before (dead ∷ behind)))
      (erase_socket_lem dead before behind (ground arith) k)
