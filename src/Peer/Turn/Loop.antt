-- ===== src/Peer/Turn/Loop.antt =====
-- The loop of buffer_scan_move_round: what holds after any number of turns.
use dag_blockchain.Prelude.{
  Bool, Bool-cases, List, Option-cases, [], ap, arith, bytes_eq, false, if◌then◌else◌, inl, inr,
  leb, leb→le, le→leb, nat_eq, refl, some, subst, true, ℕ, ◌∷◌, ◌≡◌, ◌≤◌,
}
use dag_blockchain.Network.Client.{Client}
use dag_blockchain.Peer.Round.{advance, can_move}
use dag_blockchain.Vertex.{Crypto, Vertex}
use dag_blockchain.Network.Outcome.{
  ◌>>=◌, returns, lift, bind-eq-returns, lift-eq-returns, returns-injective, Outcome,
}
use dag_blockchain.Network.Server.{Server, hand_over}
use dag_blockchain.Peer.Order.Keeps.{Keeps-trans}
use dag_blockchain.Peer.Turn.{
  new_peer, new_turn, Turn, ask_for_help, begin_turn, try_round, wait_turn, whole_turn, TurnInput,
  turns,
}
use dag_blockchain.Peer.Turn.Rounds.{advance-IsAligned, IsAligned, Keeps-IsAligned}
use dag_blockchain.Peer.Turn.Kept.{Follow, Follow-returns, help_asked-Follow, end_turn-Follow}

moved_or_waits :
    (crypto : Crypto) (moves late : Bool) (t t' : Turn)
    → (if moves
        then (advance crypto t.peer >>= λ p. returns (record t { peer = p; need_help = false }))
        else if late
        then ask_for_help t
        else returns t)
      ≡ returns t'
    → IsAligned t.peer
    → t.peer.round ≤ t.peer.last_round
    → IsAligned t'.peer
moved_or_waits crypto true late t t' h a early =
    let (p, e, r) = bind-eq-returns (advance crypto t.peer) _ h in
    subst (λ u. IsAligned u.peer) (returns-injective r)
      (advance-IsAligned crypto t.peer p a early e)
moved_or_waits crypto false true t t' h a early =
    Keeps-IsAligned t.peer t'.peer (help_asked-Follow t t' h) a
moved_or_waits crypto false false t t' h a early =
    subst (λ u. IsAligned u.peer) (returns-injective h) a

try_round-IsAligned :
    (crypto : Crypto) (late : Bool) (t t' : Turn)
    → IsAligned t.peer
    → try_round crypto late t ≡ returns t'
    → IsAligned t'.peer
unfolding try_round
try_round-IsAligned crypto late t t' a h = elim (Bool-cases (leb t.peer.round t.peer.last_round)) [
  | inl early ↦
      let (moves, e, r) = bind-eq-returns (lift (can_move t.peer)) _ (rw early at h) in
      moved_or_waits crypto moves late t t' r a (leb→le _ _ early)
  | inr over ↦ subst (λ u. IsAligned u.peer) (returns-injective (rw over at h)) a
]

begin_turn-IsAligned :
    (crypto : Crypto) (late : Bool) (t t' : Turn)
    → IsAligned t.peer
    → begin_turn crypto late t ≡ returns t'
    → IsAligned t'.peer
unfolding begin_turn
begin_turn-IsAligned crypto late t t' a h =
    let (u, e, r) = bind-eq-returns (try_round crypto late t) _ h in
    subst (λ u. IsAligned u.peer) (returns-injective r)
      (Keeps-IsAligned u.peer _ (record { same_round = refl; same_last = refl; same_length = refl })
        (try_round-IsAligned crypto late t u a e))

wait_turn-Follow :
    (nfds : ℕ) (s : Server) (t t' : Turn) → wait_turn nfds s t ≡ some t' → Follow t t'
unfolding wait_turn
wait_turn-Follow nfds s t t' h =
    elim (Option-cases
      (hand_over nfds s (record { buffer = t.peer.buffer; requests = t.peer.requests }))) [
        | inl asleep ↦ absurd (cc (rw (wait_turn, asleep) at h))
        | inr (after, e) ↦
            Follow-returns t _ t' (ap lift (rw (wait_turn, e) at h))
              (record { same_round = refl; same_last = refl; same_length = refl })
      ]

whole_turn-IsAligned :
    (crypto : Crypto) (unset : Vertex) (input : TurnInput) (t : Turn) (after : Bool × Turn)
    → IsAligned t.peer
    → whole_turn crypto unset input t ≡ returns after
    → IsAligned after.1.peer × (after.0 ≡ true → after.1.peer.server.is_up ≡ false)
unfolding whole_turn
whole_turn-IsAligned crypto unset input t after a h =
    let (ready, e, r) = bind-eq-returns (begin_turn crypto input.late t) _ h in
    let (woken, e', r') = bind-eq-returns (lift (wait_turn input.nfds input.server ready)) _ r in
    let (follow, down) = end_turn-Follow crypto input.draw unset woken after r' in
    let before =
      Keeps-trans ready.peer woken.peer after.1.peer
        (wait_turn-Follow input.nfds input.server ready woken (lift-eq-returns _ e')) follow in
    (
      Keeps-IsAligned ready.peer after.1.peer before
          (begin_turn-IsAligned crypto input.late t ready a e),
      down,
    )

abbrev Lasts : Bool × Turn → Type 0
Lasts after = IsAligned after.1.peer × (after.0 ≡ true → after.1.peer.server.is_up ≡ false)

-- The loop is left, or goes on.
left_or_goes_on :
    (mid after : Bool × Turn) (rest : Turn → Outcome (Bool × Turn))
    → elim mid.0 as (λ b. Outcome (Bool × Turn)) [ true ↦ returns mid | false ↦ rest mid.1 ]
      ≡ returns after
    → Lasts mid
    → ((t : Turn) → IsAligned t.peer → rest t ≡ returns after → Lasts after)
    → Lasts after
left_or_goes_on (true, t) after rest h lasts k = subst Lasts (returns-injective h) lasts
left_or_goes_on (false, t) after rest h lasts k = k t lasts.0 h

turns-IsAligned :
    (crypto : Crypto) (unset : Vertex) (inputs : List TurnInput) (t : Turn) (after : Bool × Turn)
    → IsAligned t.peer
    → turns crypto unset inputs t ≡ returns after
    → Lasts after
unfolding turns
turns-IsAligned crypto unset [] t after a h =
    subst Lasts (returns-injective h) (a, λ no. absurd (cc no))
turns-IsAligned crypto unset (input ∷ inputs) t after a h =
    let (mid, e, r) = bind-eq-returns (whole_turn crypto unset input t) _ h in
    left_or_goes_on mid after (turns crypto unset inputs) r
      (whole_turn-IsAligned crypto unset input t mid a e)
      (λ u a' e'. turns-IsAligned crypto unset inputs u after a' e')

-- After any number of turns of the loop that end, from a new peer: its DAG has one set for each
-- round up to the current one or the last one, it is in no round behind the one after the last, and
-- if the loop was left, the server has been told to end.
pub turns-new_turn :
    (crypto : Crypto) (unset : Vertex) (id crowd last_round : ℕ) (fail : Bool) (client : Client)
    (inputs : List TurnInput) (after : Bool × Turn)
    → turns crypto unset inputs (new_turn (new_peer id crowd last_round fail client))
      ≡ returns after
    → IsAligned after.1.peer × (after.0 ≡ true → after.1.peer.server.is_up ≡ false)
unfolding new_turn new_peer
turns-new_turn crypto unset id crowd last_round fail client inputs after h =
    turns-IsAligned crypto unset inputs (new_turn (new_peer id crowd last_round fail client)) after
      (record { rounds = rw (le→leb 0 last_round (omega arith)) refl; bounded = omega arith }) h
