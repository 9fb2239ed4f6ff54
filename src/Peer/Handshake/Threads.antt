-- ===== src/Peer/Handshake/Threads.antt =====
-- The mutex, the sleep of the peer and the end of the server.
use dag_blockchain.Prelude.{
  Bool, Bool-cases, List, Option, Option-cases, [], ap, arith, false, inl, inr, length, ltb, ltb→lt,
  none, not, refl, replicate, some, suc, sym, true, zero, ℕ, ◌&&◌, ◌<◌, ◌>>=◌, ◌||◌, ◌∙◌, ◌∷◌, ◌≡◌,
  ◌≤◌,
}
use dag_blockchain.Peer.Handshake.{
  PeerPlace, Control, ControlEvent, asleep, awake, control_run, new_control, control_step,
  server_goes, ServerPlace, ended, left, server_step, tests, notifies, inserted, inserts,
  wants_lock, saw_ready, spins, polls,
}
use dag_blockchain.Peer.Handshake.Finite.{every, every-all, and_left, and_right}
use dag_blockchain.Peer.Handshake.Fine.{
  is_fine, peer_holds, server_holds, modus_ponens, reached-IsFine,
}

abbrev alone : Control → Bool
alone c = not (is_fine c) || not (peer_holds c.peer && server_holds c.server)

alone-always : every alone ≡ true
alone-always = refl

-- However the threads of the server and the peer take their steps from their start: they are never
-- both at a place at which they hold the mutex.
pub handshake_exclusion :
    (es : List ControlEvent) (c : Control)
    → control_run es new_control ≡ some c
    → (peer_holds c.peer && server_holds c.server) ≡ false
handshake_exclusion es c h =
    let here : not (peer_holds c.peer && server_holds c.server) ≡ true =
      modus_ponens (is_fine c) _ (every-all alone alone-always c) (reached-IsFine es c h) in
    ground (arith, here)

abbrev is_awake : PeerPlace → Bool
is_awake awake = true
is_awake _ = false

abbrev is_asleep : PeerPlace → Bool
is_asleep asleep = true
is_asleep _ = false

-- The server alone wakes the peer up in at most so many steps.
abbrev wakes : ℕ → Control → Bool
wakes zero c = is_awake c.peer
wakes (suc n) c =
    is_awake c.peer
    || elim (control_step (server_goes true) c) [ none ↦ false | some c' ↦ wakes n c' ]

abbrev woken_in_time : Control → Bool
woken_in_time c = not (is_fine c) || (not (is_asleep c.peer) || wakes 8 c)

woken-always : every woken_in_time ≡ true
unfolding control_step server_step
woken-always = refl

is_awake-eq : (p : PeerPlace) → is_awake p ≡ true → p ≡ awake
is_awake-eq p h = ground (arith, h)

wakes-run :
    (n : ℕ) (c : Control)
    → wakes n c ≡ true
    → (k : ℕ) × (c' : Control) × (k ≤ n)
      × (control_run (replicate k (server_goes true)) c ≡ some c')
      × (c'.peer ≡ awake)
unfolding control_run
wakes-run zero c h = (0, c, omega arith, refl, is_awake-eq c.peer h)
wakes-run (suc n) c h = elim (Bool-cases (is_awake c.peer)) [
  | inl up ↦ (0, c, omega arith, refl, is_awake-eq c.peer up)
  | inr down ↦ elim (Option-cases (control_step (server_goes true) c)) [
    | inl stuck ↦ absurd (cc (rw (wakes, down, stuck) at h))
    | inr (m, e) ↦
        let (k, c', few, run, there) = wakes-run n m (rw (wakes, down, e) at h) in
        (
          suc k,
          c',
          omega arith,
          ap (λ o. o >>= control_run (replicate k (server_goes true))) e ∙ run,
          there,
        )
  ]
]

-- However the threads of the server and the peer got there from their start: when the peer sleeps
-- in the condition variable, the server has at most eight steps of its own, each of which it can
-- take, after which the peer is awake, if from now on it finds something to hand over or no event.
pub sleeper_wakes :
    (es : List ControlEvent) (c : Control)
    → control_run es new_control ≡ some c
    → c.peer ≡ asleep
    → (k : ℕ) × (c' : Control) × (k ≤ 8)
      × (control_run (replicate k (server_goes true)) c ≡ some c')
      × (c'.peer ≡ awake)
sleeper_wakes es c h sleeps = wakes-run 8 c (
    modus_ponens (is_asleep c.peer) _
      (modus_ponens (is_fine c) _ (every-all woken_in_time woken-always c) (reached-IsFine es c h))
      (ap is_asleep sleeps))

-- How far the server is from its end, once the peer has left.
abbrev distance : ServerPlace → ℕ
distance ended = 0
distance tests = 1
distance notifies = 2
distance inserted = 3
distance inserts = 4
distance wants_lock = 5
distance saw_ready = 6
distance spins = 7
distance polls = 8

-- Steps of the server, as long as it has one.
unfoldable pub serve_alone : List Bool → Control → Control
serve_alone [] c = c
serve_alone (due ∷ dues) c = elim (control_step (server_goes due) c) [
  | none ↦ c
  | some c' ↦ serve_alone dues c'
]

abbrev is_left : PeerPlace → Bool
is_left left = true
is_left _ = false

abbrev is_ended : ServerPlace → Bool
is_ended ended = true
is_ended _ = false

abbrev nearer : Control → Option Control → Bool
nearer c none = is_ended c.server
nearer c (some c') = is_left c'.peer && (is_fine c' && ltb (distance c'.server) (distance c.server))

abbrev comes_nearer : Bool → Control → Bool
comes_nearer due c =
    not (is_fine c) || (not (is_left c.peer) || nearer c (control_step (server_goes due) c))

nearer-due : every (comes_nearer true) ≡ true
unfolding control_step server_step
nearer-due = refl

nearer-not_due : every (comes_nearer false) ≡ true
unfolding control_step server_step
nearer-not_due = refl

comes_nearer-always : (due : Bool) (c : Control) → comes_nearer due c ≡ true
comes_nearer-always true c = every-all (comes_nearer true) nearer-due c
comes_nearer-always false c = every-all (comes_nearer false) nearer-not_due c

is_ended-eq : (q : ServerPlace) → is_ended q ≡ true → q ≡ ended
is_ended-eq q h = ground (arith, h)

distance-ended : (q : ServerPlace) → distance q ≤ 0 → q ≡ ended
distance-ended q h = ground (arith, h)

distance-bounded : (q : ServerPlace) → distance q ≤ 8
distance-bounded q = ground arith

nearer-parts :
    (c c' : Control)
    → nearer c (some c') ≡ true
    → (is_left c'.peer ≡ true) × (is_fine c' ≡ true) × (distance c'.server < distance c.server)
nearer-parts c c' h =
    let a = is_left c'.peer in
    let b = is_fine c' in
    let d = ltb (distance c'.server) (distance c.server) in
    let rest = and_right a (b && d) h in
    (and_left a (b && d) h, and_left b d rest, ltb→lt _ _ (and_right b d rest))

serve_alone-ends :
    (dues : List Bool) (c : Control)
    → is_fine c ≡ true
    → is_left c.peer ≡ true
    → distance c.server ≤ length dues
    → (serve_alone dues c).server ≡ ended
unfolding serve_alone
serve_alone-ends [] c fine gone h = distance-ended c.server h
serve_alone-ends (due ∷ dues) c fine gone h =
    let closer : nearer c (control_step (server_goes due) c) ≡ true =
      modus_ponens (is_left c.peer) _ (modus_ponens (is_fine c) _ (comes_nearer-always due c) fine)
        gone in
    elim (Option-cases (control_step (server_goes due) c)) [
      | inl stuck ↦
          rw (serve_alone, stuck) (is_ended-eq c.server (ap (nearer c) (sym stuck) ∙ closer))
      | inr (c', e) ↦
          let near : nearer c (some c') ≡ true = ap (nearer c) (sym e) ∙ closer in
          let (gone', fine', fewer) = nearer-parts c c' near in
          rw (serve_alone, e) (serve_alone-ends dues c' fine' gone' (omega (arith, h, fewer)))
    ]

-- However the threads of the server and the peer got there from their start: once the peer has left
-- its loop, the server goes on alone and has left its own after eight steps, whatever it finds.
pub server_ends :
    (es : List ControlEvent) (c : Control) (dues : List Bool)
    → control_run es new_control ≡ some c
    → c.peer ≡ left
    → 8 ≤ length dues
    → (serve_alone dues c).server ≡ ended
server_ends es c dues h gone enough =
    serve_alone-ends dues c (reached-IsFine es c h) (ap is_left gone)
      (omega (arith, enough, distance-bounded c.server))
