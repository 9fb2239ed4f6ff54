-- ===== src/Peer/Handshake/Fine.antt =====
-- What holds of the two threads in every state that they reach.
use dag_blockchain.Prelude.{
  >>=-eq-some, Bool, List, Option, [], ap, arith, false, none, not, refl, some, sym, true, ◌&&◌,
  ◌||◌, ◌∙◌, ◌∷◌, ◌≡◌,
}
use dag_blockchain.Peer.Handshake.{
  Holder, nobody, peer_has, server_has, PeerPlace, ServerPlace, Control, ControlEvent, peer_goes,
  spurious, server_goes, at_head, locked, readied, asleep, awake, scans, scanned, downed, leaves,
  left, polls, spins, saw_ready, wants_lock, inserts, inserted, notifies, peer_step, server_step,
  control_step, control_run, new_control, ended,
}
use dag_blockchain.Peer.Handshake.Finite.{every, every-all}

-- The thread of the peer has the mutex here.
abbrev pub peer_holds : PeerPlace → Bool
peer_holds at_head = false
peer_holds locked = true
peer_holds readied = true
peer_holds asleep = false
peer_holds awake = false
peer_holds scans = true
peer_holds scanned = true
peer_holds downed = true
peer_holds leaves = true
peer_holds left = false

abbrev pub server_holds : ServerPlace → Bool
server_holds inserts = true
server_holds inserted = true
server_holds _ = false

abbrev owned_right : Holder → Bool → Bool → Bool
owned_right nobody p q = not p && not q
owned_right peer_has p q = p && not q
owned_right server_has p q = not p && q

-- The server is between the reset of the flag and the notify.
abbrev on_the_way : ServerPlace → Bool
on_the_way wants_lock = true
on_the_way inserts = true
on_the_way inserted = true
on_the_way notifies = true
on_the_way _ = false

abbrev before_lock : ServerPlace → Bool
before_lock wants_lock = true
before_lock _ = false

-- A peer that sleeps, or is about to, has the flag set, or the server is on its way to it.
abbrev heard : PeerPlace → Bool → ServerPlace → Bool
heard readied ready q = ready || before_lock q
heard asleep ready q = ready || on_the_way q
heard _ ready q = true

-- The server may still look for the flag.
abbrev looks : ServerPlace → Bool
looks polls = true
looks spins = true
looks saw_ready = true
looks _ = false

-- A peer that leaves has told the server to end, and has set the flag for its last hand-over.
abbrev farewell : PeerPlace → Bool → Bool → ServerPlace → Bool
farewell downed up ready q = not up
farewell leaves up ready q = not up && (ready || not (looks q))
farewell left up ready q = not up && (ready || not (looks q))
farewell _ up ready q = up

-- The server ends only when it was told to.
abbrev quits : ServerPlace → Bool → Bool
quits ended up = not up
quits _ up = true

abbrev pub is_fine : Control → Bool
is_fine c =
    owned_right c.owner (peer_holds c.peer) (server_holds c.server)
    && (heard c.peer c.ready c.server
        && (farewell c.peer c.up c.ready c.server && quits c.server c.up))

abbrev fine_after : Option Control → Bool
fine_after none = true
fine_after (some c) = is_fine c

abbrev kept_by : ControlEvent → Control → Bool
kept_by e c = not (is_fine c) || fine_after (control_step e c)

peer_stops-kept : every (kept_by (peer_goes true)) ≡ true
unfolding control_step peer_step
peer_stops-kept = refl

peer_goes-kept : every (kept_by (peer_goes false)) ≡ true
unfolding control_step peer_step
peer_goes-kept = refl

spurious-kept : every (kept_by spurious) ≡ true
unfolding control_step
spurious-kept = refl

server_due-kept : every (kept_by (server_goes true)) ≡ true
unfolding control_step server_step
server_due-kept = refl

server_goes-kept : every (kept_by (server_goes false)) ≡ true
unfolding control_step server_step
server_goes-kept = refl

event-kept : (e : ControlEvent) (c : Control) → kept_by e c ≡ true
event-kept (peer_goes true) c = every-all (kept_by (peer_goes true)) peer_stops-kept c
event-kept (peer_goes false) c = every-all (kept_by (peer_goes false)) peer_goes-kept c
event-kept spurious c = every-all (kept_by spurious) spurious-kept c
event-kept (server_goes true) c = every-all (kept_by (server_goes true)) server_due-kept c
event-kept (server_goes false) c = every-all (kept_by (server_goes false)) server_goes-kept c

pub modus_ponens : (a b : Bool) → (not a || b) ≡ true → a ≡ true → b ≡ true
modus_ponens a b h k = ground arith

pub control_step-IsFine :
    (e : ControlEvent) (c c' : Control)
    → is_fine c ≡ true
    → control_step e c ≡ some c'
    → is_fine c' ≡ true
control_step-IsFine e c c' fine h =
    ap fine_after (sym h) ∙ modus_ponens (is_fine c) _ (event-kept e c) fine

control_run-IsFine :
    (es : List ControlEvent) (c c' : Control)
    → is_fine c ≡ true
    → control_run es c ≡ some c'
    → is_fine c' ≡ true
unfolding control_run
control_run-IsFine [] c c' fine h = ap fine_after (sym h) ∙ fine
control_run-IsFine (e ∷ es) c c' fine h =
    let (m, a, b) = >>=-eq-some (control_step e c) (control_run es) h in
    control_run-IsFine es m c' (control_step-IsFine e c m fine a) b

pub reached-IsFine :
    (es : List ControlEvent) (c : Control) → control_run es new_control ≡ some c → is_fine c ≡ true
unfolding new_control
reached-IsFine es c h = control_run-IsFine es new_control c refl h
