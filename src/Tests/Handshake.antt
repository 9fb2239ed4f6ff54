-- ===== src/Tests/Handshake.antt =====
-- The theorems about the hand-over between the threads at concrete inputs.
use dag_blockchain.Prelude.{
  List, [], arith, false, refl, replicate, some, true, ℕ, ◌&&◌, ◌++◌, ◌∷◌, ◌≡◌, ◌≤◌,
}
use dag_blockchain.Peer.Handshake.{
  Control, ControlEvent, nobody, peer_goes, server_goes, asleep, awake, left, tests, ended,
  control_run, control_step, new_control, peer_step, server_step, spurious, server_has, inserts,
  peer_has, scanned,
}
use dag_blockchain.Peer.Handshake.Threads.{
  handshake_exclusion, sleeper_wakes, server_ends, serve_alone,
}
use dag_blockchain.Peer.Handshake.Fine.{peer_holds, server_holds}
use dag_blockchain.Peer.Handshake.Delivery.{
  Handing, HandingEvent, peer_turn, server_turn, handing_run, handing_step, new_handing, pending,
}
use dag_blockchain.Peer.Handshake.Accounts.{delivered}

-- The peer falls asleep.
abbrev to_sleep : List ControlEvent
to_sleep = replicate 3 (peer_goes false)

abbrev sleeping : Control
sleeping = record { owner = nobody; ready = true; up = true; peer = asleep; server = tests }

sleeping_run : control_run to_sleep new_control ≡ some sleeping
unfolding control_run control_step peer_step new_control
sleeping_run = refl

-- The server hands over while the peer wakes up by itself.
abbrev to_insert : List ControlEvent
to_insert = to_sleep ++ (replicate 5 (server_goes true) ++ spurious ∷ [])

abbrev inserting : Control
inserting = record { owner = server_has; ready = false; up = true; peer = awake; server = inserts }

inserting_run : control_run to_insert new_control ≡ some inserting
unfolding control_run control_step peer_step server_step new_control
inserting_run = refl

handshake_exclusion_example : (peer_holds awake && server_holds inserts) ≡ false
handshake_exclusion_example = handshake_exclusion to_insert inserting inserting_run

sleeper_wakes_example :
    (k : ℕ) × (c' : Control) × (k ≤ 8)
    × (control_run (replicate k (server_goes true)) sleeping ≡ some c')
    × (c'.peer ≡ awake)
sleeper_wakes_example = sleeper_wakes to_sleep sleeping sleeping_run refl

-- The peer is woken up by the server, stops and leaves.
abbrev to_leave : List ControlEvent
to_leave =
    to_sleep
    ++ (replicate 8 (server_goes true)
        ++ (replicate 2 (peer_goes false) ++ replicate 3 (peer_goes true)))

abbrev leaving : Control
leaving = record { owner = nobody; ready = true; up = false; peer = left; server = tests }

leaving_run : control_run to_leave new_control ≡ some leaving
unfolding control_run control_step peer_step server_step new_control
leaving_run = refl

server_ends_example : (serve_alone (replicate 8 true) leaving).server ≡ ended
server_ends_example = server_ends to_leave leaving (replicate 8 true) leaving_run refl (omega arith)

-- Two entries are handed over, and the peer scans them.
abbrev two_handed : List (HandingEvent ℕ)
two_handed =
    replicate 3 (peer_turn false)
    ++ (server_turn [] 0
        ∷ (server_turn (5 ∷ 6 ∷ []) 1
            ∷ (replicate 6 (server_turn [] 0) ++ replicate 2 (peer_turn false))))

abbrev two_seen : Handing ℕ
two_seen = record {
  control = record { owner = peer_has; ready = false; up = true; peer = scanned; server = tests };
  temp = [];
  shared = [];
  seen = 5 ∷ 6 ∷ [];
  received = 5 ∷ 6 ∷ [];
}

two_seen_run : handing_run two_handed new_handing ≡ some two_seen
unfolding handing_run handing_step control_step peer_step server_step new_handing new_control
two_seen_run = refl

delivered_example :
    (two_seen.received ≡ two_seen.seen ++ (two_seen.shared ++ pending tests two_seen.temp))
    × (tests ≡ ended → two_seen.received ≡ two_seen.seen ++ two_seen.shared)
delivered_example = delivered two_handed two_seen two_seen_run
