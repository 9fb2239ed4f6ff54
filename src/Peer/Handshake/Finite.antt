-- ===== src/Peer/Handshake/Finite.antt =====
-- A test of all states of the two threads.
use dag_blockchain.Prelude.{Bool, arith, false, true, ◌&&◌, ◌≡◌}
use dag_blockchain.Peer.Handshake.{
  Holder, nobody, peer_has, server_has, PeerPlace, ServerPlace, Control, at_head, locked, readied,
  asleep, awake, scans, scanned, downed, leaves, left, tests, polls, spins, saw_ready, wants_lock,
  inserts, inserted, notifies, ended,
}

abbrev pub both : (Bool → Bool) → Bool
both f = f true && f false

abbrev pub every_holder : (Holder → Bool) → Bool
every_holder f = f nobody && (f peer_has && f server_has)

abbrev pub every_peer : (PeerPlace → Bool) → Bool
every_peer f =
    f at_head
    && (f locked
        && (f readied
            && (f asleep
                && (f awake && (f scans && (f scanned && (f downed && (f leaves && f left))))))))

abbrev pub every_server : (ServerPlace → Bool) → Bool
every_server f =
    f tests
    && (f polls
        && (f spins
            && (f saw_ready
                && (f wants_lock && (f inserts && (f inserted && (f notifies && f ended)))))))

pub and_left : (a b : Bool) → (a && b) ≡ true → a ≡ true
and_left a b h = ground arith

pub and_right : (a b : Bool) → (a && b) ≡ true → b ≡ true
and_right a b h = ground arith

both-all : (f : Bool → Bool) → both f ≡ true → (b : Bool) → f b ≡ true
both-all f h true = and_left _ _ h
both-all f h false = and_right _ _ h

holder-all : (f : Holder → Bool) → every_holder f ≡ true → (o : Holder) → f o ≡ true
holder-all f h nobody = and_left _ _ h
holder-all f h peer_has = and_left _ _ (and_right _ _ h)
holder-all f h server_has = and_right _ _ (and_right _ _ h)

peer-all : (f : PeerPlace → Bool) → every_peer f ≡ true → (p : PeerPlace) → f p ≡ true
peer-all f h at_head = ground (arith, h)
peer-all f h locked = ground (arith, h)
peer-all f h readied = ground (arith, h)
peer-all f h asleep = ground (arith, h)
peer-all f h awake = ground (arith, h)
peer-all f h scans = ground (arith, h)
peer-all f h scanned = ground (arith, h)
peer-all f h downed = ground (arith, h)
peer-all f h leaves = ground (arith, h)
peer-all f h left = ground (arith, h)

server-all : (f : ServerPlace → Bool) → every_server f ≡ true → (q : ServerPlace) → f q ≡ true
server-all f h tests = ground (arith, h)
server-all f h polls = ground (arith, h)
server-all f h spins = ground (arith, h)
server-all f h saw_ready = ground (arith, h)
server-all f h wants_lock = ground (arith, h)
server-all f h inserts = ground (arith, h)
server-all f h inserted = ground (arith, h)
server-all f h notifies = ground (arith, h)
server-all f h ended = ground (arith, h)

abbrev pub every : (Control → Bool) → Bool
every f = every_peer (λ p. every_server (λ q. every_holder (λ o.
    both (λ r. both (λ u. f (record { owner = o; ready = r; up = u; peer = p; server = q }))))))

-- What a test of all states says of one.
pub every-all : (f : Control → Bool) → every f ≡ true → (c : Control) → f c ≡ true
every-all f h c =
    let at_peer =
      peer-all
        (λ p. every_server (λ q. every_holder (λ o.
          both
            (λ r. both (λ u. f (record { owner = o; ready = r; up = u; peer = p; server = q }))))))
        h c.peer in
    let at_server =
      server-all
        (λ q. every_holder (λ o. both (λ r.
          both (λ u. f (record { owner = o; ready = r; up = u; peer = c.peer; server = q })))))
        at_peer c.server in
    let at_owner =
      holder-all
        (λ o. both (λ r.
          both
            (λ u. f (record { owner = o; ready = r; up = u; peer = c.peer; server = c.server }))))
        at_server c.owner in
    let at_ready =
      both-all
        (λ r. both (λ u.
          f (record { owner = c.owner; ready = r; up = u; peer = c.peer; server = c.server })))
        at_owner c.ready in
    both-all
      (λ u.
        f (record { owner = c.owner; ready = c.ready; up = u; peer = c.peer; server = c.server }))
      at_ready c.up
