-- ===== src/Peer/Handshake.antt =====
-- How the thread of Server::start and that of buffer_scan_move_round take turns: the flag
-- scan_buffer_thread_ready, is_up, the mutex and the condition variable, one step at a time.
pub mod Finite
pub mod Fine
pub mod Threads
pub mod Delivery
pub mod Accounts
use dag_blockchain.Prelude.{
  Bool, List, Option, [], false, if◌then◌else◌, nat_eq, none, some, true, ◌>>=◌, ◌∷◌,
}

pub data Holder : Type 0 where
  nobody : Holder
  peer_has : Holder
  server_has : Holder

-- Where the thread of the peer is: at the head of the loop, behind lock, behind set_thread_ready,
-- asleep in wait, awake in wait but without the mutex, behind wait, behind the loops over the
-- requests and the buffer, behind is_up = false, behind set_thread_ready(true), and behind unlock.
pub data PeerPlace : Type 0 where
  at_head : PeerPlace
  locked : PeerPlace
  readied : PeerPlace
  asleep : PeerPlace
  awake : PeerPlace
  scans : PeerPlace
  scanned : PeerPlace
  downed : PeerPlace
  leaves : PeerPlace
  left : PeerPlace

-- Where the thread of the server is: at the test of is_up, at epoll_wait, in the loop that waits for
-- the flag, behind it, before lock, behind lock, behind the two calls of insert, behind unlock, and
-- behind the loop.
pub data ServerPlace : Type 0 where
  tests : ServerPlace
  polls : ServerPlace
  spins : ServerPlace
  saw_ready : ServerPlace
  wants_lock : ServerPlace
  inserts : ServerPlace
  inserted : ServerPlace
  notifies : ServerPlace
  ended : ServerPlace

pub record Control : Type 0 where
  pub owner : Holder
  pub ready : Bool
  pub up : Bool
  pub peer : PeerPlace
  pub server : ServerPlace

-- A step of the peer, which knows whether it is to stop; a wake-up without a notify; a step of the
-- server, which knows whether it has something to hand over or has had no event.
pub data ControlEvent : Type 0 where
  peer_goes : Bool → ControlEvent
  spurious : ControlEvent
  server_goes : Bool → ControlEvent

-- lock(): `none` while the mutex is taken.
abbrev pub when_free : Holder → Control → Option Control
when_free nobody c = some c
when_free peer_has c = none
when_free server_has c = none

unfoldable pub peer_step : Bool → PeerPlace → Control → Option Control
peer_step stop at_head c = when_free c.owner (record c { owner = peer_has; peer = locked })
peer_step stop locked c = some (record c { ready = true; peer = readied })
peer_step stop readied c = some (record c { owner = nobody; peer = asleep })
peer_step stop asleep c = none
peer_step stop awake c = when_free c.owner (record c { owner = peer_has; peer = scans })
peer_step stop scans c = some (record c { peer = scanned })
peer_step stop scanned c =
    if stop
    then some (record c { up = false; peer = downed })
    else some (record c { owner = nobody; peer = at_head })
peer_step stop downed c = some (record c { ready = true; peer = leaves })
peer_step stop leaves c = some (record c { owner = nobody; peer = left })
peer_step stop left c = none

-- notify_one
abbrev pub notified : PeerPlace → PeerPlace
notified asleep = awake
notified place = place

unfoldable pub server_step : Bool → ServerPlace → Control → Option Control
server_step due tests c = some (record c { server = if c.up then polls else ended })
server_step due polls c = some (record c { server = if due then spins else tests })
server_step due spins c = some (record c { server = if c.ready then saw_ready else spins })
server_step due saw_ready c = some (record c { ready = false; server = wants_lock })
server_step due wants_lock c = when_free c.owner (record c { owner = server_has; server = inserts })
server_step due inserts c = some (record c { server = inserted })
server_step due inserted c = some (record c { owner = nobody; server = notifies })
server_step due notifies c = some (record c { peer = notified c.peer; server = tests })
server_step due ended c = none

abbrev pub wake_up : PeerPlace → Control → Option Control
wake_up asleep c = some (record c { peer = awake })
wake_up _ c = none

unfoldable pub control_step : ControlEvent → Control → Option Control
unfolding peer_step server_step
control_step (peer_goes stop) c = peer_step stop c.peer c
control_step spurious c = wake_up c.peer c
control_step (server_goes due) c = server_step due c.server c

unfoldable pub control_run : List ControlEvent → Control → Option Control
unfolding control_step
control_run [] c = some c
control_run (e ∷ es) c = control_step e c >>= control_run es

-- Both threads are at the heads of their loops.
unfoldable pub new_control : Control
new_control = record { owner = nobody; ready = false; up = true; peer = at_head; server = tests }
