-- ===== src/Peer/Handshake/Delivery.antt =====
-- The vertices and requests that go from the server thread to the thread of the peer.
use dag_blockchain.Prelude.{
  Bool, List, Option, [], leb, length, nat_eq, not, some, ℕ, ◌++◌, ◌==◌, ◌>>=◌, ◌||◌, ◌∷◌, ◌≡◌,
}
use dag_blockchain.Peer.Handshake.{
  PeerPlace, ServerPlace, Control, peer_goes, spurious, server_goes, scans, tests, polls, inserts,
  inserted, notifies, ended, control_step, new_control,
}

-- One list stands for two: `temp` for temp_list and temp_request_list, and `shared` for buffer and
-- requests. `seen` is what the peer has gone through: what it keeps in the buffer counts as well.
-- `received` is what the server has put into its lists, in the order of these.
pub record Handing {ℓ} (A : Type ℓ) : Type ℓ where
  pub control : Control
  pub temp : List A
  pub shared : List A
  pub seen : List A
  pub received : List A

-- A step of the server has what epoll_wait and the handlers give: new entries and the number of events.
pub data HandingEvent {ℓ} (A : Type ℓ) : Type ℓ where
  peer_turn : Bool → HandingEvent A
  wakes_up : HandingEvent A
  server_turn : List A → ℕ → HandingEvent A

module _ {ℓ} {A : Type ℓ} where
  -- The loops over the requests and the buffer.
  abbrev pub seen_by : PeerPlace → Handing A → Handing A
  seen_by scans s = record s { seen = s.seen ++ s.shared; shared = [] }
  seen_by _ s = s

  abbrev pub moved_by : ServerPlace → List A → Handing A → Handing A
  moved_by polls entries s = record s { temp = entries ++ s.temp; received = s.received ++ entries }
  moved_by inserts entries s = record s { shared = s.shared ++ s.temp }
  moved_by notifies entries s = record s { temp = [] }
  moved_by _ entries s = s

  -- Something is in the lists, or there was no event.
  abbrev pub is_due : List A → ℕ → Handing A → Bool
  is_due entries nfds s = not (leb (length (entries ++ s.temp)) 0) || nfds == 0

  unfoldable pub handing_step : HandingEvent A → Handing A → Option (Handing A)
  handing_step (peer_turn stop) s = do
    c ← control_step (peer_goes stop) s.control
    some (record (seen_by s.control.peer s) { control = c })
  handing_step wakes_up s = do c ← control_step spurious s.control; some (record s { control = c })
  handing_step (server_turn entries nfds) s = do
    c ← control_step (server_goes (is_due entries nfds s)) s.control
    some (record (moved_by s.control.server entries s) { control = c })

  unfoldable pub handing_run : List (HandingEvent A) → Handing A → Option (Handing A)
  unfolding handing_step
  handing_run [] s = some s
  handing_run (e ∷ es) s = handing_step e s >>= handing_run es

  unfoldable pub new_handing : Handing A
  new_handing = record { control = new_control; temp = []; shared = []; seen = []; received = [] }

  -- What is in the lists of the server and not yet in the shared ones.
  abbrev pub pending : ServerPlace → List A → List A
  pending inserted temp = []
  pending notifies temp = []
  pending _ temp = temp

  -- The lists of the server are empty when it has handed over.
  abbrev pub IsEmptyAt : ServerPlace → List A → Type ℓ
  IsEmptyAt tests temp = temp ≡ []
  IsEmptyAt polls temp = temp ≡ []
  IsEmptyAt ended temp = temp ≡ []
  IsEmptyAt _ temp = Unit

  abbrev pub AccountsAt : ServerPlace → Handing A → Type ℓ
  AccountsAt q s = (s.received ≡ s.seen ++ (s.shared ++ pending q s.temp)) × IsEmptyAt q s.temp

  abbrev pub IsAccounted : Handing A → Type ℓ
  IsAccounted s = AccountsAt s.control.server s
