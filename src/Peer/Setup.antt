-- ===== src/Peer/Setup.antt =====
-- setup_network of peer.cpp: the other peers of the file, and the connections to their servers.
pub mod Connected
use dag_blockchain.Prelude.{
  Bool, Bytes, List, Option, [], false, if◌then◌else◌, nat_eq, none, some, ℕ, ◌++◌, ◌+◌, ◌==◌, ◌∷◌,
}
use dag_blockchain.Prelude.Int.{negsuc, pos, ℤ}
use dag_blockchain.Network.Outcome.{Outcome, returns, exits, undefined, ◌>>=◌}
use dag_blockchain.Network.Client.Connect.{Contact, connect_to}
use dag_blockchain.Peer.{Peer}

-- What `stream >> ip_address >> port` reads from a line: both; an address with no number behind it,
-- which makes the port 0; or nothing, which leaves both variables as they are.
pub data Line : Type 0 where
  both : Bytes → ℤ → Line
  address_only : Bytes → Line
  blank : Line

-- The variables `ip_address` and `port` after a line. `none`: the port has no value yet.
unfoldable pub read_line : Line → Bytes × Option ℤ → Bytes × Option ℤ
read_line (both address port) before = (address, some port)
read_line (address_only address) before = (address, some (pos 0))
read_line blank before = before

-- getport() == port
abbrev pub is_own : ℕ → ℤ → Bool
is_own own (pos port) = own == port
is_own own (negsuc n) = false

-- The loop over the lines. A port that has no value is looked at, which is undefined.
unfoldable pub read_peers :
    ℕ → List Line → Bytes × Option ℤ → List (Bytes × ℤ) → Outcome (List (Bytes × ℤ))
unfolding read_line
read_peers own [] before known_peers = returns known_peers
read_peers own (line ∷ lines) before known_peers =
    let (address, read) = read_line line before in
    elim read [
      | none ↦ undefined
      | some port ↦
          let added = known_peers ++ (address, port) ∷ [] in
          read_peers own lines (address, some port) (if is_own own port then known_peers else added)
    ]

-- The system's answers for the servers, from the connection with number `i` on.
unfoldable pub reached : (ℕ → Bytes → ℤ → Contact) → ℕ → List (Bytes × ℤ) → List Contact
reached world i [] = []
reached world i (server ∷ servers) = world i server.0 server.1 ∷ reached world (i + 1) servers

-- `file` is `none` if it cannot be opened; `own` is the port of the server of this peer.
unfoldable pub setup_network :
    (ℕ → Bytes → ℤ → Contact) → ℕ → Option (List Line) → Peer → Outcome Peer
unfolding read_peers reached
setup_network world own none p = exits
setup_network world own (some lines) p = read_peers own lines ([], none) [] >>= λ known_peers.
    connect_to (reached world 0 known_peers) p.client >>= λ client.
    returns (record p { client = client })
