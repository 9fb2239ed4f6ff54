-- ===== src/Peer/Serving.antt =====
-- What other peers do to a server, in the words of a list of happenings: as the bytes and the answers
-- of the system that Server::start sees, and as the events of Network/Server/Once.
pub mod Handled
pub mod Refines
use dag_blockchain.Prelude.{
  Bytes, List, [], false, length, map, nat_eq, none, some, true, ℕ, ◌++◌, ◌+◌, ◌<◌, ◌==◌, ◌^◌, ◌∷◌,
  ◌≡◌, ◌≤◌,
}
use dag_blockchain.Prelude.Int.{pos}
use dag_blockchain.Containers.Set.{erase}
use dag_blockchain.Vertex.{Crypto, Vertex}
use dag_blockchain.Network.Outcome.{max_stream_size}
use dag_blockchain.Network.Message.{hex_hash}
use dag_blockchain.Network.Message.Kinds.{request_bytes}
use dag_blockchain.Network.Receive.Framing.{packet}
use dag_blockchain.Network.Server.{Server, accept_vertices, answer_request}
use dag_blockchain.Network.Server.Once.{ServerEvent, readied, receives, requested, turned}
use dag_blockchain.Network.Server.Loop.{Ready, ServerTurn, readies}
use dag_blockchain.Peer.Missing.Batches.{frames}
use dag_blockchain.Peer.Missing.Received.{AreFrames}

-- A peer connects and gets a descriptor; closes its connection; asks for a vertex; or sends vertices,
-- of which there is one at least. The bytes at the end come later on the connection, and the number
-- before them says how many more than the head of the message have arrived.
pub data Happening : Type 0 where
  connects : ℕ → Happening
  closes : ℕ → Happening
  asks : ℕ → Bytes → ℕ → ℕ → Bytes → Happening
  brings : ℕ → Vertex → List Vertex → ℕ → Bytes → Happening

-- What epoll_wait reports and the system answers.
abbrev pub ready_of : ℕ → Happening → Ready
ready_of s_socket (connects new) = record {
  fd = s_socket;
  readable = true;
  accepted = pos new;
  ctl = pos 0;
  arrived = none;
  stream = [];
  fuel = 0;
}
ready_of s_socket (closes fd) = record {
  fd = fd;
  readable = true;
  accepted = pos 0;
  ctl = pos 0;
  arrived = some 0;
  stream = [];
  fuel = 0;
}
ready_of s_socket (asks fd hash id n later) = record {
  fd = fd;
  readable = true;
  accepted = pos 0;
  ctl = pos 0;
  arrived = some (73 + n);
  stream = request_bytes hash id ++ later;
  fuel = 0;
}
ready_of s_socket (brings fd v vs n later) = record {
  fd = fd;
  readable = true;
  accepted = pos 0;
  ctl = pos 0;
  arrived = some (4 + n);
  stream = packet (frames (v ∷ vs)) ++ later;
  fuel = 1;
}

-- A round of the loop, at whose end the other thread is ready.
abbrev pub turn_of : ℕ → List Happening → ServerTurn
turn_of s_socket hs = record {
  before = [];
  system = λ timeout. pos (length hs);
  events = map (ready_of s_socket) hs;
  waiting = readies ∷ [];
}

-- The same without bytes.
abbrev pub events_in : List Happening → List ServerEvent → List ServerEvent
events_in [] rest = rest
events_in (connects new ∷ hs) rest = events_in hs rest
events_in (closes fd ∷ hs) rest = events_in hs rest
events_in (asks fd hash id n later ∷ hs) rest = requested hash id ∷ events_in hs rest
events_in (brings fd v vs n later ∷ hs) rest = receives (v ∷ vs) ∷ events_in hs rest

abbrev pub events_of : List (List Happening) → List ServerEvent
events_of [] = []
events_of (hs ∷ script) = events_in hs (readied ∷ turned (length hs) ∷ events_of script)

-- The connections, and the variable bytes_to_recv, after a happening.
abbrev pub connections_by : Happening → List ℕ → List ℕ
connections_by (connects new) c = c ++ new ∷ []
connections_by (closes fd) c = erase fd c
connections_by _ c = c

abbrev pub bytes_by : Happening → ℕ → ℕ
bytes_by (brings fd v vs n later) b = length (packet (frames (v ∷ vs)))
bytes_by _ b = b

abbrev pub connections_after : List Happening → List ℕ → List ℕ
connections_after [] c = c
connections_after (h ∷ hs) c = connections_after hs (connections_by h c)

abbrev pub bytes_after : List Happening → ℕ → ℕ
bytes_after [] b = b
bytes_after (h ∷ hs) b = bytes_after hs (bytes_by h b)

-- A connection is not the listening socket; hashes and ids have their sizes; a packet fits the buffer,
-- and its vertices fit their words and have no delimiter pattern inside.
abbrev pub IsProper : ℕ → Happening → Type 0
IsProper s_socket (connects new) = Unit
IsProper s_socket (closes fd) = (fd == s_socket) ≡ false
IsProper s_socket (asks fd hash id n later) =
    ((fd == s_socket) ≡ false) × (length hash ≡ hex_hash) × (id < 2 ^ 64)
IsProper s_socket (brings fd v vs n later) =
    ((fd == s_socket) ≡ false)
    × AreFrames (v ∷ vs)
    × (length (packet (frames (v ∷ vs))) ≤ max_stream_size)

-- The state with these connections and this number.
abbrev pub within : List ℕ → ℕ → Server → Server
within c b s = record s { connections = c; bytes_to_recv = b }

module _ (crypto : Crypto) (crowd : ℕ) where
  abbrev pub happens : Happening → Server → Server
  happens (asks fd hash id n later) s = answer_request crypto crowd hash id s
  happens (brings fd v vs n later) s = accept_vertices crypto crowd (v ∷ vs) s
  happens _ s = s

  abbrev pub happen : List Happening → Server → Server
  happen [] s = s
  happen (h ∷ hs) s = happen hs (happens h s)
