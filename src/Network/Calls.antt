-- ===== src/Network/Calls.antt =====
-- The calls of the system in the server: each ends the process if the system answers with an error,
-- which is a negative number.
use dag_blockchain.Prelude.{ℕ, ◌*◌}
use dag_blockchain.Prelude.Int.{negsuc, pos, ℤ}
use dag_blockchain.Network.Outcome.{Outcome, exits, returns}

-- accept() answers with the descriptor of a connection.
unfoldable pub c_accept : ℤ → Outcome ℕ
c_accept (pos fd) = returns fd
c_accept (negsuc n) = exits

-- epoll_create1()
unfoldable pub c_epoll_create : ℤ → Outcome ℕ
c_epoll_create (pos fd) = returns fd
c_epoll_create (negsuc n) = exits

-- epoll_ctl()
unfoldable pub c_epoll_ctl : ℤ → Outcome (Unit {0})
c_epoll_ctl (pos n) = returns tt
c_epoll_ctl (negsuc n) = exits

-- A positive timeout is turned from seconds into milliseconds.
abbrev pub milliseconds : ℤ → ℤ
milliseconds (pos seconds) = pos (seconds * 1000)
milliseconds (negsuc n) = negsuc n

abbrev pub event_count : ℤ → Outcome ℕ
event_count (pos nfds) = returns nfds
event_count (negsuc n) = exits

-- epoll_wait() is a function of the timeout.
unfoldable pub c_epoll_wait : (ℤ → ℤ) → ℤ → Outcome ℕ
c_epoll_wait system timeout = event_count (system (milliseconds timeout))
