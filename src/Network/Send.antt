-- ===== src/Network/Send.antt =====
-- c_sendn of networking.cpp. The random draw and the answers of the operating system are arguments.
pub mod Delivery
use dag_blockchain.Prelude.{
  Bytes, List, Option, [], drop, if◌then◌else◌, leb, length, ltb, nat_eq, none, some, take, ℕ, ◌%◌,
  ◌++◌, ◌+◌, ◌-◌, ◌==◌, ◌^◌, ◌∷◌,
}
use dag_blockchain.Network.Outcome.{Outcome, returns, unfinished}

-- `send` returns how many bytes it took, or -1.
abbrev pub Answer : Type 0
Answer = Option ℕ

-- The value in `bytes_sent`, a size_t. It is never below 0, so the first test of the code never holds.
abbrev pub as_size : Answer → ℕ
as_size none = 2 ^ 64 - 1
as_size (some n) = n

abbrev pub taken : Answer → ℕ
taken none = 0
taken (some n) = n

-- `bytes_left` after one round: an error leaves nothing to send if something seems left.
abbrev pub left_after : Answer → ℕ → ℕ
left_after answer bytes_left =
    let left = (bytes_left + 2 ^ 64 - as_size answer) % 2 ^ 64 in
    if ltb 0 left then (if as_size answer == 2 ^ 64 - 1 then 0 else left) else left

-- The `while` loop: what the connection has got is the last argument.
pub send_loop : List Answer → Bytes → ℕ → ℕ → Bytes → Outcome Bytes
send_loop [] buf off bytes_left got = if ltb 0 bytes_left then unfinished else returns got
send_loop (answer ∷ answers) buf off bytes_left got =
    let rest =
      send_loop answers buf ((off + as_size answer) % 2 ^ 64) (left_after answer bytes_left)
        (got ++ take (taken answer) (drop off buf)) in
    if ltb 0 bytes_left then rest else returns got

-- A draw of 1 to 4 out of 100 destroys the message.
unfoldable pub c_sendn : ℕ → List Answer → Bytes → Outcome Bytes
unfolding send_loop
c_sendn probability answers buf =
    if leb probability 4 then returns [] else send_loop answers buf 0 (length buf) []
