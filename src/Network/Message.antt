-- ===== src/Network/Message.antt =====
-- attach_length_to_msg, examine_msg, process_request and dynamic_copy of networking.cpp.
pub mod Kinds
use dag_blockchain.Prelude.{
  Bytes, Option, [], drop, if◌then◌else◌, length, nat_eq, none, replicate, some, take, ℕ, ◌%◌, ◌++◌,
  ◌+◌, ◌-◌, ◌==◌, ◌^◌, ◌∷◌,
}
use dag_blockchain.Bytes.Words.{be32, from_be}
use dag_blockchain.Bytes.Buffer.{memcpy, read}
use dag_blockchain.Network.Outcome.{Outcome, returns, exits, undefined, max_stream_size}

-- PREFIX and HEX_HASH of vertex.h.
abbrev pub prefix : ℕ
prefix = b'?'

abbrev pub hex_hash : ℕ
hex_hash = 64

-- REQ_MSG, REG_MSG and FIN_MSG of networking.h.
pub data MsgType : Type 0 where
  req_msg reg_msg fin_msg : MsgType

-- The length is written before the test that ends the process.
unfoldable pub attach_length_to_msg : Bytes → ℕ → Outcome Bytes
attach_length_to_msg buffer msg_len = elim (memcpy buffer 0 (be32 msg_len)) [
  | none ↦ undefined
  | some buffer' ↦ if msg_len % 2 ^ 32 == 0 then exits else returns buffer'
]

-- The first `len` bytes of the buffer, in memory of their own.
unfoldable pub dynamic_copy : Bytes → ℕ → Option Bytes
dynamic_copy buffer len = read buffer 0 len

-- What `recv` with MSG_PEEK finds: `none` for an error, and else the bytes that have arrived. The
-- second result is `ntohl(*bytes)`, which only a vertex message sets.
unfoldable pub examine_msg : ℕ → Option Bytes → Outcome (MsgType × ℕ)
examine_msg bytes none = exits
examine_msg bytes (some []) = returns (fin_msg, bytes)
examine_msg bytes (some (b ∷ bs)) =
    if b == prefix
    then returns (req_msg, bytes)
    else returns (reg_msg, from_be (take 4 ((b ∷ bs) ++ replicate max_stream_size 0)))

-- The hash and the peer of a request, and what follows it on the connection. The code does not look
-- at how many bytes it got: those that are missing are the zeros of the cleared buffer.
unfoldable pub process_request : Option Bytes → Outcome (Bytes × ℕ × Bytes)
process_request none = exits
process_request (some stream) =
    let length_of_request = 8 + hex_hash + 1 in
    let got = take length_of_request stream in
    let buffer = got ++ replicate (max_stream_size - length got) 0 in
    returns (
      take hex_hash (drop 1 buffer),
      from_be (take 8 (drop (hex_hash + 1) buffer)),
      drop length_of_request stream,
    )
