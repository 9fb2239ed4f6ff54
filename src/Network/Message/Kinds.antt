-- ===== src/Network/Message/Kinds.antt =====
-- The two kinds of message that examine_msg and process_request of networking.cpp read.
use dag_blockchain.Prelude.{
  Bytes, append_assoc, arith, drop-length, length, length-append, refl, replicate, some, suc, sym,
  take-length, ℕ, ◌*◌, ◌++◌, ◌-◌, ◌<◌, ◌^◌, ◌∷◌, ◌≡◌,
}
use dag_blockchain.Bytes.Words.{be32, be64, from_be, length-be64, from_be-be64}
use dag_blockchain.Network.Outcome.{returns, max_stream_size}
use dag_blockchain.Network.Message.{
  req_msg, reg_msg, examine_msg, process_request, prefix, hex_hash,
}

-- A message that starts with its length, if that is below 63 * 2 ^ 24, is taken for vertices, and
-- the length is read back, whatever length was read before.
pub examine_msg-packet :
    (bytes len : ℕ) (rest : Bytes)
    → len < 63 * 2 ^ 24
    → examine_msg bytes (some (be32 len ++ rest)) ≡ returns (reg_msg, len)
unfolding examine_msg be32 from_be
examine_msg-packet bytes len rest h = ground arith

-- A request holds the prefix, the hash and the id of the peer that asks.
abbrev pub request_bytes : Bytes → ℕ → Bytes
request_bytes hash peer_id = prefix ∷ (hash ++ be64 peer_id)

pub examine_msg-request :
    (bytes peer_id : ℕ) (hash rest : Bytes)
    → examine_msg bytes (some (request_bytes hash peer_id ++ rest)) ≡ returns (req_msg, bytes)
unfolding examine_msg
examine_msg-request bytes peer_id hash rest = refl

-- A request made of the prefix, a hash of 64 bytes and an id below 2 ^ 64 gives this hash and this
-- id, and leaves what follows it on the connection.
pub process_request-bytes :
    (hash rest : Bytes) (peer_id : ℕ)
    → length hash ≡ hex_hash
    → peer_id < 2 ^ 64
    → process_request (some (request_bytes hash peer_id ++ rest)) ≡ returns (hash, peer_id, rest)
unfolding process_request
process_request-bytes hash rest peer_id h small =
    let n : length (hash ++ be64 peer_id) ≡ 72 =
      omega (arith, h, length-append hash (be64 peer_id), length-be64 peer_id) in
    let zeros : Bytes = replicate (max_stream_size - suc (length (hash ++ be64 peer_id))) 0 in
    rw
      (
        take-length (hash ++ be64 peer_id) rest 72 (sym n),
        drop-length (hash ++ be64 peer_id) rest 72 (sym n),
        append_assoc hash (be64 peer_id) zeros,
        take-length hash (be64 peer_id ++ zeros) 64 (sym h),
        drop-length hash (be64 peer_id ++ zeros) 64 (sym h),
        take-length (be64 peer_id) zeros 8 (sym (length-be64 peer_id)),
        from_be-be64 peer_id small,
      )
      refl
