-- ===== src/Network/Receive/Empty.antt =====
-- c_recvn of networking.cpp on a message whose length says that it is empty.
use dag_blockchain.Prelude.{
  Bytes, List, [], arith, length, le→not_ltb, refl, some, suc, zero, ℕ, ◌++◌, ◌≡◌,
}
use dag_blockchain.Vertex.{Vertex}
use dag_blockchain.Bytes.Words.{be32}
use dag_blockchain.Network.Outcome.{returns, unfinished}
use dag_blockchain.Network.Message.{examine_msg, reg_msg}
use dag_blockchain.Network.Message.Kinds.{examine_msg-packet}
use dag_blockchain.Network.Receive.{c_recvn, scan}

waits_on :
    (fuel : ℕ) (stream : Bytes) (start : ℕ) (vertices : List Vertex)
    → c_recvn fuel 0 stream start vertices ≡ unfinished
unfolding c_recvn scan
waits_on zero stream start vertices = refl
waits_on (suc fuel) stream start vertices =
    rw (le→not_ltb (length stream) 0 (omega arith)) (waits_on fuel stream start vertices)

-- A message whose length field says 0 is taken for vertices of length 0, and the call that receives
-- it is still in its loop after any number of rounds.
pub c_recvn_empty :
    (bytes fuel : ℕ) (rest : Bytes)
    → (examine_msg bytes (some (be32 0 ++ rest)) ≡ returns (reg_msg, 0))
      × (c_recvn fuel 0 (be32 0 ++ rest) 0 [] ≡ unfinished)
c_recvn_empty bytes fuel rest =
    (examine_msg-packet bytes 0 rest (omega arith), waits_on fuel (be32 0 ++ rest) 0 [])
