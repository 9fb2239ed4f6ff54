-- ===== src/Main.antt =====
-- main.cpp: how the parent process collects the digests of its children and compares them.
pub mod Collect
pub mod Agreement
pub mod Children
pub mod Statuses
use dag_blockchain.Prelude.{
  Bool, Bytes, List, Option, [], bytes_eq, drop, false, get_elem?, length, nat_eq, none, replicate,
  some, suc, take, true, zero, ℕ, ◌%◌, ◌++◌, ◌+◌, ◌-◌, ◌==◌, ◌>>=◌, ◌^◌, ◌∷◌,
}
use dag_blockchain.Network.Outcome.{max_stream_size}
use dag_blockchain.Network.Message.{hex_hash}

-- read(fd[0], buffer, HEX_HASH): as many bytes of the pipe as there are, over the front of the buffer.
-- `pipe` is all that the children write until they end.
unfoldable pub read_pipe : Bytes → Bytes → Bytes × Bytes
read_pipe buffer pipe =
    (take hex_hash pipe ++ drop (length (take hex_hash pipe)) buffer, drop hex_hash pipe)

-- The string up to the first zero byte. `none`: there is none in the buffer.
unfoldable pub c_string : Bytes → Option Bytes
c_string [] = none
c_string (b ∷ bs) = elim (b == 0) [ true ↦ some [] | false ↦ c_string bs >>= λ s. some (b ∷ s) ]

-- One turn for each child that has ended.
unfoldable pub collect : ℕ → Bytes → Bytes → Option (List Bytes)
unfolding read_pipe c_string
collect zero buffer pipe = some []
collect (suc counter) buffer pipe =
    let (buffer', pipe') = read_pipe buffer pipe in
    c_string buffer' >>= λ s. collect counter buffer' pipe' >>= λ dags. some (s ∷ dags)

-- The loop from number `i`, for `count` turns: it ends at the first difference.
unfoldable pub compare : ℕ → ℕ → List Bytes → Option Bool
compare zero i dags = some true
compare (suc count) i dags = elim (get_elem? dags i) [
  | none ↦ none
  | some a ↦ elim (get_elem? dags (i + 1)) [
    | none ↦ none
    | some b ↦ elim (a == b) [ true ↦ compare count (i + 1) dags | false ↦ some false ]
  ]
]

-- The bound is size() - 1, which wraps for an empty vector.
unfoldable pub all_equal : List Bytes → Option Bool
unfolding compare
all_equal dags = compare ((length dags + (2 ^ 64 - 1)) % 2 ^ 64) 0 dags

-- What the parent prints at the end, for a number of children and what they wrote.
unfoldable pub verdict : ℕ → Bytes → Option Bool
unfolding collect all_equal
verdict num_peers pipe = collect num_peers (replicate max_stream_size 0) pipe >>= all_equal
