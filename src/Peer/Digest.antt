-- ===== src/Peer/Digest.antt =====
-- hash_set and hash_dag of peer.cpp: the digest by which the processes compare their DAGs.
pub mod Sorting
use dag_blockchain.Prelude.{
  Bool, Bytes, List, Option, [], bytes_eq, concat, false, get_elem?, if◌then◌else◌, length, ltb,
  nat_eq, some, suc, true, zero, ℕ, ◌%◌, ◌&&◌, ◌*◌, ◌++◌, ◌+◌, ◌-◌, ◌==◌, ◌>>=◌, ◌^◌, ◌||◌, ◌∷◌,
}
use dag_blockchain.Vertex.{Crypto, hash_256}
use dag_blockchain.Peer.{wave}

-- operator< of std::string: byte by byte, and a prefix is less.
unfoldable pub bytes_leb : Bytes → Bytes → Bool
bytes_leb [] ys = true
bytes_leb (x ∷ xs) [] = false
bytes_leb (x ∷ xs) (y ∷ ys) = ltb x y || (x == y && bytes_leb xs ys)

-- std::sort. The result is the one sorted list of these strings, however the library finds it.
unfoldable pub insert_sorted : Bytes → List Bytes → List Bytes
unfolding bytes_leb
insert_sorted x [] = x ∷ []
insert_sorted x (y ∷ ys) = if bytes_leb x y then x ∷ y ∷ ys else y ∷ insert_sorted x ys

unfoldable pub sort : List Bytes → List Bytes
unfolding insert_sorted
sort [] = []
sort (x ∷ xs) = insert_sorted x (sort xs)

module _ (crypto : Crypto) where
  -- The digest of one round: its hashes, sorted and joined.
  unfoldable pub hash_set : ℕ → List (List Bytes) → Option Bytes
  hash_set index dag = do
    vertices ← get_elem? dag index
    some (hash_256 crypto (concat (sort vertices)))

  -- The loop of hash_dag over `count` rounds from `i`, onto the text `str`.
  unfoldable pub hash_rounds : ℕ → ℕ → Bytes → List (List Bytes) → Option Bytes
  unfolding hash_set
  hash_rounds zero i str dag = some str
  hash_rounds (suc count) i str dag = do
    output ← hash_set i dag
    hash_rounds count (i + 1) (str ++ output) dag

  -- The last 12 rounds are left out. `size() - 3 * WAVE` is a size_t, which wraps.
  unfoldable pub hash_dag : List (List Bytes) → Option Bytes
  unfolding hash_rounds
  hash_dag dag = do
    str ← hash_rounds ((length dag + 2 ^ 64 - 3 * wave) % 2 ^ 64) 0 [] dag
    some (hash_256 crypto str)
