-- ===== src/Peer/Scan.antt =====
-- The loop of buffer_scan_move_round over the buffer: which vertices enter the DAG.
pub mod Growth
pub mod Closure
pub mod Bounds
pub mod Ready
pub mod Added
use dag_blockchain.Prelude.{
  Bytes, List, Option, [], bytes_eq, get_elem?, if◌then◌else◌, leb, nat_eq, none, set, some, suc,
  zero, ℕ, ◌++◌, ◌+◌, ◌>>=◌, ◌∷◌,
}
use dag_blockchain.Prelude.Int.{leb_ℤ, negsuc, pos, ℤ}
use dag_blockchain.Containers.Set.{emplace}
use dag_blockchain.Vertex.{Vertex, Crypto, hash}
use dag_blockchain.Network.Server.{is_first_round}
use dag_blockchain.Peer.History.{mutual_history}

-- `missing` is the variable `set`, which lives through the whole thread. `kept` is the buffer as the
-- loop leaves it, `added` what went to the DAG, `helped` the calls of send_missing_vertices with the
-- peer, and `draws` how many random numbers were used. The socket that the code looks up for such a
-- call, and the entry that the look-up adds for an unknown peer, are left out.
pub record ScanState : Type 0 where
  pub dag_image : List (List Bytes)
  pub missing : List Bytes
  pub kept : List Vertex
  pub added : List Vertex
  pub helped : List (ℕ × List Bytes)
  pub draws : ℕ

-- A set that is not empty is sent to the creator of the vertex, if the draw is 60 or less of 100.
unfoldable pub help_creator : (ℕ → ℕ) → Vertex → ScanState → ScanState
help_creator draw v st = elim st.missing [
  | [] ↦ st
  | h ∷ hs ↦
      if leb (draw st.draws) 60
      then record st {
        helped = st.helped ++ (v.peer_id, h ∷ hs) ∷ [];
        missing = [];
        draws = st.draws + 1;
      }
      else record st { draws = st.draws + 1 }
]

-- dag_image[v_round - 1].emplace(hash)
unfoldable pub add_hash : ℤ → Bytes → List (List Bytes) → Option (List (List Bytes))
add_hash (pos zero) h dag = none
add_hash (pos (suc n)) h dag = do vertices ← get_elem? dag n; some (set dag n (emplace h vertices))
add_hash (negsuc n) h dag = none

module _ (crypto : Crypto) (draw : ℕ → ℕ) where
  unfoldable pub admit : Vertex → ScanState → Option ScanState
  unfolding help_creator add_hash
  admit v st =
      let st' = help_creator draw v st in
      do
        dag ← add_hash v.round (hash crypto v) st'.dag_image
        some (record st' { dag_image = dag; added = st'.added ++ v ∷ [] })

  -- One vertex of the buffer, for a peer in round `round`.
  unfoldable pub scan_vertex : ℕ → Vertex → ScanState → Option ScanState
  unfolding admit
  scan_vertex round v st =
      if leb_ℤ v.round (pos round)
      then if is_first_round v.round
        then admit v st
        else (mutual_history v.round v.references st.dag_image >>= λ checked.
            if checked.0
            then admit v (record st { missing = checked.1 })
            else some (record st { missing = checked.1; kept = st.kept ++ v ∷ [] }))
      else some (record st { kept = st.kept ++ v ∷ [] })

  unfoldable pub scan_buffer : ℕ → List Vertex → ScanState → Option ScanState
  unfolding scan_vertex
  scan_buffer round [] st = some st
  scan_buffer round (v ∷ vs) st = scan_vertex round v st >>= scan_buffer round vs
