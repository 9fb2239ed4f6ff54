-- ===== src/Peer/Turn/Settled.antt =====
-- What the loop over the buffer does to the peer of a turn.
use dag_blockchain.Prelude.{
  All, List, [], ap, append-nil, arith, length, refl, subst, sym, ℕ, ◌++◌, ◌+◌, ◌∙◌, ◌≡◌,
}
use mathlib.Core.List.{Perm}
use dag_blockchain.Vertex.{Vertex, Crypto}
use dag_blockchain.Network.Outcome.{returns, ◌>>=◌}
use dag_blockchain.Peer.Scan.{ScanState}
use dag_blockchain.Peer.Scan.Growth.{Grows}
use dag_blockchain.Peer.Scan.Closure.{IsSettled, scan_buffer_lem}
use dag_blockchain.Peer.Scan.Bounds.{InRange, scan_buffer_total}
use dag_blockchain.Peer.Scan.Ready.{IsReady, scan_buffer-kept}
use dag_blockchain.Peer.Scan.Added.{AddsOnly, IsDue, scan_buffer-IsOwed}
use dag_blockchain.Peer.Turn.{Turn, vertices_turn}
use dag_blockchain.Peer.Turn.Refines.{as_turn, help_all, vertices_turn-eq}

-- The state of the scan where the loop starts.
abbrev scan_start : Turn → ScanState
scan_start t = record {
  dag_image = t.peer.dag_image;
  missing = t.missing;
  kept = [];
  added = [];
  helped = [];
  draws = t.draws;
}

module _ (crypto : Crypto) (draw : ℕ → ℕ) (unset : Vertex) where
  scan_start-as_turn :
      (t : Turn)
      → t.peer.buffer ≡ []
      → as_turn crypto draw unset t.peer.round t (scan_start t) t.peer ≡ t
  scan_start-as_turn t empty =
      let n : t.missing_vertices + 0 ≡ t.missing_vertices = omega arith in rw (n, sym empty) refl

  -- The loop of a turn over the vertices `vs`, where the buffer has been emptied and every vertex
  -- that is not ahead of the peer is in a round of the DAG, makes no access outside of the DAG: it
  -- ends as the calls of send_missing_vertices for the creators of vertices do. If they return, the
  -- peer has the DAG and the buffer of `st`, and the calls are counted. No hash has left the DAG,
  -- no round was opened or closed, and a hash that is new there is that of a vertex that was added,
  -- in its round. Every vertex that was added has its hash and, after the first round, its
  -- references there. Each vertex of `vs` was either added or put back into the buffer, once, and
  -- no vertex was put back whose round was reached and whose references were all there at the
  -- start. Each call is for the creator of a vertex that was added, with a set that is not empty.
  pub vertices_turn_lem :
      (vs : List Vertex) (t : Turn)
      → t.peer.buffer ≡ []
      → All (InRange t.peer.round t.peer.dag_image) vs
      → (st : ScanState) × (vertices_turn crypto draw unset vs t ≡ (
          help_all crypto draw unset t.peer.round t st.helped t.peer >>= λ q.
          returns (as_turn crypto draw unset t.peer.round t st q)))
        × Grows t.peer.dag_image st.dag_image
        × (length st.dag_image ≡ length t.peer.dag_image)
        × All (IsSettled crypto st.dag_image) st.added
        × Perm (st.kept ++ st.added) vs
        × All (λ v. ¬ IsReady t.peer.round t.peer.dag_image v) st.kept
        × AddsOnly crypto t.peer.dag_image st.added st.dag_image
        × All (IsDue st.added) st.helped
  vertices_turn_lem vs t empty range =
      let start = scan_start t in
      let round = t.peer.round in
      let (st, run) = scan_buffer_total crypto draw round vs start range in
      let (grows, rounds, settled, counted) =
        scan_buffer_lem crypto draw round vs start st run tt in
      let dag = t.peer.dag_image in
      let owed =
        scan_buffer-IsOwed crypto draw round dag vs start st run
          (record { fresh = λ r g inside new. absurd (cc (inside, new)); due = tt }) in
      (
        st,
        ap (vertices_turn crypto draw unset vs) (sym (scan_start-as_turn t empty))
            ∙ vertices_turn-eq crypto draw unset round t vs start st t.peer refl run,
        grows,
        rounds,
        settled,
        subst (Perm (st.kept ++ st.added)) (append-nil vs) counted,
        scan_buffer-kept crypto draw round dag vs start st (λ r back h m. m) run tt,
        owed.fresh,
        owed.due,
      )
