-- ===== src/Peer/Turn/Refines.antt =====
-- The loop over the buffer of a turn, and the one of Peer/Scan that records its calls.
use dag_blockchain.Prelude.{
  >>=-eq-some, Bool, Bool-cases, Bytes, List, Option, [], ap, append-nil, append_assoc, arith,
  bytes_eq, false, if◌then◌else◌, inl, inr, leb, length, length-append, nat_eq, none, refl, some,
  subst, sym, true, ℕ, ◌++◌, ◌+◌, ◌∙◌, ◌∷◌, ◌≡◌,
}
use dag_blockchain.Prelude.Int.{leb_ℤ, pos}
use dag_blockchain.Peer.History.{mutual_history}
use dag_blockchain.Network.Server.{is_first_round}
use dag_blockchain.Vertex.{Vertex, Crypto, hash}
use dag_blockchain.Network.Outcome.{Outcome, returns, bind_assoc, bind_cong, ◌>>=◌, lift}
use dag_blockchain.Peer.{Peer}
use dag_blockchain.Peer.Scan.{ScanState, help_creator, admit, scan_vertex, scan_buffer, add_hash}
use dag_blockchain.Peer.Turn.{
  Turn, help_peer, help_turn, admit_turn, vertex_turn, vertices_turn, keep_turn,
}
use dag_blockchain.Peer.Turn.Frame.{framed, help_peer-framed}

module _ (crypto : Crypto) (draw : ℕ → ℕ) (unset : Vertex) (round : ℕ) (t : Turn) where
  -- The calls that the scan has recorded, in their order.
  abbrev pub help_all : List (ℕ × List Bytes) → Peer → Outcome Peer
  help_all [] p = returns p
  help_all (call ∷ calls) p = help_peer unset call.0 call.1 p >>= help_all calls

  -- The turn for a state of the scan, and a peer that has done the calls.
  abbrev pub as_turn : ScanState → Peer → Turn
  as_turn st p = record t {
    peer = framed round t.peer.last_round st.dag_image st.kept p;
    missing = st.missing;
    missing_vertices = t.missing_vertices + length st.helped;
    draws = st.draws;
  }

  help_all-append :
      (calls more : List (ℕ × List Bytes)) (p : Peer)
      → help_all (calls ++ more) p ≡ (help_all calls p >>= help_all more)
  help_all-append [] more p = refl
  help_all-append (call ∷ calls) more p =
      bind_cong (help_peer unset call.0 call.1 p) _ _ (help_all-append calls more)
      ∙ sym (bind_assoc (help_peer unset call.0 call.1 p) (help_all calls) (help_all more))

  -- A part of the loop, and the calls that it does.
  record Follows (run : Turn → Outcome Turn) (st st' : ScanState) : Type 0 where
    calls : List (ℕ × List Bytes)
    recorded : st'.helped ≡ st.helped ++ calls
    same : (p : Peer) → run (as_turn st p) ≡ (help_all calls p >>= λ q. returns (as_turn st' q))

  Follows-then :
      (run run' : Turn → Outcome Turn) (st m st' : ScanState)
      → Follows run st m
      → Follows run' m st'
      → Follows (λ u. run u >>= run') st st'
  Follows-then run run' st m st' a b = record {
    calls = a.calls ++ b.calls;
    recorded =
        b.recorded ∙ ap (λ c. c ++ b.calls) a.recorded ∙ append_assoc st.helped a.calls b.calls;
    same = λ p.
        ap (λ o. o >>= run') (a.same p)
        ∙ bind_assoc (help_all a.calls p) (λ q. returns (as_turn m q)) run'
        ∙ bind_cong (help_all a.calls p) _ _ b.same
        ∙ sym (bind_assoc (help_all a.calls p) (help_all b.calls) (λ q. returns (as_turn st' q)))
        ∙ ap (λ o. o >>= λ q. returns (as_turn st' q)) (sym (help_all-append a.calls b.calls p));
  }

  -- A part that goes on as another one does from another state.
  Follows-from :
      (run run' : Turn → Outcome Turn) (st m st' : ScanState)
      → m.helped ≡ st.helped
      → ((p : Peer) → run (as_turn st p) ≡ run' (as_turn m p))
      → Follows run' m st'
      → Follows run st st'
  Follows-from run run' st m st' e h a = record {
    calls = a.calls;
    recorded = a.recorded ∙ ap (λ c. c ++ a.calls) e;
    same = λ p. h p ∙ a.same p;
  }

  -- A part without a call.
  quiet-Follows :
      (run : Turn → Outcome Turn) (st st' : ScanState)
      → st'.helped ≡ st.helped
      → ((p : Peer) → run (as_turn st p) ≡ returns (as_turn st' p))
      → Follows run st st'
  quiet-Follows run st st' e h = record {
    calls = [];
    recorded = e ∙ sym (append-nil st.helped);
    same = h;
  }

  help-cases :
      (v : Vertex) (st : ScanState) (m : List Bytes)
      → Follows
          (help_turn crypto draw unset v)
          (record st { missing = m })
          (help_creator draw v (record st { missing = m }))
  unfolding help_turn help_creator
  help-cases v st [] = quiet-Follows _ _ _ refl (λ p. refl)
  help-cases v st (h ∷ hs) = elim (Bool-cases (leb (draw st.draws) 60)) [
    | inr waits ↦ quiet-Follows _ _ _ (rw waits refl) (λ p. rw waits refl)
    | inl helps ↦
        let st₀ : ScanState = record st { missing = h ∷ hs } in
        let n : t.missing_vertices + length st.helped + 1
            ≡ t.missing_vertices + length (st.helped ++ (v.peer_id, h ∷ hs) ∷ []) =
          omega (arith, length-append st.helped ((v.peer_id, h ∷ hs) ∷ [])) in
        let counted : ℕ → Peer → Turn = λ k q. record t {
          peer = framed round t.peer.last_round st.dag_image st.kept q;
          missing = [];
          missing_vertices = k;
          draws = st.draws + 1;
        } in
        let helped : Peer → Outcome Turn = λ q. returns (record t {
          peer = q;
          missing = [];
          missing_vertices = t.missing_vertices + length st.helped + 1;
          draws = st.draws + 1;
        }) in
        record {
          calls = (v.peer_id, h ∷ hs) ∷ [];
          recorded = rw helps refl;
          same = λ p. rw helps (
              ap (λ o. o >>= helped)
                (help_peer-framed round t.peer.last_round st.dag_image st.kept unset v.peer_id
                  (h ∷ hs) p)
              ∙ bind_assoc (help_peer unset v.peer_id (h ∷ hs) p) _ helped
              ∙ bind_cong (help_peer unset v.peer_id (h ∷ hs) p) _ _
                  (λ q. ap (λ k. returns (counted k q)) n)
              ∙ sym (
                  bind_assoc (help_peer unset v.peer_id (h ∷ hs) p) returns (λ q. returns (
                    counted (t.missing_vertices + length (st.helped ++ (v.peer_id, h ∷ hs) ∷ []))
                      q))));
        }
  ]

  help-Follows :
      (v : Vertex) (st : ScanState)
      → Follows (help_turn crypto draw unset v) st (help_creator draw v st)
  help-Follows v st = help-cases v st st.missing

  state_or : ScanState → Option ScanState → ScanState
  state_or st none = st
  state_or st (some st') = st'

  admit-Follows :
      (v : Vertex) (st st' : ScanState)
      → admit crypto draw v st ≡ some st'
      → Follows (admit_turn crypto draw unset v) st st'
  unfolding admit admit_turn state_or
  admit-Follows v st st' h =
      let st₁ = help_creator draw v st in
      let (dag, e, r) =
        >>=-eq-some (add_hash v.round (hash crypto v) st₁.dag_image)
          (λ dag. some (record st₁ { dag_image = dag; added = st₁.added ++ v ∷ [] })) h in
      let st₂ : ScanState = record st₁ { dag_image = dag; added = st₁.added ++ v ∷ [] } in
      subst (Follows (admit_turn crypto draw unset v) st) (ap (state_or st') r) (
        Follows-then _ _ st st₁ st₂ (help-Follows v st) (
          quiet-Follows _ st₁ st₂ refl (λ p.
            ap
              (λ o. lift o >>= λ d.
                returns
                  (record (as_turn st₁ p) { peer = framed round t.peer.last_round d st₁.kept p }))
              e)))

  keep-Follows :
      (v : Vertex) (st : ScanState)
      → Follows
          (λ u. returns (keep_turn crypto draw unset v u))
          st
          (record st { kept = st.kept ++ v ∷ [] })
  keep-Follows v st = quiet-Follows _ _ _ refl (λ p. refl)

  later-Follows :
      (v : Vertex) (st st' : ScanState) (checked : Bool × List Bytes)
      → (if checked.0
          then admit crypto draw v (record st { missing = checked.1 })
          else some (record st { missing = checked.1; kept = st.kept ++ v ∷ [] }))
        ≡ some st'
      → Follows
          (λ u.
            if checked.0
            then admit_turn crypto draw unset v (record u { missing = checked.1 })
            else returns (keep_turn crypto draw unset v (record u { missing = checked.1 })))
          st
          st'
  unfolding state_or
  later-Follows v st st' (true, m) h =
      Follows-from _ (admit_turn crypto draw unset v) st (record st { missing = m }) st' refl
        (λ p. refl) (admit-Follows v (record st { missing = m }) st' h)
  later-Follows v st st' (false, m) h =
      subst (Follows _ st) (ap (state_or st') h) (quiet-Follows _ _ _ refl (λ p. refl))

  vertex-Follows :
      (v : Vertex) (st st' : ScanState)
      → scan_vertex crypto draw round v st ≡ some st'
      → Follows (vertex_turn crypto draw unset v) st st'
  unfolding scan_vertex vertex_turn state_or
  vertex-Follows v st st' h = elim (Bool-cases (leb_ℤ v.round (pos round))) [
    | inl reached ↦ elim (Bool-cases (is_first_round v.round)) [
      | inl first ↦
          Follows-from _ (admit_turn crypto draw unset v) st st st' refl
            (λ p. rw (reached, first) refl) (admit-Follows v st st' (rw (reached, first) at h))
      | inr later ↦
          let (checked, e, r) =
            >>=-eq-some (mutual_history v.round v.references st.dag_image) _
              (rw (reached, later) at h) in
          Follows-from _ _ st st st' refl (λ p. rw (reached, later, e) refl)
            (later-Follows v st st' checked r)
    ]
    | inr ahead ↦
        subst (Follows _ st) (ap (state_or st') (rw ahead at h))
          (Follows-from _ _ st st _ refl (λ p. rw ahead refl) (keep-Follows v st))
  ]

  buffer-Follows :
      (vs : List Vertex) (st st' : ScanState)
      → scan_buffer crypto draw round vs st ≡ some st'
      → Follows (vertices_turn crypto draw unset vs) st st'
  unfolding scan_buffer vertices_turn state_or
  buffer-Follows [] st st' h =
      subst (Follows _ st) (ap (state_or st') h) (quiet-Follows _ st st refl (λ p. refl))
  buffer-Follows (v ∷ vs) st st' h =
      let (m, s, r) =
        >>=-eq-some (scan_vertex crypto draw round v st) (scan_buffer crypto draw round vs) h in
      Follows-then (vertex_turn crypto draw unset v) (vertices_turn crypto draw unset vs) st m st'
        (vertex-Follows v st m s) (buffer-Follows vs m st' r)

  -- Take a pass over the buffer that ends without an access outside of the DAG, where the pass that
  -- records its calls starts with none. The turn of the loop does the recorded calls in their
  -- order, and then has the DAG, the buffer, the set and the count of random numbers of that pass,
  -- and has counted its calls.
  pub vertices_turn-eq :
      (vs : List Vertex) (st st' : ScanState) (p : Peer)
      → st.helped ≡ []
      → scan_buffer crypto draw round vs st ≡ some st'
      → vertices_turn crypto draw unset vs (as_turn st p)
        ≡ (help_all st'.helped p >>= λ q. returns (as_turn st' q))
  vertices_turn-eq vs st st' p e h =
      let follows = buffer-Follows vs st st' h in
      let calls : follows.calls ≡ st'.helped =
        sym (follows.recorded ∙ ap (λ c. c ++ follows.calls) e) in
      follows.same p ∙ ap (λ c. help_all c p >>= λ q. returns (as_turn st' q)) calls
