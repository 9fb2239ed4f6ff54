-- ===== src/Peer/Scan/Ready.antt =====
-- Which vertices of the buffer the scan may keep.
use dag_blockchain.Prelude.{
  >>=-eq-some, All, All-append, Bool, Bool-cases, Bytes, List, Option, [], ap, bytes_eq, false,
  if◌then◌else◌, inl, inr, none, some, subst, sym, true, ℕ, ◌++◌, ◌∙◌, ◌∷◌, ◌≡◌,
}
use dag_blockchain.Prelude.Int.{leb_ℤ, pos, ℤ}
use dag_blockchain.Vertex.{Vertex, Crypto, hash}
use dag_blockchain.Network.Server.{is_first_round}
use dag_blockchain.Peer.History.{mutual_history, round_set}
use dag_blockchain.Peer.History.Refs.{IsKnown, mutual_history-false}
use dag_blockchain.Peer.Scan.{ScanState, help_creator, admit, add_hash, scan_vertex, scan_buffer}
use dag_blockchain.Peer.Scan.Growth.{in_dag, Grows, member}
use dag_blockchain.Peer.Scan.Closure.{refs-Grows, scan_vertex-IsStep, help_creator_same}

-- A peer in round `round` has reached the round of the vertex and, after the first round, has each
-- reference of it in the set of the round before.
abbrev pub IsReady : ℕ → List (List Bytes) → Vertex → Type 0
IsReady round dag v =
    (leb_ℤ v.round (pos round) ≡ true)
    × (is_first_round v.round ≡ false → All (λ ref. in_dag dag v.round 2 ref ≡ true) v.references)

refs-IsKnown :
    (dag : List (List Bytes)) (r : ℤ) (known refs : List Bytes)
    → round_set dag r 2 ≡ some known
    → All (λ ref. in_dag dag r 2 ref ≡ true) refs
    → All (IsKnown known) refs
refs-IsKnown dag r known [] e all = tt
refs-IsKnown dag r known (ref ∷ refs) e all =
    (sym (ap (member ref) e) ∙ all.0, refs-IsKnown dag r known refs e all.1)

kept_of : ScanState → Option ScanState → List Vertex
kept_of st none = st.kept
kept_of st (some st') = st'.kept

module _ (crypto : Crypto) (draw : ℕ → ℕ) (round : ℕ) (dag : List (List Bytes)) where
  abbrev AllWait : List Vertex → Type 0
  AllWait vs = All (λ v. ¬ IsReady round dag v) vs

  AllWait-keep :
      (v : Vertex) (vs : List Vertex) → ¬ IsReady round dag v → AllWait vs → AllWait (vs ++ v ∷ [])
  AllWait-keep v vs waits all = All-append (λ u. ¬ IsReady round dag u) vs (v ∷ []) all (waits, tt)

  kept-admit :
      (v : Vertex) (st st' : ScanState) → admit crypto draw v st ≡ some st' → st'.kept ≡ st.kept
  unfolding admit kept_of
  kept-admit v st st' h =
      let st₁ = help_creator draw v st in
      let (dag', e, r) =
        >>=-eq-some (add_hash v.round (hash crypto v) st₁.dag_image)
          (λ d. some (record st₁ { dag_image = d; added = st₁.added ++ v ∷ [] })) h in
      sym (ap (kept_of st) r) ∙ (help_creator_same crypto draw v st).1

  later_waits :
      (v : Vertex) (st st' : ScanState) (checked : Bool × List Bytes)
      → is_first_round v.round ≡ false
      → Grows dag st.dag_image
      → mutual_history v.round v.references st.dag_image ≡ some checked
      → (if checked.0
          then admit crypto draw v (record st { missing = checked.1 })
          else some (record st { missing = checked.1; kept = st.kept ++ v ∷ [] }))
        ≡ some st'
      → AllWait st.kept
      → AllWait st'.kept
  unfolding kept_of
  later_waits v st st' (true, m) later g e h all =
      subst AllWait (sym (kept-admit v (record st { missing = m }) st' h)) all
  later_waits v st st' (false, m) later g e h all =
      let (known, found, unknown) = mutual_history-false v.round v.references m st.dag_image e in
      subst AllWait (ap (kept_of st) h) (
        AllWait-keep v st.kept
          (λ ready. unknown (
            refs-IsKnown st.dag_image v.round known v.references found
              (refs-Grows crypto dag st.dag_image v.round v.references g (ready.1 later))))
          all)

  vertex_waits :
      (v : Vertex) (st st' : ScanState)
      → Grows dag st.dag_image
      → scan_vertex crypto draw round v st ≡ some st'
      → AllWait st.kept
      → AllWait st'.kept
  unfolding scan_vertex kept_of
  vertex_waits v st st' g h all = elim (Bool-cases (leb_ℤ v.round (pos round))) [
    | inl reached ↦ elim (Bool-cases (is_first_round v.round)) [
      | inl first ↦ subst AllWait (sym (kept-admit v st st' (rw (reached, first) at h))) all
      | inr later ↦
          let (checked, e, r) =
            >>=-eq-some (mutual_history v.round v.references st.dag_image) _
              (rw (reached, later) at h) in
          later_waits v st st' checked later g e r all
    ]
    | inr ahead ↦
        subst AllWait (ap (kept_of st) (rw ahead at h))
          (AllWait-keep v st.kept (λ ready. absurd (cc (ready.0, ahead))) all)
  ]

  -- A scan keeps no vertex that was ready when it started.
  pub scan_buffer-kept :
      (vs : List Vertex) (st st' : ScanState)
      → Grows dag st.dag_image
      → scan_buffer crypto draw round vs st ≡ some st'
      → All (λ v. ¬ IsReady round dag v) st.kept
      → All (λ v. ¬ IsReady round dag v) st'.kept
  unfolding scan_buffer kept_of
  scan_buffer-kept [] st st' g h all = subst AllWait (ap (kept_of st) h) all
  scan_buffer-kept (v ∷ vs) st st' g h all =
      let (m, s, r) =
        >>=-eq-some (scan_vertex crypto draw round v st) (scan_buffer crypto draw round vs) h in
      let step = scan_vertex-IsStep crypto draw round v st m s in
      scan_buffer-kept vs m st' (λ z back x i. step.grows z back x (g z back x i)) r
        (vertex_waits v st m g s all)
