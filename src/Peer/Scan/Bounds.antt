-- ===== src/Peer/Scan/Bounds.antt =====
-- The accesses of the scan to the DAG, and its bounds.
use dag_blockchain.Prelude.{
  All, Bool, Bool-cases, Bytes, List, [], ap, arith, bytes_eq, false, if◌then◌else◌, inl, inr,
  length, le→leb, lt-get_elem?, none, refl, set, some, suc, true, zero, ℕ, ◌++◌, ◌-◌, ◌>>=◌, ◌∙◌,
  ◌∷◌, ◌≡◌, ◌≤◌,
}
use dag_blockchain.Prelude.Int.{leb_ℤ, negsuc, pos, pos_part, ℤ}
use dag_blockchain.Peer.Scan.Closure.{scan_vertex-IsStep, help_creator_same}
use dag_blockchain.Containers.Set.{emplace}
use dag_blockchain.Network.Server.{is_first_round}
use dag_blockchain.Vertex.{Vertex, Crypto, hash}
use dag_blockchain.Peer.History.{mutual_history, round_set, check_refs}
use dag_blockchain.Peer.Scan.{ScanState, scan_vertex, add_hash, admit, scan_buffer, help_creator}

below_first :
    (r : ℤ) (round : ℕ) (dag : List (List Bytes))
    → pos_part r ≡ 0
    → (leb_ℤ r (pos round) ≡ true) × (is_first_round r ≡ false) × (round_set dag r 2 ≡ none)
unfolding round_set
below_first (pos zero) round dag h = (ground arith, refl, refl)
below_first (pos (suc n)) round dag h = absurd (omega arith)
below_first (negsuc n) round dag h = (ground arith, refl, refl)

-- A vertex that the peer has reached is in a round from 1 to the last of the DAG.
abbrev pub InRange : ℕ → List (List Bytes) → Vertex → Type 0
InRange round dag v =
    leb_ℤ v.round (pos round) ≡ true → (1 ≤ pos_part v.round) × (pos_part v.round ≤ length dag)

round_set-inside :
    (dag : List (List Bytes)) (r : ℤ) (back : ℕ)
    → 1 ≤ back
    → back ≤ pos_part r
    → pos_part r ≤ length dag
    → (s : List Bytes) × (round_set dag r back ≡ some s)
unfolding round_set
round_set-inside dag (pos n) back b h k =
    let (s, e) = lt-get_elem? dag (n - back) (omega arith) in (s, rw (le→leb back n h) e)
round_set-inside dag (negsuc n) back b h k = absurd (omega arith)

add_hash-inside :
    (r : ℤ) (h : Bytes) (dag : List (List Bytes))
    → 1 ≤ pos_part r
    → pos_part r ≤ length dag
    → (dag' : List (List Bytes)) × (add_hash r h dag ≡ some dag')
unfolding add_hash
add_hash-inside (pos zero) h dag a b = absurd (omega arith)
add_hash-inside (pos (suc n)) h dag a b =
    let (s, e) = lt-get_elem? dag n (omega arith) in
    (set dag n (emplace h s), ap (λ o. o >>= λ t. some (set dag n (emplace h t))) e)
add_hash-inside (negsuc n) h dag a b = absurd (omega arith)

module _ (crypto : Crypto) (draw : ℕ → ℕ) where
  -- A vertex in the buffer whose round is 0 or below makes the pass access the DAG outside of its
  -- bounds, whatever the rest of the vertex and of the state.
  pub scan_vertex_undefined :
      (round : ℕ) (v : Vertex) (st : ScanState)
      → pos_part v.round ≡ 0
      → scan_vertex crypto draw round v st ≡ none
  unfolding scan_vertex mutual_history
  scan_vertex_undefined round v st h =
      let (reached, later, outside) = below_first v.round round st.dag_image h in
      rw (reached, later, outside) refl

  admit_total :
      (v : Vertex) (st : ScanState)
      → 1 ≤ pos_part v.round
      → pos_part v.round ≤ length st.dag_image
      → (st' : ScanState) × (admit crypto draw v st ≡ some st')
  unfolding admit
  admit_total v st a b =
      let st₁ = help_creator draw v st in
      let same = ap length (help_creator_same crypto draw v st).0 in
      let (dag, e) = add_hash-inside v.round (hash crypto v) st₁.dag_image a (rw same b) in
      (
        record st₁ { dag_image = dag; added = st₁.added ++ v ∷ [] },
        ap (λ o. o >>= λ d. some (record st₁ { dag_image = d; added = st₁.added ++ v ∷ [] })) e,
      )

  later_total :
      (v : Vertex) (st : ScanState) (checked : Bool × List Bytes)
      → 1 ≤ pos_part v.round
      → pos_part v.round ≤ length st.dag_image
      → (st' : ScanState) × ((if checked.0
            then admit crypto draw v (record st { missing = checked.1 })
            else some (record st { missing = checked.1; kept = st.kept ++ v ∷ [] }))
          ≡ some st')
  later_total v st (true, m) a b = admit_total v (record st { missing = m }) a b
  later_total v st (false, m) a b = (record st { missing = m; kept = st.kept ++ v ∷ [] }, refl)

  not_first : (r : ℤ) → is_first_round r ≡ false → 1 ≤ pos_part r → 2 ≤ pos_part r
  not_first (pos n) f a = ground arith
  not_first (negsuc n) f a = absurd (omega arith)

  scan_vertex_total :
      (round : ℕ) (v : Vertex) (st : ScanState)
      → InRange round st.dag_image v
      → (st' : ScanState) × (scan_vertex crypto draw round v st ≡ some st')
  unfolding scan_vertex mutual_history
  scan_vertex_total round v st range = elim (Bool-cases (leb_ℤ v.round (pos round))) [
    | inr ahead ↦ (record st { kept = st.kept ++ v ∷ [] }, rw ahead refl)
    | inl reached ↦
        let (a, b) = range reached in
        elim (Bool-cases (is_first_round v.round)) [
          | inl first ↦ let (st', e) = admit_total v st a b in (st', rw (reached, first) e)
          | inr later ↦
              let (known, e) =
                round_set-inside st.dag_image v.round 2 (omega arith) (not_first v.round later a)
                  b in
              let (st', e') = later_total v st (check_refs known known v.references) a b in
              (st', rw (reached, later, e) e')
        ]
  ]

  InRange-length :
      (round : ℕ) (dag dag' : List (List Bytes)) (vs : List Vertex)
      → length dag' ≡ length dag
      → All (InRange round dag) vs
      → All (InRange round dag') vs
  InRange-length round dag dag' [] e all = tt
  InRange-length round dag dag' (v ∷ vs) e all =
      (λ r. let (a, b) = all.0 r in (a, omega arith), InRange-length round dag dag' vs e all.1)

  -- If every vertex of the buffer that is not ahead of the peer is in a round of the DAG, the pass
  -- over the buffer makes no access outside of it and ends.
  pub scan_buffer_total :
      (round : ℕ) (vs : List Vertex) (st : ScanState)
      → All (InRange round st.dag_image) vs
      → (st' : ScanState) × (scan_buffer crypto draw round vs st ≡ some st')
  unfolding scan_buffer
  scan_buffer_total round [] st all = (st, refl)
  scan_buffer_total round (v ∷ vs) st all =
      let (m, e) = scan_vertex_total round v st all.0 in
      let step = scan_vertex-IsStep crypto draw round v st m e in
      let (st', e') =
        scan_buffer_total round vs m
          (InRange-length round st.dag_image m.dag_image vs step.rounds all.1) in
      (st', ap (λ o. o >>= scan_buffer crypto draw round vs) e ∙ e')
