-- ===== src/Peer/Scan/Closure.antt =====
-- The history of the vertices that a scan of the buffer adds to the DAG.
use dag_blockchain.Prelude.{
  >>=-eq-some, All, All-append, Bool, Bool-cases, Bytes, List, Option, [], ap, ap₂, arith, bytes_eq,
  false, if◌then◌else◌, inl, inr, length, none, refl, some, subst, sym, true, ℕ, ◌++◌, ◌∙◌, ◌∷◌,
  ◌≡◌,
}
use dag_blockchain.Prelude.Int.{leb_ℤ, pos, ℤ}
use mathlib.Core.List.{Perm, perm_append_singleton, perm_middle}
use dag_blockchain.Peer.Scan.{ScanState, help_creator, admit, add_hash, scan_vertex, scan_buffer}
use mathlib.Core.List.Perm
use dag_blockchain.Vertex.{Vertex, Crypto, hash}
use dag_blockchain.Network.Server.{is_first_round}
use dag_blockchain.Peer.History.{round_set, mutual_history}
use dag_blockchain.Peer.History.Refs.{IsKnown, mutual_history-true}
use dag_blockchain.Peer.Scan.Growth.{in_dag, Grows, member, add_hash-Grows}

module _ (crypto : Crypto) where
  -- The hash of the vertex is in the set of its round, and, after the first round, each of its
  -- references is in the set of the round before.
  abbrev pub IsSettled : List (List Bytes) → Vertex → Type 0
  IsSettled dag v =
      (in_dag dag v.round 1 (hash crypto v) ≡ true)
      × (is_first_round v.round ≡ false → All (λ ref. in_dag dag v.round 2 ref ≡ true) v.references)

  pub refs-Grows :
      (dag dag' : List (List Bytes)) (r : ℤ) (refs : List Bytes)
      → Grows dag dag'
      → All (λ ref. in_dag dag r 2 ref ≡ true) refs
      → All (λ ref. in_dag dag' r 2 ref ≡ true) refs
  refs-Grows dag dag' r [] g all = tt
  refs-Grows dag dag' r (ref ∷ refs) g all = (g r 2 ref all.0, refs-Grows dag dag' r refs g all.1)

  IsSettled-Grows :
      (dag dag' : List (List Bytes)) (vs : List Vertex)
      → Grows dag dag'
      → All (IsSettled dag) vs
      → All (IsSettled dag') vs
  IsSettled-Grows dag dag' [] g all = tt
  IsSettled-Grows dag dag' (v ∷ vs) g all = (
    (
      g v.round 1 (hash crypto v) all.0.0,
      λ later. refs-Grows dag dag' v.round v.references g (all.0.1 later),
    ),
    IsSettled-Grows dag dag' vs g all.1,
  )

  known_refs :
      (dag : List (List Bytes)) (r : ℤ) (known refs : List Bytes)
      → round_set dag r 2 ≡ some known
      → All (IsKnown known) refs
      → All (λ ref. in_dag dag r 2 ref ≡ true) refs
  known_refs dag r known [] e all = tt
  known_refs dag r known (ref ∷ refs) e all =
      (ap (member ref) e ∙ all.0, known_refs dag r known refs e all.1)

  -- A step of the scan: the DAG grows and stays in shape, settled vertices stay settled, and the
  -- vertex is kept or added, once.
  pub record IsStep (v : Vertex) (st st' : ScanState) : Type 0 where
    pub grows : Grows st.dag_image st'.dag_image
    pub rounds : length st'.dag_image ≡ length st.dag_image
    pub settled : All (IsSettled st.dag_image) st.added → All (IsSettled st'.dag_image) st'.added
    pub counted : Perm (st'.kept ++ st'.added) (v ∷ (st.kept ++ st.added))

  state_or : ScanState → Option ScanState → ScanState
  state_or st none = st
  state_or st (some st') = st'

  pub help_creator_same :
      (draw : ℕ → ℕ) (v : Vertex) (st : ScanState)
      → ((help_creator draw v st).dag_image ≡ st.dag_image)
        × ((help_creator draw v st).kept ≡ st.kept)
        × ((help_creator draw v st).added ≡ st.added)
  unfolding help_creator
  help_creator_same draw v st = ground arith

  kept-IsStep :
      (v : Vertex) (st : ScanState) (missing : List Bytes)
      → IsStep v st (record st { missing = missing; kept = st.kept ++ v ∷ [] })
  kept-IsStep v st missing = record {
    grows = λ r back h m. m;
    rounds = refl;
    settled = λ all. all;
    counted = Perm.append_right st.added (perm_append_singleton v st.kept);
  }

  added-IsStep :
      (v : Vertex) (st st' : ScanState)
      → (is_first_round v.round ≡ false
          → All (λ ref. in_dag st.dag_image v.round 2 ref ≡ true) v.references)
      → st'.kept ≡ st.kept
      → st'.added ≡ st.added ++ v ∷ []
      → Grows st.dag_image st'.dag_image
      → in_dag st'.dag_image v.round 1 (hash crypto v) ≡ true
      → length st'.dag_image ≡ length st.dag_image
      → IsStep v st st'
  added-IsStep v st st' history k a g m n = record {
    grows = g;
    rounds = n;
    settled = λ all. subst (All (IsSettled st'.dag_image)) (sym a) (
        All-append (IsSettled st'.dag_image) st.added (v ∷ [])
          (IsSettled-Grows st.dag_image st'.dag_image st.added g all)
          (
            (
              m,
              λ later. refs-Grows st.dag_image st'.dag_image v.round v.references g (history later),
            ),
            tt,
          ));
    counted =
        subst (λ t. Perm t (v ∷ (st.kept ++ st.added))) (sym (ap₂ (λ x y. x ++ y) k a))
          (Perm.trans (Perm.append_left st.kept (perm_append_singleton v st.added))
            (perm_middle st.kept st.added));
  }

  admit-IsStep :
      (draw : ℕ → ℕ) (v : Vertex) (st st' : ScanState)
      → (is_first_round v.round ≡ false
          → All (λ ref. in_dag st.dag_image v.round 2 ref ≡ true) v.references)
      → admit crypto draw v st ≡ some st'
      → IsStep v st st'
  unfolding admit state_or
  admit-IsStep draw v st st' history h =
      let st₁ = help_creator draw v st in
      let (dag_same, kept_same, added_same) = help_creator_same draw v st in
      let (dag, e, r) =
        >>=-eq-some (add_hash v.round (hash crypto v) st₁.dag_image)
          (λ dag. some (record st₁ { dag_image = dag; added = st₁.added ++ v ∷ [] })) h in
      let (g, m, n) =
        add_hash-Grows v.round (hash crypto v) st.dag_image dag
          (ap (add_hash v.round (hash crypto v)) (sym dag_same) ∙ e) in
      subst (IsStep v st) (ap (state_or st') r) (
        added-IsStep v st (record st₁ { dag_image = dag; added = st₁.added ++ v ∷ [] }) history
          kept_same (ap (λ t. t ++ v ∷ []) added_same) g m n)

  later_vertex :
      (draw : ℕ → ℕ) (v : Vertex) (st st' : ScanState) (checked : Bool × List Bytes)
      → mutual_history v.round v.references st.dag_image ≡ some checked
      → (if checked.0
          then admit crypto draw v (record st { missing = checked.1 })
          else some (record st { missing = checked.1; kept = st.kept ++ v ∷ [] }))
        ≡ some st'
      → IsStep v st st'
  unfolding state_or
  later_vertex draw v st st' (false, temp_set) e h =
      subst (IsStep v st) (ap (state_or st') h) (kept-IsStep v st temp_set)
  later_vertex draw v st st' (true, temp_set) e h =
      let (known, found, all) = mutual_history-true v.round v.references temp_set st.dag_image e in
      let step =
        admit-IsStep draw v (record st { missing = temp_set }) st'
          (λ _. known_refs st.dag_image v.round known v.references found all) h in
      record {
        grows = step.grows;
        rounds = step.rounds;
        settled = step.settled;
        counted = step.counted;
      }

  pub scan_vertex-IsStep :
      (draw : ℕ → ℕ) (round : ℕ) (v : Vertex) (st st' : ScanState)
      → scan_vertex crypto draw round v st ≡ some st'
      → IsStep v st st'
  unfolding scan_vertex state_or
  scan_vertex-IsStep draw round v st st' h = elim (Bool-cases (leb_ℤ v.round (pos round))) [
    | inl reached ↦ elim (Bool-cases (is_first_round v.round)) [
      | inl first ↦
          admit-IsStep draw v st st' (λ later. absurd (cc (first, later))) (ground (arith, h))
      | inr later ↦
          let h' = rw (reached, later) at h in
          let (checked, e, r) =
            >>=-eq-some (mutual_history v.round v.references st.dag_image) _ h' in
          later_vertex draw v st st' checked e r
    ]
    | inr ahead ↦
        subst (IsStep v st) (ap (state_or st') (rw ahead at h)) (kept-IsStep v st st.missing)
  ]

  -- Take one pass over the buffer that ends without an access outside of the DAG, from a state in
  -- which the vertices added so far have their hashes and, after the first round, their references
  -- in the DAG. Then no hash leaves the DAG, no round is opened or closed, every vertex that was
  -- added has its hash and its references there, and the vertices of the buffer are those that are
  -- kept and those that were added, each once.
  pub scan_buffer_lem :
      (draw : ℕ → ℕ) (round : ℕ) (vs : List Vertex) (st st' : ScanState)
      → scan_buffer crypto draw round vs st ≡ some st'
      → All (IsSettled st.dag_image) st.added
      → Grows st.dag_image st'.dag_image
        × (length st'.dag_image ≡ length st.dag_image)
        × All (IsSettled st'.dag_image) st'.added
        × Perm (st'.kept ++ st'.added) (vs ++ (st.kept ++ st.added))
  unfolding scan_buffer state_or
  scan_buffer_lem draw round [] st st' h all =
      subst
        (λ s.
          Grows st.dag_image s.dag_image
          × (length s.dag_image ≡ length st.dag_image)
          × All (IsSettled s.dag_image) s.added
          × Perm (s.kept ++ s.added) (st.kept ++ st.added))
        (ap (state_or st') h) ((λ r back g m. m), refl, all, Perm.refl _)
  scan_buffer_lem draw round (v ∷ vs) st st' h all =
      let (m, s, r) =
        >>=-eq-some (scan_vertex crypto draw round v st) (scan_buffer crypto draw round vs) h in
      let step = scan_vertex-IsStep draw round v st m s in
      let (g, n, settled, counted) = scan_buffer_lem draw round vs m st' r (step.settled all) in
      (
        (λ z back h' i. g z back h' (step.grows z back h' i)),
        n ∙ step.rounds,
        settled,
        Perm.trans counted
            (Perm.trans (Perm.append_left vs step.counted) (perm_middle vs (st.kept ++ st.added))),
      )
