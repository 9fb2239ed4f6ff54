-- ===== src/Peer/Scan/Added.antt =====
-- Where new hashes in the DAG come from, and whom the scan helps.
use dag_blockchain.Prelude.{
  >>=-eq-some, All, All-append, Bool, Bool-cases, Bytes, List, Option, [], ap, bytes_eq, false,
  if◌then◌else◌, inl, inr, leb, none, refl, some, subst, sym, true, ℕ, ◌++◌, ◌∙◌, ◌∷◌, ◌≡◌,
}
use dag_blockchain.Prelude.Int.{leb_ℤ, pos, ℤ}
use mathlib.Core.List.{Mem, mem-append_left, mem-append_right, mem-cons_self}
use dag_blockchain.Vertex.{Vertex, Crypto, hash}
use dag_blockchain.Network.Server.{is_first_round}
use dag_blockchain.Peer.History.{mutual_history}
use dag_blockchain.Peer.Scan.{ScanState, help_creator, admit, add_hash, scan_vertex, scan_buffer}
use dag_blockchain.Peer.Scan.Growth.{in_dag, add_hash-new}
use dag_blockchain.Peer.Scan.Closure.{help_creator_same}

-- A call for the creator of an added vertex, with a set that is not empty.
abbrev pub IsDue : List Vertex → ℕ × List Bytes → Type 0
IsDue added call = (¬ (call.1 ≡ [])) × (v : Vertex) × Mem v added × (v.peer_id ≡ call.0)

IsDue-append :
    (added more : List Vertex) (calls : List (ℕ × List Bytes))
    → All (IsDue added) calls
    → All (IsDue (added ++ more)) calls
IsDue-append added more [] all = tt
IsDue-append added more (call ∷ calls) all =
    let (full, v, m, e) = all.0 in
    ((full, v, mem-append_left more m, e), IsDue-append added more calls all.1)

module _ (crypto : Crypto) where
  -- A hash of the second DAG that is not in the first is that of an added vertex, in its round.
  abbrev pub AddsOnly : List (List Bytes) → List Vertex → List (List Bytes) → Type 0
  AddsOnly dag added dag' =
      (r : ℤ) (g : Bytes)
      → in_dag dag' r 1 g ≡ true
      → in_dag dag r 1 g ≡ false
      → (v : Vertex) × Mem v added × (v.round ≡ r) × (hash crypto v ≡ g)

  module _ (draw : ℕ → ℕ) (round : ℕ) (dag : List (List Bytes)) where
    -- What holds of a scan that started with `dag` and without a call.
    pub record IsOwed (st : ScanState) : Type 0 where
      pub fresh : AddsOnly dag st.added st.dag_image
      pub due : All (IsDue st.added) st.helped

    state_or : ScanState → Option ScanState → ScanState
    state_or st none = st
    state_or st (some st') = st'

    IsOwed-with :
        (st : ScanState) (m : List Bytes) (kept : List Vertex)
        → IsOwed st
        → IsOwed (record st { missing = m; kept = kept })
    IsOwed-with st m kept o = record { fresh = o.fresh; due = o.due }

    help-IsDue :
        (v : Vertex) (st : ScanState) (m : List Bytes) (added : List Vertex)
        → Mem v added
        → All (IsDue added) st.helped
        → All (IsDue added) ((help_creator draw v (record st { missing = m })).helped)
    unfolding help_creator
    help-IsDue v st [] added mem all = all
    help-IsDue v st (h ∷ hs) added mem all = elim (Bool-cases (leb (draw st.draws) 60)) [
      | inl helps ↦ rw helps (
          All-append (IsDue added) st.helped ((v.peer_id, h ∷ hs) ∷ []) all
            (((λ e. absurd (cc e)), v, mem, refl), tt))
      | inr waits ↦ rw waits all
    ]

    AddsOnly-then :
        (v : Vertex) (added : List Vertex) (before after : List (List Bytes))
        → AddsOnly dag added before
        → add_hash v.round (hash crypto v) before ≡ some after
        → AddsOnly dag (added ++ v ∷ []) after
    AddsOnly-then v added before after only e r g inside new =
        elim (Bool-cases (in_dag before r 1 g)) [
          | inl old ↦ let (u, m, at, h) = only r g old new in (u, mem-append_left (v ∷ []) m, at, h)
          | inr fresh ↦
              let (at, h) = add_hash-new v.round r (hash crypto v) g before after e inside fresh in
              (v, mem-append_right added mem-cons_self, at, h)
        ]

    admit-IsOwed :
        (v : Vertex) (st st' : ScanState)
        → admit crypto draw v st ≡ some st'
        → IsOwed st
        → IsOwed st'
    unfolding admit state_or
    admit-IsOwed v st st' h o =
        let st₁ = help_creator draw v st in
        let (dag_same, kept_same, added_same) = help_creator_same crypto draw v st in
        let (dag', e, r) =
          >>=-eq-some (add_hash v.round (hash crypto v) st₁.dag_image)
            (λ d. some (record st₁ { dag_image = d; added = st₁.added ++ v ∷ [] })) h in
        let added' : st₁.added ++ v ∷ [] ≡ st.added ++ v ∷ [] = ap (λ a. a ++ v ∷ []) added_same in
        subst IsOwed (ap (state_or st') r) (record {
          fresh =
              subst (λ a. AddsOnly dag a dag') (sym added')
                (AddsOnly-then v st.added st.dag_image dag' o.fresh
                  (ap (add_hash v.round (hash crypto v)) (sym dag_same) ∙ e));
          due =
              subst (λ a. All (IsDue a) st₁.helped) (sym added')
                (help-IsDue v st st.missing (st.added ++ v ∷ [])
                  (mem-append_right st.added mem-cons_self)
                  (IsDue-append st.added (v ∷ []) st.helped o.due));
        })

    later-IsOwed :
        (v : Vertex) (st st' : ScanState) (checked : Bool × List Bytes)
        → (if checked.0
            then admit crypto draw v (record st { missing = checked.1 })
            else some (record st { missing = checked.1; kept = st.kept ++ v ∷ [] }))
          ≡ some st'
        → IsOwed st
        → IsOwed st'
    unfolding state_or
    later-IsOwed v st st' (true, m) h o =
        admit-IsOwed v (record st { missing = m }) st' h (IsOwed-with st m st.kept o)
    later-IsOwed v st st' (false, m) h o =
        subst IsOwed (ap (state_or st') h) (IsOwed-with st m (st.kept ++ v ∷ []) o)

    vertex-IsOwed :
        (v : Vertex) (st st' : ScanState)
        → scan_vertex crypto draw round v st ≡ some st'
        → IsOwed st
        → IsOwed st'
    unfolding scan_vertex state_or
    vertex-IsOwed v st st' h o = elim (Bool-cases (leb_ℤ v.round (pos round))) [
      | inl reached ↦ elim (Bool-cases (is_first_round v.round)) [
        | inl first ↦ admit-IsOwed v st st' (rw (reached, first) at h) o
        | inr later ↦
            let (checked, e, r) =
              >>=-eq-some (mutual_history v.round v.references st.dag_image) _
                (rw (reached, later) at h) in
            later-IsOwed v st st' checked r o
      ]
      | inr ahead ↦
          subst IsOwed (ap (state_or st') (rw ahead at h))
            (IsOwed-with st st.missing (st.kept ++ v ∷ []) o)
    ]

    -- The pass over the buffer keeps this.
    pub scan_buffer-IsOwed :
        (vs : List Vertex) (st st' : ScanState)
        → scan_buffer crypto draw round vs st ≡ some st'
        → IsOwed st
        → IsOwed st'
    unfolding scan_buffer state_or
    scan_buffer-IsOwed [] st st' h o = subst IsOwed (ap (state_or st') h) o
    scan_buffer-IsOwed (v ∷ vs) st st' h o =
        let (m, s, r) =
          >>=-eq-some (scan_vertex crypto draw round v st) (scan_buffer crypto draw round vs) h in
        scan_buffer-IsOwed vs m st' r (vertex-IsOwed v st m s o)
