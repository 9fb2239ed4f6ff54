-- ===== src/Peer/Order/Scans.antt =====
-- For which rounds dag_scan starts a thread.
use dag_blockchain.Prelude.{
  Bool, Bytes, List, Option, [], ap, append-nil, append_assoc, arith, false, get_elem?,
  if◌then◌else◌, inl, inr, length, lt-get_elem?, ltb, ltb→lt, lt→ltb, nat_eq, none, refl, some,
  subst, suc, sym, true, zero, ℕ, ◌++◌, ◌+◌, ◌-◌, ◌<◌, ◌||◌, ◌↔◌, ◌∙◌, ◌∷◌, ◌≡◌, ◌≤◌, ◌⊎◌,
}
use dag_blockchain.Prelude.Int.{pos_part, ℤ}
use mathlib.Core.Option.{some-injective}
use dag_blockchain.Peer.Order.Blame.{equal_or_below}
use dag_blockchain.Containers.Set.{contains}
use dag_blockchain.Peer.{Peer}
use dag_blockchain.Peer.Order.{scan_rounds, dag_scan}

-- The round, if its set is not full.
abbrev unfilled_at : ℕ → ℕ → Option (List Bytes) → List ℕ
unfilled_at crowd i none = []
unfilled_at crowd i (some vertices) = if ltb (length vertices) crowd then i ∷ [] else []

abbrev unfilled : ℕ → List (List Bytes) → ℕ → ℕ → List ℕ
unfilled crowd dag zero i = []
unfilled crowd dag (suc count) i =
    unfilled_at crowd i (get_elem? dag i) ++ unfilled crowd dag count (i + 1)

-- More checks.
abbrev checking : List ℕ → Peer → Peer
checking more p = record p { checks = p.checks ++ more }

checking-nil : (p : Peer) → p ≡ checking [] p
checking-nil p = ap (λ c. record p { checks = c }) (sym (append-nil p.checks))

checking-both : (xs ys : List ℕ) (p : Peer) → checking ys (checking xs p) ≡ checking (xs ++ ys) p
checking-both xs ys p = ap (λ c. record p { checks = c }) (append_assoc p.checks xs ys)

started :
    (b : Bool) (i : ℕ) (p : Peer)
    → (if b then record p { checks = p.checks ++ i ∷ [] } else p)
      ≡ checking (if b then i ∷ [] else []) p
started true i p = refl
started false i p = checking-nil p

scan_rounds-checking :
    (count i : ℕ) (p : Peer)
    → (0 < count → i + count ≤ length p.dag_image)
    → scan_rounds count i p ≡ some (checking (unfilled p.crowd p.dag_image count i) p)
unfolding scan_rounds
scan_rounds-checking zero i p h = ap some (checking-nil p)
scan_rounds-checking (suc count) i p h =
    let within : i + suc count ≤ length p.dag_image = h (omega arith) in
    let (vertices, e) = lt-get_elem? p.dag_image i (omega (arith, within)) in
    let here = if ltb (length vertices) p.crowd then i ∷ [] else [] in
    let rest = unfilled p.crowd p.dag_image count (i + 1) in
    rw e (
      ap (scan_rounds count (i + 1)) (started (ltb (length vertices) p.crowd) i p)
      ∙ scan_rounds-checking count (i + 1) (checking here p) (λ _. omega (arith, within))
      ∙ ap some (checking-both here rest p))

-- A round that is not full.
abbrev pub IsUnfilled : ℕ → List (List Bytes) → ℕ → Type 0
IsUnfilled crowd dag k =
    (vertices : List Bytes) × (get_elem? dag k ≡ some vertices) × (length vertices < crowd)

contains-one :
    (b : Bool) (i k : ℕ) → (contains k (if b then i ∷ [] else []) ≡ true) ↔ ((b ≡ true) × (i ≡ k))
unfolding contains
contains-one true i k = ground (arith, nat_eq.agrees i k)
contains-one false i k = ground arith

contains-unfilled_at :
    (crowd i k : ℕ) (dag : List (List Bytes)) (o : Option (List Bytes))
    → get_elem? dag i ≡ o
    → (contains k (unfilled_at crowd i o) ≡ true) ↔ ((i ≡ k) × IsUnfilled crowd dag i)
unfolding contains
contains-unfilled_at crowd i k dag none e = (λ h. absurd (cc h), λ h. absurd (cc (sym e ∙ h.1.1)))
contains-unfilled_at crowd i k dag (some vertices) e =
    let one = contains-one (ltb (length vertices) crowd) i k in
    (
      λ h. let (few, same) = one.0 h in (same, (vertices, e, ltb→lt (length vertices) crowd few)),
      λ h.
          let (vs, e', few) = h.1 in
          let less : length vertices < crowd =
            subst (λ xs. length xs < crowd) (some-injective _ _ (sym e' ∙ e)) few in
          one.1 (lt→ltb (length vertices) crowd less, h.0),
    )

contains-append :
    (k : ℕ) (xs ys : List ℕ) → contains k (xs ++ ys) ≡ (contains k xs || contains k ys)
unfolding contains
contains-append k [] ys = refl
contains-append k (x ∷ xs) ys = ground (arith, contains-append k xs ys)

either : (a b : Bool) → ((a || b) ≡ true) ↔ ((a ≡ true) ⊎ (b ≡ true))
either a b = ground arith

contains-unfilled :
    (crowd count i k : ℕ) (dag : List (List Bytes))
    → (contains k (unfilled crowd dag count i) ≡ true)
      ↔ ((i ≤ k) × (k < i + count) × IsUnfilled crowd dag k)
unfolding contains
contains-unfilled crowd zero i k dag = (λ h. absurd (cc h), λ h. absurd (omega (arith, h.0, h.1)))
contains-unfilled crowd (suc count) i k dag =
    let here = unfilled_at crowd i (get_elem? dag i) in
    let later = unfilled crowd dag count (i + 1) in
    let first = contains-unfilled_at crowd i k dag (get_elem? dag i) refl in
    let rest = contains-unfilled crowd count (i + 1) k dag in
    let split = contains-append k here later in
    let or = either (contains k here) (contains k later) in
    (
      λ h. elim (or.0 (sym split ∙ h)) [
        | inl at ↦
            let (same, unfilled_i) = first.0 at in
            (omega (arith, same), omega (arith, same), subst (IsUnfilled crowd dag) same unfilled_i)
        | inr behind ↦
            let (from, to, u) = rest.0 behind in (omega (arith, from), omega (arith, to), u)
      ],
      λ h.
          split
          ∙ or.1 (elim (equal_or_below i k h.0) [
            | inl same ↦ inl (first.1 (same, subst (IsUnfilled crowd dag) (sym same) h.2))
            | inr less ↦ inr (rest.1 (omega (arith, less), omega (arith, h.1), h.2))
          ]),
    )

-- If the end is within the DAG, dag_scan returns, and all that it changes is that threads of
-- check_round are started: for the rounds from the start, or from 0 if that is negative, to the one
-- before the end whose sets are not full, and for no others.
pub dag_scan_lem :
    (end : ℕ) (start : ℤ) (p : Peer)
    → end ≤ length p.dag_image
    → (new : List ℕ) × (dag_scan end start p ≡ some (record p { checks = p.checks ++ new }))
      × ((k : ℕ)
          → (contains k new ≡ true)
            ↔ ((pos_part start ≤ k) × (k < end) × IsUnfilled p.crowd p.dag_image k))
unfolding dag_scan
dag_scan_lem end start p within =
    let first = pos_part start in
    let member = λ (k : ℕ). contains-unfilled p.crowd (end - first) first k p.dag_image in
    (
      unfilled p.crowd p.dag_image (end - first) first,
      scan_rounds-checking (end - first) first p (λ some_left. omega (arith, within, some_left)),
      λ k. (
        λ h. let (from, to, u) = (member k).0 h in (from, omega (arith, from, to), u),
        λ h. (member k).1 (h.0, omega (arith, h.0, h.1), h.2),
      ),
    )
