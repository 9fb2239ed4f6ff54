-- ===== src/Main/Agreement.antt =====
-- What the comparison says about the digests.
use dag_blockchain.Prelude.{
  All, Bool, Bool-cases, Bytes, List, [], ap, append_assoc, ap₂, arith, beq_refl, bytes_beq_iff,
  bytes_eq, concat, false, get_elem?, get_elem?-append, inl, inr, length, length-append,
  length-replicate, nat_eq, refl, replicate, some, subst, suc, sym, true, zero, ℕ, ◌%◌, ◌++◌, ◌+◌,
  ◌-◌, ◌<◌, ◌==◌, ◌>>=◌, ◌^◌, ◌↔◌, ◌∙◌, ◌∷◌, ◌≡◌,
}
use dag_blockchain.Main.{compare, all_equal, verdict}
use dag_blockchain.Main.Collect.{IsDigest, last_of, collect-digests}

-- Each digest is the one before it.
abbrev pub chain : Bytes → List Bytes → Bool
chain d [] = true
chain d (e ∷ ds) = elim (d == e) [ true ↦ chain e ds | false ↦ false ]

compare-chain :
    (ds before : List Bytes) (d : Bytes)
    → compare (length ds) (length before) (before ++ d ∷ ds) ≡ some (chain d ds)
unfolding compare
compare-chain [] before d = refl
compare-chain (e ∷ ds) before d =
    let here : get_elem? (before ++ d ∷ e ∷ ds) (length before) ≡ some d =
      get_elem?-append before (d ∷ e ∷ ds) (length before) 0 (omega arith) in
    let next : get_elem? (before ++ d ∷ e ∷ ds) (length before + 1) ≡ some e =
      get_elem?-append before (d ∷ e ∷ ds) (length before + 1) 1 (omega arith) in
    elim (Bool-cases (d == e)) [
      | inl same ↦
          rw (compare, chain, here, next, same)
            (ap₂ (λ i dags. compare (length ds) i dags)
                (omega (arith, length-append before (d ∷ [])))
                (sym (append_assoc before (d ∷ []) (e ∷ ds)))
              ∙ compare-chain ds (before ++ d ∷ []) e)
      | inr other ↦ rw (compare, chain, here, next, other) refl
    ]

all_equal-chain :
    (ds : List Bytes) (d : Bytes)
    → length (d ∷ ds) < 2 ^ 64
    → all_equal (d ∷ ds) ≡ some (chain d ds)
unfolding all_equal
all_equal-chain ds d small =
    let bound : (length (d ∷ ds) + (2 ^ 64 - 1)) % 2 ^ 64 ≡ length ds = omega arith in
    ap (λ n. compare n 0 (d ∷ ds)) bound ∙ compare-chain ds [] d

chain_iff : (ds : List Bytes) (d : Bytes) → (chain d ds ≡ true) ↔ All (λ e. e ≡ d) ds
chain_iff [] d = (λ _. tt, λ _. refl)
chain_iff (e ∷ ds) d = elim (Bool-cases (d == e)) [
  | inl same ↦
      let p : d ≡ e = (bytes_beq_iff d e).0 same in
      rw (chain, same)
        (
          λ h. (sym p, subst (λ x. All (λ y. y ≡ x) ds) (sym p) ((chain_iff ds e).0 h)),
          λ all. (chain_iff ds e).1 (subst (λ x. All (λ y. y ≡ x) ds) p all.1),
        )
  | inr other ↦
      rw (chain, other)
        (
          λ h. absurd (ground (arith, h)),
          λ all. absurd (ground (arith, other, (bytes_beq_iff d e).1 (sym all.0))),
        )
]

chain-same : (more : ℕ) (d : Bytes) → chain d (replicate more d) ≡ true
chain-same zero d = refl
chain-same (suc more) d = rw (chain, beq_refl d) (chain-same more d)

chain-last :
    (more : ℕ) (ds : List Bytes) (d : Bytes)
    → chain d (ds ++ replicate more (last_of d ds)) ≡ chain d ds
chain-last more [] d = chain-same more d
chain-last more (e ∷ ds) d = elim (Bool-cases (d == e)) [
  | inl same ↦ rw (chain, same) (chain-last more ds e)
  | inr other ↦ rw (chain, other) refl
]

-- One or more children leave digests of 64 bytes, none of them zero, and `more` children end
-- without one, fewer than 2 ^ 64 in all. Then the parent answers, and it answers that all think of
-- the same DAG exactly when the digests that were left are equal.
pub verdict_lem :
    (more : ℕ) (d : Bytes) (ds : List Bytes)
    → IsDigest d
    → All IsDigest ds
    → length (d ∷ ds) + more < 2 ^ 64
    → (equal : Bool) × (verdict (length (d ∷ ds) + more) (concat (d ∷ ds)) ≡ some equal)
      × ((equal ≡ true) ↔ All (λ e. e ≡ d) ds)
unfolding verdict
verdict_lem more d ds digest ok small =
    let all = ds ++ replicate more (last_of d ds) in
    let fits : length (d ∷ all) < 2 ^ 64 = omega (
      arith,
      length-append ds (replicate more (last_of d ds)),
      length-replicate more (last_of d ds),
    ) in
    (
      chain d ds,
      ap (λ o. o >>= all_equal) (collect-digests more d ds digest ok)
          ∙ all_equal-chain all d fits
          ∙ ap some (chain-last more ds d),
      chain_iff ds d,
    )
