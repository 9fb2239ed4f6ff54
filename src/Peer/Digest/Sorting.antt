-- ===== src/Peer/Digest/Sorting.antt =====
-- The digest of the DAG, the order of the tables and the bound of its loop.
use dag_blockchain.Prelude.{
  >>=-eq-some, >>=_assoc, Bytes, List, Option, Option-cases, [], ap, ap₂, arith, bytes_eq, concat,
  false, fun_ext, get_elem?, get_elem?-lt, inl, inr, length, lt-get_elem?, nat_eq, none, refl, some,
  suc, sym, true, zero, ℕ, ◌%◌, ◌*◌, ◌++◌, ◌+◌, ◌-◌, ◌<◌, ◌>>=◌, ◌^◌, ◌∙◌, ◌∷◌, ◌≡◌, ◌≤◌,
}
use mathlib.Core.List.{Perm, Permᴰ}
use mathlib.Core.Logic.{∥∥₁_elim}
use dag_blockchain.Peer.{wave}
use dag_blockchain.Vertex.{Crypto, hash_256}
use dag_blockchain.Peer.Digest.{bytes_leb, insert_sorted, sort, hash_set, hash_rounds, hash_dag}

bytes_leb_total : (x y : Bytes) → bytes_leb x y ≡ false → bytes_leb y x ≡ true
unfolding bytes_leb
bytes_leb_total [] y h = absurd (cc h)
bytes_leb_total (x ∷ xs) [] h = refl
bytes_leb_total (x ∷ xs) (y ∷ ys) h = ground (arith, bytes_leb_total xs ys)

bytes_leb_antisym : (x y : Bytes) → bytes_leb x y ≡ true → bytes_leb y x ≡ true → x ≡ y
unfolding bytes_leb
bytes_leb_antisym [] [] h k = refl
bytes_leb_antisym [] (y ∷ ys) h k = absurd (cc k)
bytes_leb_antisym (x ∷ xs) [] h k = absurd (cc h)
bytes_leb_antisym (x ∷ xs) (y ∷ ys) h k = ground (arith, bytes_leb_antisym xs ys)

bytes_leb_trans :
    (x y z : Bytes) → bytes_leb x y ≡ true → bytes_leb y z ≡ true → bytes_leb x z ≡ true
unfolding bytes_leb
bytes_leb_trans [] y z h k = refl
bytes_leb_trans (x ∷ xs) [] z h k = absurd (cc h)
bytes_leb_trans (x ∷ xs) (y ∷ ys) [] h k = absurd (cc k)
bytes_leb_trans (x ∷ xs) (y ∷ ys) (z ∷ zs) h k = ground (arith, bytes_leb_trans xs ys zs)

insert_comm :
    (x y : Bytes) (l : List Bytes)
    → insert_sorted x (insert_sorted y l) ≡ insert_sorted y (insert_sorted x l)
unfolding insert_sorted
insert_comm x y [] = ground (arith, bytes_leb_total x y, bytes_leb_antisym x y)
insert_comm x y (z ∷ zs) = ground (
  arith,
  insert_comm x y zs,
  bytes_leb_total x y,
  bytes_leb_antisym x y,
  bytes_leb_trans x y z,
  bytes_leb_trans y x z,
)

sort-Permᴰ : {xs ys : List Bytes} → Permᴰ xs ys → sort xs ≡ sort ys
unfolding sort
sort-Permᴰ Permᴰ.nil = refl
sort-Permᴰ (Permᴰ.cons e p) = ap₂ insert_sorted e (sort-Permᴰ p)
sort-Permᴰ (Permᴰ.swap {a = a} {b = b} {l = l} e f) =
    insert_comm a b (sort l) ∙ ap₂ (λ x y. insert_sorted x (insert_sorted y (sort l))) f e
sort-Permᴰ (Permᴰ.trans p q) = sort-Permᴰ p ∙ sort-Permᴰ q

-- Sorting forgets the order of its input.
sort-Perm : {xs ys : List Bytes} → Perm xs ys → sort xs ≡ sort ys
sort-Perm p = ∥∥₁_elim p (hlevel) sort-Permᴰ

-- Two DAGs with the same hashes in each round, in any order.
abbrev pub SameSets : List (List Bytes) → List (List Bytes) → Type 0
SameSets [] [] = Unit {0}
SameSets (s ∷ dag) (s' ∷ dag') = Perm s s' × SameSets dag dag'
SameSets _ _ = ⊥

abbrev sorted_at : List (List Bytes) → ℕ → Option (List Bytes)
sorted_at dag i = get_elem? dag i >>= λ s. some (sort s)

SameSets-sorted :
    (dag dag' : List (List Bytes)) (i : ℕ) → SameSets dag dag' → sorted_at dag i ≡ sorted_at dag' i
SameSets-sorted [] [] i h = refl
SameSets-sorted [] (s' ∷ dag') i h = absurd h
SameSets-sorted (s ∷ dag) [] i h = absurd h
SameSets-sorted (s ∷ dag) (s' ∷ dag') zero h = ap some (sort-Perm h.0)
SameSets-sorted (s ∷ dag) (s' ∷ dag') (suc i) h = SameSets-sorted dag dag' i h.1

SameSets-length : (dag dag' : List (List Bytes)) → SameSets dag dag' → length dag ≡ length dag'
SameSets-length [] [] h = refl
SameSets-length [] (s' ∷ dag') h = absurd h
SameSets-length (s ∷ dag) [] h = absurd h
SameSets-length (s ∷ dag) (s' ∷ dag') h = ap suc (SameSets-length dag dag' h.1)

module _ (crypto : Crypto) where
  hash_set-sorted :
      (i : ℕ) (dag : List (List Bytes))
      → hash_set crypto i dag ≡ (sorted_at dag i >>= λ s. some (hash_256 crypto (concat s)))
  unfolding hash_set
  hash_set-sorted i dag = sym (>>=_assoc (get_elem? dag i) _ _)

  SameSets-hash_set :
      (i : ℕ) (dag dag' : List (List Bytes))
      → SameSets dag dag'
      → hash_set crypto i dag ≡ hash_set crypto i dag'
  SameSets-hash_set i dag dag' h =
      hash_set-sorted i dag
      ∙ ap (λ o. o >>= λ s. some (hash_256 crypto (concat s))) (SameSets-sorted dag dag' i h)
      ∙ sym (hash_set-sorted i dag')

  SameSets-hash_rounds :
      (count i : ℕ) (str : Bytes) (dag dag' : List (List Bytes))
      → SameSets dag dag'
      → hash_rounds crypto count i str dag ≡ hash_rounds crypto count i str dag'
  unfolding hash_rounds
  SameSets-hash_rounds zero i str dag dag' h = refl
  SameSets-hash_rounds (suc count) i str dag dag' h =
      ap (λ o. o >>= λ output. hash_rounds crypto count (i + 1) (str ++ output) dag)
        (SameSets-hash_set i dag dag' h)
      ∙ ap (λ k. hash_set crypto i dag' >>= k)
          (fun_ext (λ output. SameSets-hash_rounds count (i + 1) (str ++ output) dag dag' h))

  -- Two DAGs whose rounds hold the same hashes, in whatever order their tables go through them,
  -- have the same digest, or neither has one.
  pub SameSets-hash_dag :
      (dag dag' : List (List Bytes))
      → SameSets dag dag'
      → hash_dag crypto dag ≡ hash_dag crypto dag'
  unfolding hash_dag
  SameSets-hash_dag dag dag' h =
      ap
        (λ n. hash_rounds crypto ((n + 2 ^ 64 - 3 * wave) % 2 ^ 64) 0 [] dag >>= λ str.
          some (hash_256 crypto str))
        (SameSets-length dag dag' h)
      ∙ ap (λ o. o >>= λ str. some (hash_256 crypto str))
          (SameSets-hash_rounds ((length dag' + 2 ^ 64 - 3 * wave) % 2 ^ 64) 0 [] dag dag' h)

  hash_rounds_total :
      (count i : ℕ) (str : Bytes) (dag : List (List Bytes))
      → i + count ≤ length dag
      → (out : Bytes) × (hash_rounds crypto count i str dag ≡ some out)
  unfolding hash_rounds hash_set
  hash_rounds_total zero i str dag h = (str, refl)
  hash_rounds_total (suc count) i str dag h =
      let (s, e) = lt-get_elem? dag i (omega arith) in
      let (out, e') =
        hash_rounds_total count (i + 1) (str ++ hash_256 crypto (concat (sort s))) dag
          (omega arith) in
      (out, rw e e')

  hash_set-lt :
      (i : ℕ) (dag : List (List Bytes)) (output : Bytes)
      → hash_set crypto i dag ≡ some output
      → i + 1 ≤ length dag
  unfolding hash_set
  hash_set-lt i dag output e =
      let (s, found, _) =
        >>=-eq-some (get_elem? dag i) (λ s. some (hash_256 crypto (concat (sort s)))) e in
      omega (arith, get_elem?-lt dag i found)

  hash_rounds_undefined :
      (count i : ℕ) (str : Bytes) (dag : List (List Bytes))
      → length dag < i + count
      → i ≤ length dag
      → hash_rounds crypto count i str dag ≡ none
  unfolding hash_rounds
  hash_rounds_undefined zero i str dag h k = absurd (omega arith)
  hash_rounds_undefined (suc count) i str dag h k = elim (Option-cases (hash_set crypto i dag)) [
    | inl e ↦ rw e refl
    | inr (output, e) ↦ rw e (
        hash_rounds_undefined count (i + 1) (str ++ output) dag (omega arith)
          (hash_set-lt i dag output e))
  ]

  -- A DAG of 12 rounds or more, and fewer than 2 ^ 63, has a digest: the loop makes no access
  -- outside of it.
  pub hash_dag_total :
      (dag : List (List Bytes))
      → 3 * wave ≤ length dag
      → length dag < 2 ^ 63
      → (output : Bytes) × (hash_dag crypto dag ≡ some output)
  unfolding hash_dag
  hash_dag_total dag h small =
      let n : (length dag + 2 ^ 64 - 3 * wave) % 2 ^ 64 ≡ length dag - 3 * wave = omega arith in
      let (str, e) = hash_rounds_total (length dag - 3 * wave) 0 [] dag (omega arith) in
      (
        hash_256 crypto str,
        ap (λ k. hash_rounds crypto k 0 [] dag >>= λ s. some (hash_256 crypto s)) n
            ∙ ap (λ o. o >>= λ s. some (hash_256 crypto s)) e,
      )

  -- For a DAG of fewer than 12 rounds the bound of the loop wraps around, and the loop runs out of
  -- the DAG.
  pub hash_dag_undefined :
      (dag : List (List Bytes)) → length dag < 3 * wave → hash_dag crypto dag ≡ none
  unfolding hash_dag
  hash_dag_undefined dag h =
      rw
        (hash_rounds_undefined ((length dag + 2 ^ 64 - 3 * wave) % 2 ^ 64) 0 [] dag (omega arith)
          (omega arith))
        refl
