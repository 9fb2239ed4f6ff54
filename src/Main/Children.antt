-- ===== src/Main/Children.antt =====
-- The child processes of main.cpp, from their DAGs to what the parent prints.
use dag_blockchain.Prelude.{
  >>=-eq-some, All, Bool, Bool-cases, Bytes, List, Option, [], ap, ap₂, arith, bytes_eq, concat,
  false, if◌then◌else◌, inl, inr, length, length-replicate, nat_eq, refl, replicate, some, subst,
  suc, sym, true, zero, ℕ, ◌%◌, ◌*◌, ◌++◌, ◌+◌, ◌-◌, ◌<◌, ◌==◌, ◌>>=◌, ◌^◌, ◌∙◌, ◌∷◌, ◌≡◌, ◌≤◌,
}
use dag_blockchain.Main.Agreement.{verdict_lem}
use mathlib.Core.Option.{some-injective}
use dag_blockchain.Vertex.Key.{length-hash_256}
use dag_blockchain.Peer.{wave}
use dag_blockchain.Main.Collect.{IsDigest}
use dag_blockchain.Vertex.{Crypto, hash_256}
use dag_blockchain.Peer.Digest.{hash_dag, hash_rounds}
use dag_blockchain.Peer.Digest.Sorting.{SameSets, SameSets-hash_dag, hash_dag_total}
use dag_blockchain.Main.{verdict}

-- A child when its threads have ended: whether it was told to fail, and its DAG.
pub record Child : Type 0 where
  pub fail : Bool
  pub dag : List (List Bytes)

All-replicate : (P : Bytes → Type 0) (n : ℕ) (d : Bytes) → P d → All P (replicate n d)
All-replicate P zero d h = tt
All-replicate P (suc n) d h = (h, All-replicate P n d h)

one_more :
    (b : Bool) (n : ℕ) (d : Bytes)
    → (if b then [] else d) ++ concat (replicate n d)
      ≡ concat (replicate (if b then n else suc n) d)
one_more true n d = refl
one_more false n d = refl

module _ (crypto : Crypto) where
  -- What a child writes to the pipe.
  unfoldable pub child_output : Child → Option Bytes
  child_output c = if c.fail then some [] else hash_dag crypto c.dag

  -- The pipe, for children in the order in which they write.
  unfoldable pub pipe_of : List Child → Option Bytes
  unfolding child_output
  pipe_of [] = some []
  pipe_of (c ∷ cs) = do written ← child_output c; behind ← pipe_of cs; some (written ++ behind)

  -- What the parent prints.
  unfoldable pub run_children : List Child → Option Bool
  unfolding pipe_of
  run_children cs = do pipe ← pipe_of cs; verdict (length cs) pipe

  -- Those that leave a digest, and those that do not.
  abbrev pub working : List Child → ℕ
  working [] = 0
  working (c ∷ cs) = if c.fail then working cs else suc (working cs)

  abbrev failing : List Child → ℕ
  failing [] = 0
  failing (c ∷ cs) = if c.fail then suc (failing cs) else failing cs

  working-failing : (cs : List Child) → working cs + failing cs ≡ length cs
  working-failing [] = refl
  working-failing (c ∷ cs) = ground (arith, working-failing cs)

  child-digest :
      (dag : List (List Bytes)) (d : Bytes) (c : Child)
      → hash_dag crypto dag ≡ some d
      → (c.fail ≡ false → SameSets dag c.dag)
      → child_output c ≡ some (if c.fail then [] else d)
  unfolding child_output
  child-digest dag d c e same = elim (Bool-cases c.fail) [
    | inl failed ↦ rw failed refl
    | inr worked ↦ rw worked (sym (SameSets-hash_dag crypto dag c.dag (same worked)) ∙ e)
  ]

  pipe-digests :
      (dag : List (List Bytes)) (d : Bytes) (cs : List Child)
      → hash_dag crypto dag ≡ some d
      → All (λ c. c.fail ≡ false → SameSets dag c.dag) cs
      → pipe_of cs ≡ some (concat (replicate (working cs) d))
  unfolding pipe_of
  pipe-digests dag d [] e same = refl
  pipe-digests dag d (c ∷ cs) e same =
      rw (child-digest dag d c e same.0, pipe-digests dag d cs e same.1)
        (ap some (one_more c.fail (working cs) d))

  -- The encoder makes no zero bytes: its alphabet is that of hexadecimal digits.
  abbrev pub IsPrinting : Type 0
  IsPrinting = (input : Bytes) → All (λ b. (b == 0) ≡ false) (crypto.hex_encode input)

  hash_256-IsDigest : (input : Bytes) → IsPrinting → IsDigest (hash_256 crypto input)
  unfolding hash_256
  hash_256-IsDigest input printing = record {
    full = length-hash_256 crypto input;
    nonzero = printing (crypto.sha256 input);
  }

  hash_dag-IsDigest :
      (dag : List (List Bytes)) (d : Bytes) → IsPrinting → hash_dag crypto dag ≡ some d → IsDigest d
  unfolding hash_dag
  hash_dag-IsDigest dag d printing h =
      let (str, e, r) =
        >>=-eq-some (hash_rounds crypto ((length dag + 2 ^ 64 - 3 * wave) % 2 ^ 64) 0 [] dag) _ h in
      subst IsDigest (some-injective _ _ r) (hash_256-IsDigest str printing)

  digests-verdict :
      (d : Bytes) (n more : ℕ)
      → IsDigest d
      → suc n + more < 2 ^ 64
      → verdict (suc n + more) (concat (replicate (suc n) d)) ≡ some true
  digests-verdict d n more digest small =
      let size = length-replicate n d in
      let (equal, run, agree) =
        verdict_lem more d (replicate n d) digest (All-replicate IsDigest n d digest)
          (omega (arith, size, small)) in
      ap (λ k. verdict (suc k + more) (concat (replicate (suc n) d))) (sym size)
      ∙ run
      ∙ ap some (agree.1 (All-replicate (λ e. e ≡ d) n d refl))

  -- The children that are not told to fail, of which there is one at least, have DAGs whose rounds
  -- hold the same hashes, of 12 rounds or more and fewer than 2 ^ 63; the encoder makes no zero
  -- bytes, and there are fewer than 2 ^ 64 children. Then the parent prints that all think of the
  -- same DAG.
  pub run_children_lem :
      (dag : List (List Bytes)) (cs : List Child)
      → IsPrinting
      → 3 * wave ≤ length dag
      → length dag < 2 ^ 63
      → All (λ c. c.fail ≡ false → SameSets dag c.dag) cs
      → 0 < working cs
      → length cs < 2 ^ 64
      → run_children cs ≡ some true
  unfolding run_children
  run_children_lem dag cs printing long small same some_work few =
      let (d, e) = hash_dag_total crypto dag long small in
      let count : length cs ≡ suc (working cs - 1) + failing cs =
        omega (arith, some_work, working-failing cs) in
      let first : working cs ≡ suc (working cs - 1) = omega (arith, some_work) in
      ap (λ o. o >>= verdict (length cs)) (pipe-digests dag d cs e same)
      ∙ ap₂ (λ n k. verdict n (concat (replicate k d))) count first
      ∙ digests-verdict d (working cs - 1) (failing cs) (hash_dag-IsDigest dag d printing e)
          (omega (arith, count, few))
