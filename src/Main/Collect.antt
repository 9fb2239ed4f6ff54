-- ===== src/Main/Collect.antt =====
-- The digests that the parent collects.
use dag_blockchain.Prelude.{
  All, Bytes, List, [], ap, ap₂, arith, concat, drop, drop-length, false, length, length-replicate,
  nat_eq, refl, replicate, some, suc, sym, take, take-length, zero, ℕ, ◌++◌, ◌+◌, ◌==◌, ◌>>=◌, ◌∙◌,
  ◌∷◌, ◌≡◌,
}
use dag_blockchain.Network.Outcome.{max_stream_size}
use dag_blockchain.Network.Message.{hex_hash}
use dag_blockchain.Main.{read_pipe, c_string, collect}

-- 64 bytes, none of them zero.
pub record IsDigest (d : Bytes) : Type 0 where
  pub full : length d ≡ hex_hash
  pub nonzero : All (λ b. (b == 0) ≡ false) d

-- The last digest that was read.
abbrev pub last_of : Bytes → List Bytes → Bytes
last_of d [] = d
last_of d (e ∷ ds) = last_of e ds

c_string-text : (d rest : Bytes) → All (λ b. (b == 0) ≡ false) d → c_string (d ++ 0 ∷ rest) ≡ some d
unfolding c_string
c_string-text [] rest ok = refl
c_string-text (b ∷ d) rest ok = rw (c_string, ok.0, c_string-text d rest ok.1) refl

read_pipe-digest :
    (old back d rest : Bytes)
    → length old ≡ hex_hash
    → length d ≡ hex_hash
    → read_pipe (old ++ back) (d ++ rest) ≡ (d ++ back, rest)
unfolding read_pipe
read_pipe-digest old back d rest h full =
    let e : take hex_hash (d ++ rest) ≡ d = take-length d rest hex_hash (sym full) in
    let gone : drop (length d) (old ++ back) ≡ back =
      drop-length old back (length d) (full ∙ sym h) in
    let later : drop hex_hash (d ++ rest) ≡ rest = drop-length d rest hex_hash (sym full) in
    ap₂ (λ t r. (t ++ drop (length t) (old ++ back), r)) e later ∙ ap (λ r. (d ++ r, rest)) gone

-- One digest in the pipe, and one more turn.
collect-next :
    (counter : ℕ) (old back d rest : Bytes)
    → length old ≡ hex_hash
    → IsDigest d
    → collect (suc counter) (old ++ 0 ∷ back) (d ++ rest)
      ≡ (collect counter (d ++ 0 ∷ back) rest >>= λ dags. some (d ∷ dags))
unfolding collect
collect-next counter old back d rest h digest =
    ap (λ r. c_string r.0 >>= λ s. collect counter r.0 r.1 >>= λ dags. some (s ∷ dags))
      (read_pipe-digest old (0 ∷ back) d rest h digest.full)
    ∙ ap (λ o. o >>= λ s. collect counter (d ++ 0 ∷ back) rest >>= λ dags. some (s ∷ dags))
        (c_string-text d back digest.nonzero)

-- Nothing in the pipe: the buffer stays as it is.
collect-rest :
    (counter : ℕ) (d back : Bytes)
    → IsDigest d
    → collect counter (d ++ 0 ∷ back) [] ≡ some (replicate counter d)
unfolding collect read_pipe
collect-rest zero d back digest = refl
collect-rest (suc counter) d back digest =
    rw (collect, c_string-text d back digest.nonzero, collect-rest counter d back digest) refl

collect-more :
    (more : ℕ) (ds : List Bytes) (d back : Bytes)
    → IsDigest d
    → All IsDigest ds
    → collect (length ds + more) (d ++ 0 ∷ back) (concat ds)
      ≡ some (ds ++ replicate more (last_of d ds))
collect-more more [] d back digest ok =
    let e : 0 + more ≡ more = omega arith in
    ap (λ n. collect n (d ++ 0 ∷ back) []) e ∙ collect-rest more d back digest
collect-more more (e ∷ ds) d back digest ok =
    let counter : length (e ∷ ds) + more ≡ suc (length ds + more) = omega arith in
    ap (λ n. collect n (d ++ 0 ∷ back) (e ++ concat ds)) counter
    ∙ collect-next (length ds + more) d back e (concat ds) digest.full ok.0
    ∙ ap (λ o. o >>= λ dags. some (e ∷ dags)) (collect-more more ds e back ok.0 ok.1)

replicate-add : (m n a : ℕ) → replicate (m + n) a ≡ replicate m a ++ replicate n a
replicate-add zero n a = let e : 0 + n ≡ n = omega arith in ap (λ k. replicate k a) e
replicate-add (suc m) n a =
    let e : suc m + n ≡ suc (m + n) = omega arith in
    ap (λ k. replicate k a) e ∙ ap (λ t. a ∷ t) (replicate-add m n a)

zero-buffer :
    replicate {A = ℕ} max_stream_size 0
    ≡ replicate {A = ℕ} hex_hash 0 ++ 0 ∷ replicate {A = ℕ} 65471 0
zero-buffer = replicate-add hex_hash (suc 65471) 0

-- With `more` children that end without a digest, the last one is taken for theirs.
pub collect-digests :
    (more : ℕ) (d : Bytes) (ds : List Bytes)
    → IsDigest d
    → All IsDigest ds
    → collect (length (d ∷ ds) + more) (replicate max_stream_size 0) (concat (d ∷ ds))
      ≡ some (d ∷ ds ++ replicate more (last_of d ds))
collect-digests more d ds digest ok =
    let counter : length (d ∷ ds) + more ≡ suc (length ds + more) = omega arith in
    let front : Bytes = replicate hex_hash 0 in
    let back : Bytes = replicate 65471 0 in
    ap₂ (λ n b. collect n b (d ++ concat ds)) counter zero-buffer
    ∙ collect-next (length ds + more) front back d (concat ds) (length-replicate {A = ℕ} hex_hash 0)
        digest
    ∙ ap (λ o. o >>= λ dags. some (d ∷ dags)) (collect-more more ds d back digest ok)
