-- ===== src/Vertex/Key.antt =====
-- The name of a vertex: the SHA-256 of the decimal round followed by the decimal peer id.
use dag_blockchain.Prelude.{
  Bytes, [], ap, append_assoc, append_inj_right, arith, length, sym, ℕ, ◌*◌, ◌++◌, ◌+◌, ◌<◌, ◌∙◌,
  ◌∷◌, ◌≡◌,
}
use dag_blockchain.Prelude.Int.{pos, ℤ}
use dag_blockchain.Bytes.Decimal.{
  to_string_ℤ_injective, to_string_injective, to_string, to_string_ℤ, to_string-snoc, extend,
  to_string-extend, to_string-IsDigit, to_string_digit,
}
use dag_blockchain.Vertex.{Vertex, Crypto, key, hash, hash_256}

pub length-hash_256 : (crypto : Crypto) (input : Bytes) → length (hash_256 crypto input) ≡ 64
unfolding hash_256
length-hash_256 crypto input =
    omega (arith, crypto.length-sha256 input, crypto.length-hex_encode (crypto.sha256 input))

-- Among peers whose ids have equally many digits, the text that is hashed to name a vertex
-- determines its round and its peer.
pub key_injective :
    (r s : ℤ) (p q : ℕ)
    → length (to_string p) ≡ length (to_string q)
    → key r p ≡ key s q
    → (r ≡ s) × (p ≡ q)
unfolding key
key_injective r s p q same e =
    let (rounds, peers) =
      append_inj_right (to_string_ℤ r) (to_string_ℤ s) (to_string p) (to_string q) same e in
    (to_string_ℤ_injective r s rounds, to_string_injective p q peers)

-- For a vertex in a round of two digits or more whose last digit is not 0, the vertex of the round
-- without this digit, from the peer whose id has this digit in front, has the same hash.
pub hash_collision :
    (crypto : Crypto) (v : Vertex) (r d p : ℕ)
    → 0 < r
    → 0 < d
    → d < 10
    → v.round ≡ pos (r * 10 + d)
    → v.peer_id ≡ p
    → hash crypto (record v { round = pos r; peer_id = extend d (to_string p) }) ≡ hash crypto v
unfolding hash key to_string_ℤ
hash_collision crypto v r d p hr hd small round peer =
    rw (round, peer)
      (ap (hash_256 crypto) (
        ap (λ t. to_string r ++ t)
          (to_string-extend d (to_string p) hd (to_string-IsDigit p)
            ∙ ap (λ t. t ++ to_string p) (to_string_digit d small))
        ∙ sym (append_assoc (to_string r) ((48 + d) ∷ []) (to_string p))
        ∙ ap (λ t. t ++ to_string p) (sym (to_string-snoc r d hr small))))
