-- ===== src/Bytes/Words.antt =====
-- `htonl`, `htobe64` and back, as the bytes that `memcpy` moves: network order, whatever the host.
use dag_blockchain.Prelude.{
  Bytes, [], arith, length, refl, ℕ, ◌%◌, ◌*◌, ◌++◌, ◌+◌, ◌/◌, ◌<◌, ◌^◌, ◌∷◌, ◌≡◌,
}

-- The four bytes of `htonl(n)`; a wider argument is cut to 32 bits by the conversion.
unfoldable pub be32 : ℕ → Bytes
be32 n = n / 2 ^ 24 % 256 ∷ n / 2 ^ 16 % 256 ∷ n / 2 ^ 8 % 256 ∷ n % 256 ∷ []

-- The eight bytes of `htobe64(n)`.
unfoldable pub be64 : ℕ → Bytes
be64 n = be32 (n / 2 ^ 32 % 2 ^ 32) ++ be32 (n % 2 ^ 32)

-- `ntohl` and `be64toh` of the bytes in memory.
read_on : ℕ → Bytes → ℕ
read_on acc [] = acc
read_on acc (b ∷ bs) = read_on (acc * 256 + b) bs

unfoldable pub from_be : Bytes → ℕ
unfolding read_on
from_be = read_on 0

pub length-be32 : (n : ℕ) → length (be32 n) ≡ 4
unfolding be32
length-be32 n = refl

pub length-be64 : (n : ℕ) → length (be64 n) ≡ 8
unfolding be64 be32
length-be64 n = refl

pub from_be-be32 : (n : ℕ) → n < 2 ^ 32 → from_be (be32 n) ≡ n
unfolding from_be be32
from_be-be32 n h = omega arith

pub from_be-be64 : (n : ℕ) → n < 2 ^ 64 → from_be (be64 n) ≡ n
unfolding from_be be64 be32
from_be-be64 n h = omega arith
