-- ===== src/Network/Quorum/Overlap.antt =====
-- How much two quorums of one crowd have in common.
use dag_blockchain.Prelude.{
  Bool, arith, if◌then◌else◌, leb, ltb, min, nat_eq, suc, zero, ℕ, ◌%◌, ◌&&◌, ◌*◌, ◌+◌, ◌-◌, ◌<◌,
  ◌≡◌, ◌≢◌, ◌≤◌,
}
use dag_blockchain.Network.Quorum.{max_byzantines, majority}

-- How many of the first `n` peers are in the set.
unfoldable pub count_members : ℕ → (ℕ → Bool) → ℕ
count_members zero p = 0
count_members (suc n) p = (if p n then 1 else 0) + count_members n p

-- Two sets of peers of one crowd meet in as many peers as their sizes pass the crowd.
count_both :
    (n : ℕ) (p q : ℕ → Bool)
    → count_members n p + count_members n q ≤ n + count_members n (λ i. p i && q i)
unfolding count_members
count_both zero p q = omega arith
count_both (suc n) p q = ground (arith, count_both n p q)

-- In a crowd of 3f + 1 any two sets of a majority have at least one member more in common than
-- there are byzantine peers.
pub quorum_overlap :
    (f crowd : ℕ) (p q : ℕ → Bool)
    → crowd ≡ 3 * f + 1
    → majority crowd ≤ count_members crowd p
    → majority crowd ≤ count_members crowd q
    → max_byzantines crowd + 1 ≤ count_members crowd (λ i. p i && q i)
unfolding majority
quorum_overlap f crowd p q e hp hq = omega (arith, count_both crowd p q)

-- The peers below `k`, those from `j` on, and those that are both.
abbrev pub first_peers : ℕ → ℕ → Bool
first_peers k i = ltb i k

abbrev pub later_peers : ℕ → ℕ → Bool
later_peers j i = leb j i

count_first : (n k : ℕ) → count_members n (first_peers k) ≡ min n k
unfolding count_members
count_first zero k = omega arith
count_first (suc n) k = ground (arith, count_first n k)

count_later : (n j : ℕ) → count_members n (later_peers j) ≡ n - j
unfolding count_members
count_later zero j = omega arith
count_later (suc n) j = ground (arith, count_later n j)

count_middle : (n j k : ℕ) → count_members n (λ i. first_peers k i && later_peers j i) ≡ min n k - j
unfolding count_members
count_middle zero j k = omega arith
count_middle (suc n) j k = ground (arith, count_middle n j k)

-- In a crowd of one or more whose rest by 3 is not 1, the first and the last peers make two sets of
-- a majority that have no more members in common than there may be byzantine peers.
pub quorum_gap :
    (crowd : ℕ)
    → 0 < crowd
    → crowd % 3 ≢ 1
    → (majority crowd ≤ count_members crowd (first_peers (majority crowd)))
      × (majority crowd ≤ count_members crowd (later_peers (crowd - majority crowd)))
      × (count_members crowd
            (λ i. first_peers (majority crowd) i && later_peers (crowd - majority crowd) i)
          ≤ max_byzantines crowd)
unfolding majority
quorum_gap crowd some_peer h = omega (
  arith,
  count_first crowd (majority crowd),
  count_later crowd (crowd - majority crowd),
  count_middle crowd (crowd - majority crowd) (majority crowd),
)
