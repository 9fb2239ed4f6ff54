-- ===== src/Network/Quorum.antt =====
-- The number of tolerated peers and the quorum, which the server and the peer compute each.
pub mod Overlap
use dag_blockchain.Prelude.{ℕ, ◌*◌, ◌+◌, ◌-◌, ◌/◌}

-- std::ceil((double)crowd / 3 - 1) for a crowd of one or more. The quotient is 1/3 away from a whole
-- number at least, or whole, so its rounding does not change the ceiling.
unfoldable pub max_byzantines : ℕ → ℕ
max_byzantines crowd = (crowd + 2) / 3 - 1

-- 2 * byzantines + 1
unfoldable pub majority : ℕ → ℕ
unfolding max_byzantines
majority crowd = 2 * max_byzantines crowd + 1
