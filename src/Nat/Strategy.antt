-- ===== src/Nat/Strategy.antt =====
-- The strategy table: symmetry, and when each strategy is chosen.
use jrok_rs.Base.{◌≡◌, ◌↔◌, ◌⊎◌, arith}
use jrok_rs.Nat.{NatType, open_nat, symmetric, direct, relay, determine_strategy}

-- The strategy does not depend on which side is the local one.
pub determine_strategy_comm : (l r : NatType) → determine_strategy l r ≡ determine_strategy r l
unfolding determine_strategy
determine_strategy_comm l r = ground arith

-- A direct connection is chosen exactly when one side has no NAT, and the relay exactly when both
-- sides are symmetric.
pub determine_strategy_lem :
    (l r : NatType)
    → ((determine_strategy l r ≡ direct) ↔ ((l ≡ open_nat) ⊎ (r ≡ open_nat)))
      × ((determine_strategy l r ≡ relay) ↔ ((l ≡ symmetric) × (r ≡ symmetric)))
unfolding determine_strategy
determine_strategy_lem l r = ground arith
