-- ===== src/Arbitrage/Staking.antt =====
-- arbitrage/staking.py: the constraints of stakes and `allocate_stakes`; its parts are in the children.
pub mod Constraints
pub mod Target
pub mod Search
pub mod Terminates
pub mod Allocate
pub mod Progress
pub mod Rows
pub mod Sound
pub mod Tests
