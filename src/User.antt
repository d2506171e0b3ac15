-- ===== src/User.antt =====
-- The user programs.
pub mod Sh
pub mod Grep
