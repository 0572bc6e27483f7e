-- ===== src/User.antt =====
-- The user programs: a module for each part of user/ that is modelled.
pub mod Grep
pub mod Ulib
pub mod Printf
