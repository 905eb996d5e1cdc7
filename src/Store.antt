-- ===== src/Store.antt =====
-- The stores of conversations: the one in memory, the one over a database, and that they agree
-- (apps/api/app/store).
pub mod Models
pub mod Dict
pub mod Names
pub mod Exchanges
pub mod Memory
pub mod Tables
pub mod Sql
pub mod Refinement
pub mod Pages
pub mod History
pub mod Held
pub mod Exclusion
mod Tests
