-- ===== src/Store/Refinement.antt =====
-- The store over a database is the store in memory (apps/api/app/store): the relation between their
-- states.
pub mod Rows
pub mod Relation
pub mod Changes
pub mod Leases
pub mod Requests
pub mod Removal
pub mod Deletion
pub mod Messages
pub mod Snoc
pub mod Appending
pub mod Answered
pub mod Pruning
pub mod Listing
pub mod Steps
