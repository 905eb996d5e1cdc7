-- ===== src/Knowledge.antt =====
-- The knowledge base: profiles of documents and their division into chunks
-- (apps/api/app/knowledge).
pub mod Text
pub mod Patterns
pub mod Profiles
pub mod Chunking
mod Tests
