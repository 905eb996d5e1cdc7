-- ===== src/Plsql.antt =====
-- The PL/SQL dependency analysis over a fixed corpus: apps/api/app/integrations/plsql/synthetic.py.
pub mod Models
pub mod Client
pub mod Order
pub mod Paths
pub mod Pages
pub mod Impact
pub mod Report
mod Tests
