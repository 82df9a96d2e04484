-- ===== src/Store.antt =====
-- Low-level access to the tables (synapse/store/).
pub mod Accounts
pub mod Audit
pub mod Events
pub mod Tasks
pub mod Causal
pub mod Keyed
pub mod Messages
pub mod AuthFailures
pub mod Paging
pub mod Queries
pub mod Cards
pub mod Keys
