-- ===== src/Tests.antt =====
-- Runs of the theorems on one small database.
pub mod Data
pub mod Clocks
pub mod Tasks
pub mod Messages
pub mod Access
pub mod Codec
pub mod Cursors
pub mod Validation
pub mod Requests
pub mod Structure
pub mod Cards
