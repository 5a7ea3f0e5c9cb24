-- ===== src/Tests.antt =====
-- Runs of the model, and the theorems applied to concrete inputs.
pub mod Values
pub mod Store
pub mod Numbers
pub mod Time
pub mod Checks
pub mod Orders
pub mod Session
pub mod Positions
pub mod Pending
pub mod Service
pub mod Login
pub mod History
pub mod Reads
