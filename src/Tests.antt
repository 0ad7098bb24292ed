-- ===== src/Tests.antt =====
-- Concrete runs: the theorems applied to inputs, and a store in memory that keeps the drivers'
-- contract.
mod Blocks
mod Names
mod Locks
mod Memory
mod Uploads
pub mod Access
mod Handlers
mod System
mod Files
