-- ===== src/Examples.antt =====
-- Concrete inputs at which the theorems with conditions hold, one module per part of the program.
pub mod Data
mod Blocks
mod Requests
pub mod Schedules
mod Shapes
mod Stores
mod Admissions
mod Clusters
mod Routes
mod Residents
mod Rendezvous
