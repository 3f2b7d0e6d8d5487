-- ===== src/Checks.antt =====
-- Small concrete models of the planner's data, with tests of its operations and the theorems at them.
pub mod Models
mod States
mod Planning
mod Graphs
mod Interfaces
mod Beliefs
mod Objects
mod Stores
mod Scripts
mod Robots
mod Networks
