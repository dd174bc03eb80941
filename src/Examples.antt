-- ===== src/Examples.antt =====
-- Concrete instances of the interfaces, runs of the code on them, and the theorems applied there.
pub mod Toy
mod Dealings
mod Rounds
mod Reshares
mod Identities
mod Ceremonies
mod Circuits
mod Statements
mod Hazards
mod Quorums
mod Subsets
mod Votes
