-- ===== src/Examples.antt =====
-- Tables, texts and Vaultkeepers at which the definitions are run, and each property applied.
pub mod Tables
pub mod State
pub mod Codec
pub mod Children
pub mod Handlers
pub mod Runs
pub mod Client
pub mod Interleaved
pub mod Proof
pub mod ProofKeeper
pub mod ProofRuns
pub mod ProofBranch
