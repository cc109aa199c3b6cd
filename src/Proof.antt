-- ===== src/Proof.antt =====
-- implementations/proof/proof: the older proof of concept of Orv.
pub mod Children
pub mod Keeper
pub mod Messages
pub mod Requests
pub mod Endpoints
pub mod Hops
pub mod Runs
pub mod Echo
pub mod Served
