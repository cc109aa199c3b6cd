-- ===== src/Vk/Handlers.antt =====
-- implementations/slims/slims/vk/handlers.go: the handlers of the packets. A handler takes the
-- header, the body and the sender's address, and returns the new state and the error number, if it
-- failed. Each handler is one step: its critical sections are not interleaved with others. The
-- explanations that an error may carry in its additional info are left out.
pub mod Outcome
pub mod Joining
pub mod Tree
pub mod Services
pub mod Clients
pub mod Status
pub mod Coherence
pub mod Forgetting
pub mod Footprints
pub mod ServiceFootprints
pub mod Waiting
pub mod Invariants
pub mod Preservation
pub mod Admission
pub mod Increments
pub mod Merging
pub mod Dropping
pub mod Answers
pub mod Pruners
pub mod Discovery
pub mod Counting
