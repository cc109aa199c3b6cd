-- ===== src/Vk.antt =====
-- implementations/slims/slims/vk: the Vaultkeeper of the Slims variant.
pub mod Table
pub mod State
pub mod Timers
pub mod Providers
pub mod Children
pub mod Handlers
pub mod Dispatch
pub mod Requests
pub mod Registry
pub mod Interleaved
pub mod Options
