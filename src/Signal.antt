-- ===== src/Signal.antt =====
-- lib/baileys_ex/signal: the addresses of the Signal protocol, and the store in memory.
pub mod Address
pub mod AddressLaws
pub mod Table
pub mod Memory
pub mod MemoryLaws
pub mod MemoryShows
pub mod MemoryReads
mod Tests
