-- ===== src/Platform/Memory.antt =====
-- The tables as lists in memory, with a clock that ticks at every call: an instance of the laws.
mod Ids
mod Instance
pub use Instance.*
