-- ===== src/Recorder/Invariant.antt =====
-- The well-formedness of a draft, and the methods that keep it.
pub mod Lists
pub mod Writes
pub mod Outputs
pub mod Blocks
pub mod Reads
