-- ===== src/CompressedBits.antt =====
-- Run-length encoded bit arrays: tf/compressedBits.h and tf/compressedBits.cpp.
-- `Defs` holds the record, its invariant and what it stands for; the other children hold the operations.
pub mod Defs
pub mod Expand
pub mod Logical
pub mod Positions
pub mod Queries
pub mod Operators
pub mod Canonical
pub mod Editing
pub mod Text
pub mod Views
mod Tests
