-- ===== src/Tests.antt =====
-- Runs of the modelled code at concrete inputs, and the theorems applied to such inputs.
mod Bitmaps
pub mod FreeMaps
pub mod Disk
pub mod Caches
mod Locks
mod Strings
mod Orders
mod Descriptors
mod Divisions
mod Inodes
