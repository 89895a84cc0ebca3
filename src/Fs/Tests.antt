-- ===== src/Fs/Tests.antt =====
mod Cached
mod Maps
mod Disks
mod Files
mod Names
mod Commands

-- The theorems on fs/ at concrete values.
