-- ===== src/Tests.antt =====
-- The theorems at concrete inputs.
mod Trees
mod Reads
mod Servers
mod Writes
mod Places
mod Soundness
