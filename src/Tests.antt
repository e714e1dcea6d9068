-- ===== src/Tests.antt =====
-- The theorems at concrete inputs, and runs of the code: a standard library whose `sha256` keeps its
-- input and whose times print as nothing, and short chains.
pub mod Chain
pub mod Config
pub mod Cli
pub mod Host
pub mod Network
pub mod Codec
pub mod Server
pub mod Grow
pub mod Race
pub mod Storage
pub mod Seed
pub mod Sync
pub mod Evidence
pub mod Program
pub mod Peer
