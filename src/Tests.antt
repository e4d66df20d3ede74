-- ===== src/Tests.antt =====
-- The theorems at concrete inputs, with small instances of the crates that the program calls.
mod Samples
mod Keys
mod Calls
mod Types
mod Extrinsics
mod Messages
mod Nodes
mod Apis
mod Composed
mod Decoded
mod Reported
mod Runtimes
mod Prefixed
mod Records
mod Chains
mod Sockets
mod Subscriptions
mod Threads
mod Entries
mod Events
