-- ===== src/Tests.antt =====
-- The theorems at concrete inputs: tables in memory, one remote side, and a run of each theorem.
mod Memory
mod Data
mod Updates
mod Pools
mod Requests
mod Documents
mod Paths
mod Replies
mod Served
mod Figures
mod Threads
