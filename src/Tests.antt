-- ===== src/Tests.antt =====
-- Runs of the definitions at concrete inputs.
mod Messages
mod Channels
mod Accounts
mod Rounds
mod Searches
mod Buckets
mod Scalars
mod Graphs
mod Candidates
mod Nodes
mod Settlements
mod Signatures
