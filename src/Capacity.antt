-- ===== src/Capacity.antt =====
-- scripts/lib/clearing-round-capacity.ts and scripts/lib/unilateral-settlement-capacity.ts: how large
-- a settlement fits a packet.
pub mod Round
pub mod Pairs
pub mod Measure
pub mod Built
pub mod Search
pub mod Unilateral
