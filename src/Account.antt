-- ===== src/Account.antt =====
-- The accounts of the program as the scripts read them from raw bytes.
pub mod Buffer
pub mod Lane
pub mod LaneLaws
pub mod Prefix
pub mod Agreement
pub mod Scripts
pub mod Participant
pub mod Slot
pub mod SlotAgreement
pub mod Bucket
pub mod BucketAgreement
pub mod TokenLoops
pub mod Balances
