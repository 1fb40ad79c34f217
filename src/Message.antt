-- ===== src/Message.antt =====
-- The messages that clients sign and the program settles.
pub mod Client
pub mod Program
pub mod Rounds
pub mod Settled
pub mod Commitments
