-- ===== src/Settlement.antt =====
-- How the program settles a clearing round: `handler` of
-- programs/ryvo-protocol/src/instructions/settle_clearing_round.rs, with the reads and writes of
-- programs/ryvo-protocol/src/state/bucket_state.rs that it uses. The accounts are their slots and lanes,
-- by participant and by payer and payee, with the balances of the token of the round. The two passes
-- over the message are `read_clearing_round`; the BLS operations are parameters.
pub mod Handler
pub mod Positions
pub mod Routes
pub mod Registration
pub mod Delta
pub mod Held
pub mod Moves
pub mod Conserved
pub mod Raised
pub mod Lanes
pub mod Once
use agon_protocol.Base.{
  ℕ, ◌+◌, ◌^◌, Bool, ◌&&◌, not, ltb, ◌==◌, if◌then◌else◌, Option, none, some, List, [], ◌∷◌,
  Outcome, ok, throw, participant_not_found, math_overflow, channel_not_initialized,
}
use agon_protocol.Base.Int.{ℤ, pos, negsuc, sub_ℕ}

-- The balances of the token of the round.
pub record TokenEntry : Type 0 where
  pub available : ℕ
  pub withdrawing : ℕ

-- A participant's slot: its token entry, if there is one, and whether there is room for a new one.
pub record Slot : Type 0 where
  pub participant_id : ℕ
  pub has_owner : Bool
  pub bls_scheme_version : ℕ
  pub bls_pubkey : List ℕ
  pub token : Option TokenEntry
  pub has_room : Bool

pub record ChannelLane : Type 0 where
  pub payer_id : ℕ
  pub payee_id : ℕ
  pub initialized : Bool
  pub settled_cumulative : ℕ
  pub locked_balance : ℕ
  pub pending_unlock_amount : ℕ
  pub unlock_requested_at : ℕ

pub record Store : Type 0 where
  pub slots : List Slot
  pub lanes : List ChannelLane

-- The accounts that follow the named ones, by what they are: a bucket of participants, or one of the
-- channels of the token.
pub data Account : Type 0 where
  participant_bucket : ℕ → Account
  channel_bucket : ℕ → Account
  other_account : Account

-- The account that holds the slot is not kept: slots are found by the participant.
pub record ParticipantRoundState : Type 0 where
  pub participant_id : ℕ
  pub token_total_balance : ℕ
  pub net_position : ℤ

unfoldable pub checked_add_u64 : ℕ → ℕ → Outcome ℕ
checked_add_u64 a b = if ltb (a + b) (2 ^ 64) then ok (a + b) else throw math_overflow

-- `i128::checked_add` and `i128::checked_sub` of a `u64`.
unfoldable pub in_i128 : ℤ → Bool
in_i128 (pos n) = ltb n (2 ^ 127)
in_i128 (negsuc n) = ltb n (2 ^ 127)

unfoldable pub add_u64 : ℤ → ℕ → ℤ
add_u64 (pos n) amount = pos (n + amount)
add_u64 (negsuc n) amount = sub_ℕ amount (n + 1)

unfoldable pub subtract_u64 : ℤ → ℕ → ℤ
subtract_u64 (pos n) amount = sub_ℕ n amount
subtract_u64 (negsuc n) amount = negsuc (n + amount)

unfoldable pub checked_i128 : ℤ → Outcome ℤ
checked_i128 z = if in_i128 z then ok z else throw math_overflow

unfoldable pub find_slot : ℕ → List Slot → Outcome Slot
find_slot id [] = throw participant_not_found
find_slot id (s ∷ ss) = if s.participant_id == id then ok s else find_slot id ss

unfoldable pub token_total : Option TokenEntry → Outcome ℕ
token_total none = ok 0
token_total (some entry) = checked_add_u64 entry.available entry.withdrawing

unfoldable pub is_lane : ℕ → ℕ → ChannelLane → Bool
is_lane payer payee lane = lane.payer_id == payer && lane.payee_id == payee

unfoldable pub find_lane : ℕ → ℕ → List ChannelLane → Outcome ChannelLane
find_lane payer payee [] = throw channel_not_initialized
find_lane payer payee (l ∷ ls) =
    if is_lane payer payee l
    then if l.initialized then ok l else throw channel_not_initialized
    else find_lane payer payee ls
