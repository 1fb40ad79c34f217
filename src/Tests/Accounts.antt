-- ===== src/Tests/Accounts.antt =====
-- A channel bucket account, read by the scripts.
use agon_protocol.Base.{
  ℕ, zero, suc, ◌+◌, ◌≢◌, List, [], ◌∷◌, ◌++◌, none, some, ok, throw, ◌>>=◌, ◌≡◌, refl, arith,
  leb→le, length, ltb, if◌then◌else◌, out_of_bounds,
}
use agon_protocol.Base.Bytes.{le_bytes, eq_bytes, from_le}
use agon_protocol.Base.Number.{as_number}
use agon_protocol.Pair.{
  pair_ordinal, canonical_participants, channel_bucket_id, channel_bucket_slot_index,
}
use agon_protocol.Channel.{get_directional_lane_state}
use agon_protocol.Account.Buffer.{IsFlag, read_le}
use agon_protocol.Account.Lane.{
  channel_bucket_discriminator, slot_offset, verify_raw_channel_bucket_header,
  read_raw_channel_bucket_state, read_raw_channel_bucket_lane_state,
  read_directional_locked_balance, read_locked_balance,
}
use agon_protocol.Account.LaneLaws.{balances_of}
use agon_protocol.Account.Prefix.{bucket_of}
use agon_protocol.Account.Agreement.{lane_state-channel_state, channel_state_in_bounds}
use agon_protocol.Account.Scripts.{view, scripts_agree}

unfoldable zeros : ℕ → List ℕ → List ℕ
zeros zero rest = rest
zeros (suc n) rest = 0 ∷ zeros n rest

length-zeros : (n : ℕ) (rest : List ℕ) → length (zeros n rest) ≡ n + length rest
unfolding zeros
length-zeros zero rest = omega arith
length-zeros (suc n) rest = omega (arith, length-zeros n rest)

-- Bucket 0 of token 7: its first slot joins 0 and 1, with 500 locked and 120 settled from 0 to 1.
abbrev account : List ℕ
account =
    channel_bucket_discriminator
    ++ (le_bytes 2 7
        ++ (le_bytes 8 0
            ++ (255
                ∷ 1
                ∷ (le_bytes 4 0
                    ++ (le_bytes 4 1
                        ++ (1 ∷ (le_bytes 8 120 ++ (le_bytes 8 500 ++ zeros 10_048 []))))))))

account-header : verify_raw_channel_bucket_header account (channel_bucket_id 0 1) none ≡ ok 7
unfolding verify_raw_channel_bucket_header channel_bucket_id pair_ordinal canonical_participants
    as_number read_le eq_bytes from_le le_bytes
account-header = rw (length-zeros 10_048 []) refl

account-slot : IsFlag account (slot_offset 0 1)
unfolding slot_offset channel_bucket_slot_index pair_ordinal canonical_participants from_le le_bytes
account-slot = leb→le _ 1 refl

account-lane : IsFlag account (slot_offset 0 1 + (if ltb 0 1 then 9 else 114))
unfolding slot_offset channel_bucket_slot_index pair_ordinal canonical_participants from_le le_bytes
account-lane = leb→le _ 1 refl

scripts_agree_example :
    (read_directional_locked_balance (some account) 0 1
      ≡ ok (
          view (do
            channel ← read_raw_channel_bucket_state account 0 1
            get_directional_lane_state channel 0 1)))
    × (read_locked_balance (some account) 0 1
        ≡ ok
            (view (do
              channel ← read_raw_channel_bucket_state account 0 1
              get_directional_lane_state channel 0 1)).locked_balance)
scripts_agree_example =
    scripts_agree account 0 1 7 (λ h. omega arith) account-header account-slot account-lane

lane_state-channel_state_example : read_raw_channel_bucket_lane_state account 0 1 ≡ (do
  channel ← read_raw_channel_bucket_state account 0 1
  lane ← get_directional_lane_state channel 0 1
  ok (balances_of lane))
lane_state-channel_state_example = lane_state-channel_state account 0 1 (λ h. omega arith)

-- A byte stands behind the bucket.
abbrev longer : List ℕ
longer = account ++ (9 ∷ [])

channel_state_in_bounds_example :
    (read_raw_channel_bucket_state longer 0 1 ≢ throw out_of_bounds)
    × (read_raw_channel_bucket_lane_state longer 0 1 ≢ throw out_of_bounds)
    × (read_raw_channel_bucket_state (bucket_of longer) 0 1
        ≡ read_raw_channel_bucket_state longer 0 1)
    × (read_raw_channel_bucket_lane_state (bucket_of longer) 0 1
        ≡ read_raw_channel_bucket_lane_state longer 0 1)
channel_state_in_bounds_example = channel_state_in_bounds longer 0 1
