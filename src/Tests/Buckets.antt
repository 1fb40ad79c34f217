-- ===== src/Tests/Buckets.antt =====
-- A participant bucket account, read by the scripts.
use agon_protocol.Base.{
  ◌^◌, if◌then◌else◌, ltb, lt→ltb, throw, unsafe_number, ℕ, zero, suc, ◌+◌, ◌*◌, ◌<◌, ◌≤◌, List, [],
  ◌∷◌, ◌++◌, Bool, true, ◌&&◌, some, ok, ◌≡◌, refl, arith, leb→le, leb, length,
}
use agon_protocol.Base.Bytes.{le_bytes, eq_bytes, from_le, slice}
use agon_protocol.Pair.{participant_bucket_id, participant_bucket_slot_index}
use agon_protocol.Account.Buffer.{IsFlag, read_le, is_set}
use agon_protocol.Account.Participant.{
  participant_bucket_discriminator, participant_slot_offset, token_balance_loop,
  read_raw_participant_bucket_token_balance, ParticipantSlot, read_participant_slot,
  ParticipantBalance, read_participant_balance,
}
use agon_protocol.Account.LaneLaws.{field}
use agon_protocol.Account.Balances.{balances_agree}
use agon_protocol.Account.Slot.{BigToNumber, fetch_participant_balance}
use agon_protocol.Account.SlotAgreement.{fetch_participant_balance_agrees}
use agon_protocol.Account.Bucket.{read_bucket_balance_for_token}
use agon_protocol.Account.BucketAgreement.{
  viewed, read_bucket_balance_for_token-read_participant_balance,
}

unfoldable blank : ℕ → List ℕ → List ℕ
blank zero rest = rest
blank (suc n) rest = 0 ∷ blank n rest

length-blank : (n : ℕ) (rest : List ℕ) → length (blank n rest) ≡ n + length rest
unfolding blank
length-blank zero rest = omega arith
length-blank (suc n) rest = omega (arith, length-blank n rest)

-- Bucket 0, with participant 0, who has 900 of token 7 available and 50 on the way out.
abbrev bucket : List ℕ
bucket =
    participant_bucket_discriminator
    ++ (le_bytes 4 0
        ++ (255
            ∷ 1
            ∷ blank 32 (
                le_bytes 4 0
                ++ (0
                    ∷ 1
                    ∷ blank 96 (
                        1
                        ∷ (le_bytes 2 7
                            ++ (le_bytes 8 900 ++ (le_bytes 8 50 ++ blank 9_557 []))))))))

bucket-long : 9_724 ≤ length bucket
unfolding blank le_bytes
bucket-long = leb→le 9_724 (length bucket) refl

bucket-inside : (n : ℕ) → n ≤ 9_724 → n ≤ length bucket
bucket-inside n h = let long = bucket-long in omega arith

bucket-slot : IsFlag bucket (participant_slot_offset 0)
unfolding participant_slot_offset participant_bucket_slot_index from_le le_bytes
bucket-slot = leb→le _ 1 refl

entry_byte : ℕ → ℕ
entry_byte i = from_le (slice (13 + 135 + i * 59) (13 + 135 + i * 59 + 1) bucket)

flags_below : ℕ → Bool
flags_below zero = true
flags_below (suc n) = leb (entry_byte n) 1 && flags_below n

flags_below_sound : (n i : ℕ) → flags_below n ≡ true → i < n → leb (entry_byte i) 1 ≡ true
unfolding flags_below
flags_below_sound zero i h less = absurd (omega arith)
flags_below_sound (suc n) i h less = ground (arith, flags_below_sound n i)

bucket-flags : (i : ℕ) → i < 16 → IsFlag bucket (participant_slot_offset 0 + 135 + i * 59)
unfolding participant_slot_offset participant_bucket_slot_index entry_byte flags_below blank from_le
    le_bytes
bucket-flags i less = leb→le _ 1 (flags_below_sound 16 i all_flags less)
  where
    all_flags : flags_below 16 ≡ true
    all_flags = refl

bucket-balance :
    read_raw_participant_bucket_token_balance bucket 0 7
    ≡ ok (record { available = 900; withdrawing = 50 })
unfolding read_raw_participant_bucket_token_balance token_balance_loop participant_slot_offset
    participant_bucket_slot_index participant_bucket_id read_le is_set from_le le_bytes blank
bucket-balance = refl

balances_agree_example :
    (slot : ParticipantSlot) × (read_participant_slot (some bucket) 0 7 ≡ ok (some slot))
    × (slot.initialized ≡ true)
    × (slot.participant_id ≡ 0)
    × (slot.token_available_balance ≡ 900)
    × (r : ParticipantBalance) × (read_participant_balance (some bucket) 0 7 ≡ ok r)
    × (r.available ≡ 900)
    × (r.withdrawing ≡ 50)
unfolding eq_bytes
balances_agree_example =
    balances_agree bucket 0 7 (record { available = 900; withdrawing = 50 }) bucket-long refl
      bucket-slot bucket-flags bucket-balance

read_bucket_balance_for_token-read_participant_balance_example :
    read_bucket_balance_for_token (some bucket) 0 7
    ≡ viewed (read_participant_balance (some bucket) 0 7)
unfolding eq_bytes participant_slot_offset participant_bucket_slot_index field from_le le_bytes
    blank
read_bucket_balance_for_token-read_participant_balance_example =
    read_bucket_balance_for_token-read_participant_balance bucket 0 7
      (bucket-inside 1_092 (omega arith)) refl

abbrev bn : BigToNumber
bn = record {
  to_number = λ value. if ltb value (2 ^ 53) then ok value else throw unsafe_number;
  safe = λ value h. rw (lt→ltb value (2 ^ 53) h) refl;
}

fetch_participant_balance_agrees_example :
    fetch_participant_balance bn bucket 0 7 ≡ ok (record { available = 900; withdrawing = 50 })
fetch_participant_balance_agrees_example =
    fetch_participant_balance_agrees bn bucket 0 7 (record { available = 900; withdrawing = 50 })
      bucket-long (omega arith) (omega arith) bucket-balance
