-- ===== src/Capacity/Round.antt =====
-- The synthetic clearing round of scripts/lib/clearing-round-capacity.ts, and its message. An account
-- `uniquePublicKey(seed)` is its seed here. The signers, which `Keypair.generate` draws, are left out.
use Prim.Native.Nat.{bit_and}
use agon_protocol.Base.Number.{as_number}
use agon_protocol.Base.{
  ℕ, zero, suc, ◌+◌, ◌-◌, ◌*◌, ◌%◌, ◌/◌, min, max, List, [], ◌∷◌, ◌++◌, Bool, false, ◌||◌, not,
  get_elem?, length, ltb, ◌==◌, if◌then◌else◌, none, some, Outcome, ok, throw, ◌>>◌, require,
  too_few_participants, too_few_channels, too_many_channels, missing_pair,
}
use agon_protocol.Compact.{encode_bytes}
use agon_protocol.Pair.{pair_ordinal, participant_bucket_id}

-- The inner loop of `buildOrderedPairs`: `rounds` more payers, from `payer` on.
unfoldable pub ordered_row : ℕ → ℕ → ℕ → ℕ → List (ℕ × ℕ)
ordered_row zero count offset payer = []
ordered_row (suc rounds) count offset payer =
    (payer, (payer + offset) % count) ∷ ordered_row rounds count offset (payer + 1)

-- The outer loop: `rounds` more offsets.
unfoldable pub ordered_rows : ℕ → ℕ → ℕ → List (ℕ × ℕ)
ordered_rows zero count offset = []
ordered_rows (suc rounds) count offset =
    ordered_row count count offset 0 ++ ordered_rows rounds count (offset + 1)

unfoldable pub build_ordered_pairs : ℕ → List (ℕ × ℕ)
build_ordered_pairs count = ordered_rows (count - 1) count 1

pub record SyntheticBlock : Type 0 where
  pub participant_id : ℕ
  pub payee_refs : List ℕ

pub record SyntheticRound : Type 0 where
  pub participant_buckets : List ℕ
  pub channel_buckets : List ℕ
  pub blocks : List SyntheticBlock

abbrev pub contains : ℕ → List ℕ → Bool
contains x [] = false
contains x (y ∷ ys) = x == y || contains x ys

-- `if (!map.has(id)) { map.set(id, …); accounts.push(…) }`.
abbrev pub push_new : ℕ → List ℕ → List ℕ
push_new account accounts =
    if contains account accounts then accounts else accounts ++ (account ∷ [])

-- `Array.from({ length }, (_, index) => …)`.
unfoldable pub empty_blocks : ℕ → ℕ → List SyntheticBlock
empty_blocks zero index = []
empty_blocks (suc rounds) index =
    record { participant_id = index; payee_refs = [] } ∷ empty_blocks rounds (index + 1)

-- The loop over the blocks that collects the participant buckets.
unfoldable pub collect_participant_buckets : List SyntheticBlock → List ℕ → List ℕ
collect_participant_buckets [] accounts = accounts
collect_participant_buckets (b ∷ bs) accounts =
    collect_participant_buckets bs
      (push_new (1000 + participant_bucket_id b.participant_id) accounts)

-- `channelBucketIdForPair` of this file takes the two participants in order.
unfoldable pub capacity_channel_bucket_id : ℕ → ℕ → ℕ
capacity_channel_bucket_id lower higher = as_number (pair_ordinal lower higher / 46)

-- `blocks[payerIndex].entries.push({ payeeRef })`.
unfoldable pub push_entry : ℕ → ℕ → List SyntheticBlock → List SyntheticBlock
push_entry payer payee [] = []
push_entry zero payee (b ∷ bs) = record b { payee_refs = b.payee_refs ++ (payee ∷ []) } ∷ bs
push_entry (suc payer) payee (b ∷ bs) = b ∷ push_entry payer payee bs

-- One channel: its bucket, if new, and the entry of its payer.
unfoldable pub add_channel : ℕ × ℕ → SyntheticRound → SyntheticRound
add_channel (payer, payee) round = record round {
  channel_buckets =
      push_new (5000 + capacity_channel_bucket_id (min payer payee) (max payer payee))
        round.channel_buckets;
  blocks = push_entry payer payee round.blocks;
}

-- The loop over the channels. `orderedPairs[channelIndex]` past the end is `undefined`, which cannot
-- be taken apart.
unfoldable pub add_channels : ℕ → ℕ → List (ℕ × ℕ) → SyntheticRound → Outcome SyntheticRound
add_channels zero index pairs round = ok round
add_channels (suc rounds) index pairs round = elim (get_elem? pairs index) [
  | none ↦ throw missing_pair
  | some pair ↦ add_channels rounds (index + 1) pairs (add_channel pair round)
]

unfoldable pub build_synthetic_round : ℕ → ℕ → Outcome SyntheticRound
build_synthetic_round participant_count channel_count = do
  require (not (ltb participant_count 3)) too_few_participants
  require (not (ltb channel_count participant_count)) too_few_channels
  require (not (ltb (participant_count * (participant_count - 1)) channel_count)) too_many_channels
  let blocks = empty_blocks participant_count 0
  let start : SyntheticRound = record {
    participant_buckets = collect_participant_buckets blocks [];
    channel_buckets = [];
    blocks = blocks;
  }
  add_channels channel_count 0 (build_ordered_pairs participant_count) start

-- `dynamicParts`, which grows at its end; each amount depends on the length so far.
unfoldable pub push_refs : List ℕ → List ℕ → List ℕ
push_refs [] parts = parts
push_refs (ref ∷ refs) parts =
    let parts' = parts ++ (bit_and ref 0xff ∷ []) in
    push_refs refs (parts' ++ encode_bytes (1_000_000 + length parts'))

unfoldable pub push_blocks : List SyntheticBlock → List ℕ → List ℕ
push_blocks [] parts = parts
push_blocks (b ∷ bs) parts = push_blocks bs (
    push_refs b.payee_refs
      (parts ++ encode_bytes b.participant_id ++ (bit_and (length b.payee_refs) 0xff ∷ [])))

-- The bytes of "ryvo-capacity-v4".
abbrev pub synthetic_message_domain : List ℕ
synthetic_message_domain =
    b'r' ∷ b'y' ∷ b'v' ∷ b'o' ∷ b'-' ∷ b'c' ∷ b'a' ∷ b'p' ∷ b'a' ∷ b'c' ∷ b'i' ∷ b't' ∷ b'y' ∷ b'-'
    ∷ b'v' ∷ b'4' ∷ []

unfoldable pub create_synthetic_message : List SyntheticBlock → ℕ → List ℕ
create_synthetic_message blocks version =
    0x02
    ∷ version % 256
    ∷ (synthetic_message_domain
        ++ (0x01 ∷ 0x00 ∷ bit_and (length blocks) 0xff ∷ push_blocks blocks []))
