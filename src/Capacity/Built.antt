-- ===== src/Capacity/Built.antt =====
-- When a synthetic round is built, and what it holds.
use agon_protocol.Base.{
  le→ltb_false, ℕ, zero, suc, ◌+◌, ◌-◌, ◌*◌, ◌≤◌, ◌<◌, List, [], ◌∷◌, some, get_elem?,
  get_elem?_of_lt, length, length-append, ok, ◌≡◌, ◌↔◌, refl, ap, ◌∙◌, arith,
}
use agon_protocol.Capacity.Round.{
  SyntheticBlock, SyntheticRound, build_ordered_pairs, empty_blocks, push_entry, add_channel,
  add_channels, build_synthetic_round, collect_participant_buckets,
}
use agon_protocol.Capacity.Pairs.{build_ordered_pairs_iff, length-build_ordered_pairs}

-- The number of entries of all blocks.
abbrev pub entry_count : List SyntheticBlock → ℕ
entry_count [] = 0
entry_count (b ∷ bs) = length b.payee_refs + entry_count bs

length-push_entry :
    (payer payee : ℕ) (blocks : List SyntheticBlock)
    → length (push_entry payer payee blocks) ≡ length blocks
unfolding push_entry
length-push_entry payer payee [] = refl
length-push_entry zero payee (b ∷ bs) = refl
length-push_entry (suc payer) payee (b ∷ bs) = ap suc (length-push_entry payer payee bs)

entry_count-push_entry :
    (payer payee : ℕ) (blocks : List SyntheticBlock)
    → payer < length blocks
    → entry_count (push_entry payer payee blocks) ≡ suc (entry_count blocks)
unfolding push_entry
entry_count-push_entry payer payee [] h = absurd (omega arith)
entry_count-push_entry zero payee (b ∷ bs) h =
    omega (arith, length-append b.payee_refs (payee ∷ []))
entry_count-push_entry (suc payer) payee (b ∷ bs) h =
    omega (arith, entry_count-push_entry payer payee bs (omega arith))

length-empty_blocks : (n index : ℕ) → length (empty_blocks n index) ≡ n
unfolding empty_blocks
length-empty_blocks zero index = refl
length-empty_blocks (suc n) index = ap suc (length-empty_blocks n (index + 1))

entry_count-empty_blocks : (n index : ℕ) → entry_count (empty_blocks n index) ≡ 0
unfolding empty_blocks
entry_count-empty_blocks zero index = refl
entry_count-empty_blocks (suc n) index = omega (arith, entry_count-empty_blocks n (index + 1))

add_channels_step :
    (rounds index : ℕ) (pairs : List (ℕ × ℕ)) (round : SyntheticRound) (pair : ℕ × ℕ)
    → get_elem? pairs index ≡ some pair
    → add_channels (suc rounds) index pairs round
      ≡ add_channels rounds (index + 1) pairs (add_channel pair round)
unfolding add_channels
add_channels_step rounds index pairs round pair found = rw (found, add_channels)

-- What the loop over the channels gives on the pairs that are left.
add_channels_lem :
    (rounds index n : ℕ) (round : SyntheticRound)
    → length round.blocks ≡ n
    → index + rounds ≤ n * (n - 1)
    → (result : SyntheticRound) × (add_channels rounds index (build_ordered_pairs n) round
        ≡ ok result)
      × (length result.blocks ≡ n)
      × (entry_count result.blocks ≡ entry_count round.blocks + rounds)
      × (result.participant_buckets ≡ round.participant_buckets)
unfolding add_channels add_channel
add_channels_lem zero index n round hn h = (round, refl, hn, omega arith, refl)
add_channels_lem (suc rounds) index n round hn h =
    let ((payer, payee), found) =
      get_elem?_of_lt (build_ordered_pairs n) index (omega (arith, length-build_ordered_pairs n)) in
    let below = ((build_ordered_pairs_iff n payer payee index).0 found).0 in
    let (result, run, len, total, same) =
      add_channels_lem rounds (index + 1) n (add_channel (payer, payee) round)
        (length-push_entry payer payee round.blocks ∙ hn) (omega arith) in
    (
      result,
      add_channels_step rounds index (build_ordered_pairs n) round (payer, payee) found ∙ run,
      len,
      omega (arith, total, entry_count-push_entry payer payee round.blocks (omega arith)),
      same,
    )

-- A round is built exactly if there are at least three participants, at least as many channels as
-- participants, and at most one channel for each ordered pair. It then has a block for each
-- participant and, in all, an entry for each channel.
pub build_synthetic_round_iff :
    (participants channels : ℕ)
    → ((round : SyntheticRound) × (build_synthetic_round participants channels ≡ ok round)
        × (length round.blocks ≡ participants)
        × (entry_count round.blocks ≡ channels))
      ↔ ((3 ≤ participants)
          × (participants ≤ channels)
          × (channels ≤ participants * (participants - 1)))
unfolding build_synthetic_round
build_synthetic_round_iff participants channels = (
  (λ h. (ground (arith, h.1), ground (arith, h.1), ground (arith, h.1))),
  λ h.
      let start : SyntheticRound = record {
        participant_buckets = collect_participant_buckets (empty_blocks participants 0) [];
        channel_buckets = [];
        blocks = empty_blocks participants 0;
      } in
      let (result, run, len, total, same) =
        add_channels_lem channels 0 participants start (length-empty_blocks participants 0)
          (omega arith) in
      (
        result,
        rw
            (
              le→ltb_false 3 participants h.0,
              le→ltb_false participants channels h.1,
              le→ltb_false channels (participants * (participants - 1)) h.2,
            )
            run,
        len,
        omega (arith, total, entry_count-empty_blocks participants 0),
      ),
)
