-- ===== src/Account/Prefix.antt =====
-- The decoders of a channel bucket read the bytes of a bucket, and none behind them.
use agon_protocol.Base.{
  ℕ, zero, suc, ◌+◌, ◌-◌, ◌≤◌, ◌<◌, List, [], ◌∷◌, none, get_elem?, length, take, drop, ltb,
  if◌then◌else◌, length-take, take_all, le→ltb_false, Outcome-cases, inl, inr, ◌≡◌, refl, sym, ap,
  ◌∙◌, arith,
}
use native.Mathlib.Decide.{dec_lt}
use agon_protocol.Base.Bytes.{slice, from_le}
use agon_protocol.Account.Buffer.{read_le_inside, is_set, signed64}
use agon_protocol.Account.Lane.{
  slot_offset, channel_bucket_space, verify_raw_channel_bucket_header,
  read_raw_channel_bucket_state, read_raw_channel_bucket_lane_state,
}
use agon_protocol.Account.LaneLaws.{
  slot_inside, field, lane_at, balances_of, pair_lower, pair_higher, checked_pair, channel_at,
  state_under_header, balances_under_header,
}
use agon_protocol.Pair.{channel_bucket_id}

take_twice : (m n : ℕ) (xs : List ℕ) → m ≤ n → take m (take n xs) ≡ take m xs
take_twice zero n xs h = refl
take_twice (suc m) zero xs h = absurd (omega arith)
take_twice (suc m) (suc n) [] h = refl
take_twice (suc m) (suc n) (x ∷ xs) h = ap (◌∷◌ x) (take_twice m n xs (omega arith))

take_within :
    (size from n : ℕ) (xs : List ℕ)
    → from + size ≤ n
    → take size (drop from (take n xs)) ≡ take size (drop from xs)
take_within size zero n xs h = take_twice size n xs (omega arith)
take_within size (suc from) zero xs h = absurd (omega arith)
take_within size (suc from) (suc n) [] h = refl
take_within size (suc from) (suc n) (x ∷ xs) h = take_within size from n xs (omega arith)

get_elem?-take : (n i : ℕ) (xs : List ℕ) → i < n → get_elem? (take n xs) i ≡ get_elem? xs i
get_elem?-take zero i xs h = absurd (omega arith)
get_elem?-take (suc n) i [] h = refl
get_elem?-take (suc n) zero (x ∷ xs) h = refl
get_elem?-take (suc n) (suc i) (x ∷ xs) h = get_elem?-take n i xs (omega arith)

unfoldable pub bucket_of : List ℕ → List ℕ
bucket_of buffer = take channel_bucket_space buffer

length-bucket_of : (buffer : List ℕ) → 10093 ≤ length buffer → length (bucket_of buffer) ≡ 10093
unfolding bucket_of
length-bucket_of buffer h = omega (arith, length-take 10093 buffer)

module _ (buffer : List ℕ) where
  slice_of_bucket :
      (from size : ℕ)
      → from + size ≤ 10093
      → slice from (from + size) (bucket_of buffer) ≡ slice from (from + size) buffer
  unfolding bucket_of
  slice_of_bucket from size h =
      let width : from + size - from ≡ size = omega arith in
      ap (λ (n : ℕ). take n (drop from (bucket_of buffer))) width
      ∙ take_within size from 10093 buffer h
      ∙ ap (λ (n : ℕ). take n (drop from buffer)) (sym width)

  field_of_bucket :
      (size offset : ℕ)
      → offset + size ≤ 10093
      → field size (bucket_of buffer) offset ≡ field size buffer offset
  unfolding field
  field_of_bucket size offset h = ap from_le (slice_of_bucket offset size h)

  is_set_of_bucket :
      (offset : ℕ) → offset < 10093 → is_set (bucket_of buffer) offset ≡ is_set buffer offset
  unfolding is_set bucket_of
  is_set_of_bucket offset h = rw (get_elem?-take 10093 offset buffer h) refl

  lane_of_bucket :
      (offset : ℕ)
      → offset + 105 ≤ 10093
      → lane_at (bucket_of buffer) offset ≡ lane_at buffer offset
  unfolding lane_at
  lane_of_bucket offset h = λ i. record {
    initialized = is_set_of_bucket offset (omega arith) i;
    settled_cumulative = field_of_bucket 8 (offset + 1) (omega arith) i;
    locked_balance = field_of_bucket 8 (offset + 9) (omega arith) i;
    authorized_signer = slice_of_bucket (offset + 17) 32 (omega arith) i;
    pending_unlock_amount = field_of_bucket 8 (offset + 49) (omega arith) i;
    unlock_requested_at = signed64 (field_of_bucket 8 (offset + 57) (omega arith) i);
    pending_authorized_signer = slice_of_bucket (offset + 65) 32 (omega arith) i;
    authorized_signer_update_requested_at =
        signed64 (field_of_bucket 8 (offset + 97) (omega arith) i);
  }

  module _ (payer payee : ℕ) where
    slot_of_bucket :
        {A : Type 0} (x y : A)
        → x ≡ y
        → checked_pair (bucket_of buffer) payer payee x ≡ checked_pair buffer payer payee y
    unfolding checked_pair pair_lower pair_higher
    slot_of_bucket x y same =
        let inside = slot_inside payer payee in
        let slot = slot_offset payer payee in
        rw
          (
            is_set_of_bucket slot (omega arith),
            field_of_bucket 4 (slot + 1) (omega arith),
            field_of_bucket 4 (slot + 5) (omega arith),
            same,
          )
          refl

    channel_of_bucket :
        (token : ℕ)
        → channel_at (bucket_of buffer) payer payee token ≡ channel_at buffer payer payee token
    unfolding channel_at
    channel_of_bucket token =
        let inside = slot_inside payer payee in
        let slot = slot_offset payer payee in
        rw (lane_of_bucket (slot + 9) (omega arith), lane_of_bucket (slot + 114) (omega arith)) refl

    header_of_bucket :
        (bucket : ℕ)
        → 10093 ≤ length buffer
        → verify_raw_channel_bucket_header (bucket_of buffer) bucket none
          ≡ verify_raw_channel_bucket_header buffer bucket none
    unfolding verify_raw_channel_bucket_header
    header_of_bucket bucket long =
        let size = length-bucket_of buffer long in
        rw
          (
            le→ltb_false 10093 (length (bucket_of buffer)) (omega arith),
            le→ltb_false 10093 (length buffer) long,
            read_le_inside 2 (bucket_of buffer) 8 (omega arith),
            read_le_inside 2 buffer 8 (omega arith),
            read_le_inside 8 (bucket_of buffer) 10 (omega arith),
            read_le_inside 8 buffer 10 (omega arith),
            slice_of_bucket 0 8 (omega arith),
            slice_of_bucket 8 2 (omega arith),
            slice_of_bucket 10 8 (omega arith),
          )
          refl

    whole_bucket :
        10093 ≤ length buffer
        → (read_raw_channel_bucket_state (bucket_of buffer) payer payee
            ≡ read_raw_channel_bucket_state buffer payer payee)
          × (read_raw_channel_bucket_lane_state (bucket_of buffer) payer payee
              ≡ read_raw_channel_bucket_lane_state buffer payer payee)
    whole_bucket long =
        let bucket = channel_bucket_id payer payee in
        let same = header_of_bucket bucket long in
        elim (Outcome-cases (verify_raw_channel_bucket_header buffer bucket none)) [
          | inl (token, accepted) ↦
              let accepted' = same ∙ accepted in
              let inside = slot_inside payer payee in
              let lane = slot_offset payer payee + (if ltb payer payee then 9 else 114) in
              let lane_fits : lane + 105 ≤ 10093 = ground arith in
              (
                state_under_header (bucket_of buffer) payer payee token accepted'
                    ∙ slot_of_bucket (channel_at (bucket_of buffer) payer payee token)
                        (channel_at buffer payer payee token) (channel_of_bucket token)
                    ∙ sym (state_under_header buffer payer payee token accepted),
                balances_under_header (bucket_of buffer) payer payee token accepted'
                    ∙ slot_of_bucket (balances_of (lane_at (bucket_of buffer) lane))
                        (balances_of (lane_at buffer lane))
                        (ap balances_of (lane_of_bucket lane lane_fits))
                    ∙ sym (balances_under_header buffer payer payee token accepted),
              )
          | inr (e, refused) ↦
              let refused' = same ∙ refused in
              unfold read_raw_channel_bucket_state read_raw_channel_bucket_lane_state in
              rw (refused, refused') (refl, refl)
        ]

    -- A shorter buffer is not cut.
    pub state_of_bucket :
        (read_raw_channel_bucket_state (bucket_of buffer) payer payee
          ≡ read_raw_channel_bucket_state buffer payer payee)
        × (read_raw_channel_bucket_lane_state (bucket_of buffer) payer payee
            ≡ read_raw_channel_bucket_lane_state buffer payer payee)
    state_of_bucket = elim (dec_lt (length buffer) 10093) [
      | no long ↦ whole_bucket (omega arith)
      | yes short ↦
          let all : bucket_of buffer ≡ buffer =
            unfold bucket_of in take_all 10093 buffer (omega arith) in
          (
            ap (λ (b : List ℕ). read_raw_channel_bucket_state b payer payee) all,
            ap (λ (b : List ℕ). read_raw_channel_bucket_lane_state b payer payee) all,
          )
    ]
