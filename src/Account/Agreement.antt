-- ===== src/Account/Agreement.antt =====
-- The scripts read the same from a channel bucket, and nothing out of bounds.
use agon_protocol.Base.{
  ℕ, List, Option, none, Outcome, ok, throw, ◌>>=◌, Outcome-cases, ◌≡◌, ◌≢◌, inl, inr, arith,
  out_of_bounds, Fault, sym, ap, ◌∙◌,
}
use agon_protocol.Channel.{PairChannel, get_directional_lane_state}
use agon_protocol.Account.Buffer.{read_le}
use agon_protocol.Pair.{channel_bucket_id}
use agon_protocol.Account.Lane.{
  Lane, Balances, verify_raw_channel_bucket_header, read_raw_channel_bucket_state,
  read_raw_channel_bucket_lane_state,
}
use agon_protocol.Account.Prefix.{bucket_of, state_of_bucket}
use agon_protocol.Account.LaneLaws.{
  channel_at, checked_pair_bind, checked_pair_fault, balances_of, state_under_header,
  balances_under_header, lane_of_channel,
}

-- For two distinct participants the lane reader of the verification gives, on every buffer, what the
-- full decoder and `getDirectionalLaneState` give: the same balances, or the same error.
pub lane_state-channel_state :
    (buffer : List ℕ) (payer payee : ℕ)
    → payer ≢ payee
    → read_raw_channel_bucket_lane_state buffer payer payee ≡ (do
      channel ← read_raw_channel_bucket_state buffer payer payee
      lane ← get_directional_lane_state channel payer payee
      ok (balances_of lane))
lane_state-channel_state buffer payer payee distinct =
    elim (Outcome-cases
      (verify_raw_channel_bucket_header buffer (channel_bucket_id payer payee) none)) [
        | inl (token, accepted) ↦
            let k : PairChannel Lane → Outcome Balances = λ channel.
              get_directional_lane_state channel payer payee >>= λ lane. ok (balances_of lane) in
            balances_under_header buffer payer payee token accepted
            ∙ sym (
                checked_pair_bind buffer payer payee (channel_at buffer payer payee token) k (
                  ap (λ r. r >>= λ lane. ok (balances_of lane))
                    (lane_of_channel buffer payer payee token accepted distinct)))
            ∙ ap (λ r. r >>= k) (sym (state_under_header buffer payer payee token accepted))
        | inr (e, refused) ↦
            unfold read_raw_channel_bucket_lane_state read_raw_channel_bucket_state in rw refused
      ]

header_fault :
    (buffer : List ℕ) (bucket : ℕ) (expected : Option ℕ)
    → verify_raw_channel_bucket_header buffer bucket expected ≢ throw out_of_bounds
unfolding verify_raw_channel_bucket_header read_le
header_fault buffer bucket expected h = ground arith

same_fault : {A : Type 0} (e f : Fault) → ◌≡◌ {A = Outcome A} (throw e) (throw f) → e ≡ f
same_fault e f h = cc

no_fault :
    (buffer : List ℕ) (payer payee : ℕ)
    → (read_raw_channel_bucket_state buffer payer payee ≢ throw out_of_bounds)
      × (read_raw_channel_bucket_lane_state buffer payer payee ≢ throw out_of_bounds)
no_fault buffer payer payee =
    elim (Outcome-cases
      (verify_raw_channel_bucket_header buffer (channel_bucket_id payer payee) none)) [
        | inl (token, accepted) ↦ (
          rw (state_under_header buffer payer payee token accepted)
              (checked_pair_fault buffer payer payee (channel_at buffer payer payee token)),
          rw (balances_under_header buffer payer payee token accepted)
              (checked_pair_fault buffer payer payee _),
        )
        | inr (e, refused) ↦
            unfold read_raw_channel_bucket_lane_state read_raw_channel_bucket_state in
            rw refused (
              (λ h. header_fault buffer _ none (refused ∙ ap throw (same_fault e _ h))),
              (λ h. header_fault buffer _ none (refused ∙ ap throw (same_fault e _ h))),
            )
      ]

-- Whatever a buffer holds, neither decoder of a channel bucket makes a read that throws because it is out
-- of bounds, and both give the same for the buffer as for its first 10093 bytes, which are one bucket: no
-- read, of a flag or a key either, goes beyond them.
pub channel_state_in_bounds :
    (buffer : List ℕ) (payer payee : ℕ)
    → (read_raw_channel_bucket_state buffer payer payee ≢ throw out_of_bounds)
      × (read_raw_channel_bucket_lane_state buffer payer payee ≢ throw out_of_bounds)
      × (read_raw_channel_bucket_state (bucket_of buffer) payer payee
          ≡ read_raw_channel_bucket_state buffer payer payee)
      × (read_raw_channel_bucket_lane_state (bucket_of buffer) payer payee
          ≡ read_raw_channel_bucket_lane_state buffer payer payee)
channel_state_in_bounds buffer payer payee =
    let (state, balances) = no_fault buffer payer payee in
    let (same_state, same_balances) = state_of_bucket buffer payer payee in
    (state, balances, same_state, same_balances)
