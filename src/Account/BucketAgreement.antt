-- ===== src/Account/BucketAgreement.antt =====
-- The yield demo reads the balance that the drain script reads.
use agon_protocol.Base.{
  ℕ, zero, suc, ◌+◌, ◌≤◌, List, Bool, true, false, not, some, length, ◌==◌, if◌then◌else◌, Outcome,
  ok, throw, ◌>>=◌, ◌≡◌, refl, arith, le→ltb_false,
}
use agon_protocol.Base.Bytes.{slice, eq_bytes}
use agon_protocol.Account.Buffer.{read_le, read_i64, read_le_inside}
use agon_protocol.Account.Lane.{reads_one}
use agon_protocol.Account.LaneLaws.{field}
use agon_protocol.Account.Participant.{
  participant_bucket_discriminator, participant_slot_offset, ParticipantBalance, balance_loop,
  read_participant_balance,
}
use agon_protocol.Account.Bucket.{
  BucketBalance, no_bucket_balance, bucket_loop, read_bucket_balance_for_token,
}

-- The destination is left out.
abbrev pub bucket_view : ParticipantBalance → BucketBalance
bucket_view r = record {
  available = r.available;
  withdrawing = r.withdrawing;
  withdrawal_unlock_at = r.withdrawal_unlock_at;
}

abbrev pub viewed : Outcome ParticipantBalance → Outcome BucketBalance
viewed o = o >>= λ r. ok (bucket_view r)

viewed_bind :
    {A : Type 0} (o : Outcome A) (f : A → Outcome ParticipantBalance)
    (g : A → Outcome BucketBalance)
    → ((a : A) → g a ≡ viewed (f a))
    → (o >>= g) ≡ viewed (o >>= f)
viewed_bind (ok a) f g h = h a
viewed_bind (throw e) f g h = refl

viewed_if :
    (test : Bool) (x y : Outcome BucketBalance) (v w : Outcome ParticipantBalance)
    → x ≡ viewed v
    → y ≡ viewed w
    → (if test then x else y) ≡ viewed (if test then v else w)
viewed_if true x y v w h k = h
viewed_if false x y v w h k = k

if_not :
    {A : Type 0} (test : Bool) (x y : A) → (if not test then x else y) ≡ (if test then y else x)
if_not true x y = refl
if_not false x y = refl

bucket_loop-balance_loop :
    (rounds cursor token : ℕ) (buffer : List ℕ)
    → bucket_loop rounds cursor token buffer ≡ viewed (balance_loop rounds cursor token buffer)
unfolding bucket_loop balance_loop
bucket_loop-balance_loop zero cursor token buffer = refl
bucket_loop-balance_loop (suc rounds) cursor token buffer =
    let rest = bucket_loop-balance_loop rounds (cursor + 59) token buffer in
    viewed_bind (reads_one buffer cursor) _ _ (λ set. viewed_if (not set) _ _ _ _ rest (
      viewed_bind (read_le 2 buffer (cursor + 1)) _ _ (λ entry.
        viewed_if (not (entry == token)) _ _ _ _ rest (
          viewed_bind (read_le 8 buffer (cursor + 3)) _ _ (λ available.
            viewed_bind (read_le 8 buffer (cursor + 11)) _ _ (λ withdrawing.
              viewed_bind (read_i64 buffer (cursor + 19)) _ _ (λ unlock_at. refl)))))))

-- Where an account with the discriminator of a participant bucket is long enough for the slot of the
-- participant, the yield demo reads what the drain script reads if the first byte of the slot is 1, and
-- reports no balance if it is not.
pub read_bucket_balance_for_token-read_participant_balance :
    (buffer : List ℕ) (participant token : ℕ)
    → participant_slot_offset participant + 1079 ≤ length buffer
    → eq_bytes (slice 0 8 buffer) participant_bucket_discriminator ≡ true
    → read_bucket_balance_for_token (some buffer) participant token ≡ (
        if field 1 buffer (participant_slot_offset participant) == 1
        then viewed (read_participant_balance (some buffer) participant token)
        else ok no_bucket_balance)
unfolding read_bucket_balance_for_token read_participant_balance reads_one field
read_bucket_balance_for_token-read_participant_balance buffer participant token long disc =
    let slot = participant_slot_offset participant in
    rw
      (
        le→ltb_false (slot + 1079) (length buffer) long,
        read_le_inside 1 buffer slot (omega arith),
        disc,
        bucket_loop-balance_loop 16 (slot + 135) token buffer,
      )
      (if_not (field 1 buffer slot == 1) _ _)
