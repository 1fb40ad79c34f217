-- ===== src/Account/Balances.antt =====
-- The three readers of a participant bucket find the same balance.
use agon_protocol.Base.{
  ℕ, ◌+◌, ◌*◌, ◌≤◌, ◌<◌, List, Bool, true, false, ◌&&◌, some, length, ◌==◌, Outcome, ok, ◌>>◌,
  require, ◌≡◌, refl, sym, ap, ◌∙◌, arith, le→ltb_false, ==_iff, Fault, bucket_id_mismatch,
  participant_not_initialized,
}
use agon_protocol.Base.Bytes.{slice, eq_bytes}
use agon_protocol.Account.Buffer.{is_set, read_le_inside, is_set-flag, IsFlag, read_pubkey}
use agon_protocol.Account.Lane.{reads_one}
use agon_protocol.Account.LaneLaws.{field}
use agon_protocol.Pair.{participant_bucket_slot_index, participant_bucket_id}
use agon_protocol.Account.Participant.{
  participant_bucket_discriminator, participant_slot_offset, TokenBalanceView, token_balance_loop,
  read_raw_participant_bucket_token_balance, ParticipantSlot, available_loop, read_participant_slot,
  ParticipantBalance, balance_loop, read_participant_balance,
}
use agon_protocol.Account.TokenLoops.{taken, loops_agree}

-- The slot of any participant lies inside a bucket of 9 slots.
pub slot_inside : (participant : ℕ) → participant_slot_offset participant + 1079 ≤ 9_724
unfolding participant_slot_offset participant_bucket_slot_index
slot_inside participant = omega arith

accepted :
    (a b c : Bool) (o : Outcome TokenBalanceView) (e f : Fault) (balance : TokenBalanceView)
    → (require a e >> (require (b && c) f >> o)) ≡ ok balance
    → (b ≡ true) × (c ≡ true) × (o ≡ ok balance)
accepted true true true o e f balance h = (refl, refl, h)
accepted true true false o e f balance h = cc
accepted true false c o e f balance h = cc
accepted false b c o e f balance h = cc

reads_one_set :
    (buffer : List ℕ) (offset : ℕ)
    → offset + 1 ≤ length buffer
    → (field 1 buffer offset == 1) ≡ true
    → reads_one buffer offset ≡ ok true
unfolding reads_one field
reads_one_set buffer offset inside set = rw (read_le_inside 1 buffer offset inside) (ap ok set)

module _ (buffer : List ℕ) (participant token : ℕ) (long : 9_724 ≤ length buffer) where
  -- What the demo has checked where it reads a balance.
  pub demo_checked :
      (balance : TokenBalanceView)
      → read_raw_participant_bucket_token_balance buffer participant token ≡ ok balance
      → (is_set buffer (participant_slot_offset participant) ≡ true)
        × ((field 4 buffer (participant_slot_offset participant + 33) == participant) ≡ true)
        × (token_balance_loop 16 (participant_slot_offset participant + 135) token buffer
            ≡ ok balance)
  unfolding read_raw_participant_bucket_token_balance field
  demo_checked balance h =
      let inside = slot_inside participant in
      let slot = participant_slot_offset participant in
      let checks : read_raw_participant_bucket_token_balance buffer participant token ≡ (
          require (field 4 buffer 8 == participant_bucket_id participant) bucket_id_mismatch
          >> (require (is_set buffer slot && field 4 buffer (slot + 33) == participant)
                participant_not_initialized
              >> token_balance_loop 16 (slot + 135) token buffer)) =
        rw
          (
            read_le_inside 4 buffer 8 (omega arith),
            read_le_inside 4 buffer (slot + 33) (omega arith),
          )
          refl in
      accepted (field 4 buffer 8 == participant_bucket_id participant) (is_set buffer slot)
        (field 4 buffer (slot + 33) == participant)
        (token_balance_loop 16 (slot + 135) token buffer) bucket_id_mismatch
        participant_not_initialized balance (sym checks ∙ h)

  abbrev setup_view : ℕ → ParticipantSlot
  setup_view available =
      let slot = participant_slot_offset participant in
      record {
        initialized = true;
        owner = read_pubkey buffer (slot + 1);
        participant_id = field 4 buffer (slot + 33);
        bls_scheme_version = field 1 buffer (slot + 38);
        bls_pubkey_compressed = slice (slot + 39) (slot + 39 + 96) buffer;
        token_available_balance = available;
      }

  module _ (disc : eq_bytes (slice 0 8 buffer) participant_bucket_discriminator ≡ true)
      (slot_flag : IsFlag buffer (participant_slot_offset participant)) where
    setup_reads :
        (available : ℕ)
        → is_set buffer (participant_slot_offset participant) ≡ true
        → available_loop 16 (participant_slot_offset participant + 135) token buffer ≡ ok available
        → read_participant_slot (some buffer) participant token ≡ ok (some (setup_view available))
    unfolding read_participant_slot field
    setup_reads available set run =
        let inside = slot_inside participant in
        let slot = participant_slot_offset participant in
        let one : reads_one buffer slot ≡ ok true =
          reads_one_set buffer slot (omega arith)
            (sym (is_set-flag buffer slot (omega arith) slot_flag) ∙ set) in
        rw
          (
            disc,
            le→ltb_false (slot + 1079) (length buffer) (omega arith),
            one,
            read_le_inside 4 buffer (slot + 33) (omega arith),
            read_le_inside 1 buffer (slot + 38) (omega arith),
            run,
          )
          refl

    drain_reads :
        (r : ParticipantBalance)
        → balance_loop 16 (participant_slot_offset participant + 135) token buffer ≡ ok r
        → read_participant_balance (some buffer) participant token ≡ ok r
    unfolding read_participant_balance
    drain_reads r run = rw (disc, run) refl

-- On a whole participant bucket whose flag bytes are 0 or 1, where the demo reads a balance of a token,
-- the setup script reports the same available balance, in an initialized slot of the participant, and
-- the drain script the same available and withdrawing balances.
pub balances_agree :
    (buffer : List ℕ) (participant token : ℕ) (balance : TokenBalanceView)
    → 9_724 ≤ length buffer
    → eq_bytes (slice 0 8 buffer) participant_bucket_discriminator ≡ true
    → IsFlag buffer (participant_slot_offset participant)
    → ((i : ℕ) → i < 16 → IsFlag buffer (participant_slot_offset participant + 135 + i * 59))
    → read_raw_participant_bucket_token_balance buffer participant token ≡ ok balance
    → (slot : ParticipantSlot) × (read_participant_slot (some buffer) participant token
        ≡ ok (some slot))
      × (slot.initialized ≡ true)
      × (slot.participant_id ≡ participant)
      × (slot.token_available_balance ≡ balance.available)
      × (r : ParticipantBalance) × (read_participant_balance (some buffer) participant token ≡ ok r)
      × (r.available ≡ balance.available)
      × (r.withdrawing ≡ balance.withdrawing)
balances_agree buffer participant token balance long disc slot_flag flags h =
    let inside = slot_inside participant in
    let (set, belongs, demo) = demo_checked buffer participant token long balance h in
    let (r, drained, demoed, set_up) =
      loops_agree buffer token 16 (participant_slot_offset participant + 135) (omega arith) flags in
    let same : taken buffer token r ≡ balance =
      same_view (taken buffer token r) balance (sym demoed ∙ demo) in
    (
      setup_view buffer participant token long r.available,
      setup_reads buffer participant token long disc slot_flag r.available set set_up,
      refl,
      (==_iff _ participant).0 belongs,
      ap (λ v. v.available) same,
      r,
      drain_reads buffer participant token long disc slot_flag r drained,
      ap (λ v. v.available) same,
      ap (λ v. v.withdrawing) same,
    )
  where
    same_view : (v w : TokenBalanceView) → ◌≡◌ {A = Outcome TokenBalanceView} (ok v) (ok w) → v ≡ w
    same_view v w e = cc
