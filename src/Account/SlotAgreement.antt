-- ===== src/Account/SlotAgreement.antt =====
-- The two ways in which the demo reads the balance of a participant agree.
use agon_protocol.Base.{
  ℕ, zero, suc, ◌+◌, ◌*◌, ◌^◌, ◌≤◌, ◌<◌, List, [], ◌∷◌, Bool, true, false, ◌&&◌, Option, none, some,
  length, ◌==◌, if◌then◌else◌, ok, ◌>>=◌, Bool-cases, inl, inr, ok-injective, ◌≡◌, refl, sym, ap,
  ◌∙◌, arith,
}
use agon_protocol.Account.Buffer.{is_set, read_le_inside, read_i64_inside, signed64, read_pubkey}
use agon_protocol.Account.LaneLaws.{field}
use agon_protocol.Account.Participant.{
  participant_slot_offset, TokenBalanceView, token_balance_loop,
  read_raw_participant_bucket_token_balance,
}
use agon_protocol.Account.TokenLoops.{demo_view, demo_step}
use agon_protocol.Account.Balances.{demo_checked, slot_inside}
use agon_protocol.Account.Slot.{
  BigToNumber, read_balance_entries, read_raw_participant_bucket_slot, find_balance, number_view,
  get_participant_token_balance, fetch_participant_balance,
}
use agon_protocol.Channel.{
  BalanceEntry, TokenBalance, normalize_balances, normalize_participant_bucket_slot,
}

-- The balance that was found, or none.
abbrev found_view : Option TokenBalance → TokenBalanceView
found_view none = record { available = 0; withdrawing = 0 }
found_view (some b) = record {
  available = b.available_balance;
  withdrawing = b.withdrawing_balance;
}

module _ (buffer : List ℕ) (token : ℕ) where
  abbrev entry_view : ℕ → BalanceEntry
  entry_view cursor = record {
    initialized = is_set buffer cursor;
    token_id = field 2 buffer (cursor + 1);
    available_balance = field 8 buffer (cursor + 3);
    withdrawing_balance = field 8 buffer (cursor + 11);
    withdrawal_unlock_at = signed64 (field 8 buffer (cursor + 19));
    withdrawal_destination = read_pubkey buffer (cursor + 27);
  }

  entries_step :
      (rounds cursor : ℕ)
      → cursor + 59 ≤ length buffer
      → read_balance_entries (suc rounds) cursor buffer ≡ (
          read_balance_entries rounds (cursor + 59) buffer >>= λ rest.
          ok (entry_view cursor ∷ rest))
  unfolding read_balance_entries field
  entries_step rounds cursor inside = rw (
    read_le_inside 2 buffer (cursor + 1) (omega arith),
    read_le_inside 8 buffer (cursor + 3) (omega arith),
    read_le_inside 8 buffer (cursor + 11) (omega arith),
    read_i64_inside buffer (cursor + 19) (omega arith),
  )

  -- An entry that is not in use is left out, and one of another token is passed over.
  found_step :
      (e : BalanceEntry) (es : List BalanceEntry)
      → found_view (find_balance token (normalize_balances (e ∷ es))) ≡ (
          if e.initialized && e.token_id == token
          then record { available = e.available_balance; withdrawing = e.withdrawing_balance }
          else found_view (find_balance token (normalize_balances es)))
  unfolding normalize_balances find_balance
  found_step e es = elim (Bool-cases e.initialized) [
    | inl set ↦ elim (Bool-cases (e.token_id == token)) [
      | inl same ↦ rw (set, same) refl
      | inr other ↦ rw (set, other) refl
    ]
    | inr unset ↦ rw unset refl
  ]

  ok_if :
      {A : Type 0} (test : Bool) (x y : A)
      → (if test then ok x else ok y) ≡ ok (if test then x else y)
  ok_if true x y = refl
  ok_if false x y = refl

  entries_found :
      (rounds cursor : ℕ)
      → cursor + rounds * 59 ≤ length buffer
      → (entries : List BalanceEntry) × (read_balance_entries rounds cursor buffer ≡ ok entries)
        × (token_balance_loop rounds cursor token buffer
            ≡ ok (found_view (find_balance token (normalize_balances entries))))
  unfolding read_balance_entries token_balance_loop normalize_balances find_balance
  entries_found zero cursor inside = ([], refl, refl)
  entries_found (suc rounds) cursor inside =
      let (es, read, looped) = entries_found rounds (cursor + 59) (omega arith) in
      let fits : cursor + 59 ≤ length buffer = omega arith in
      (
        entry_view cursor ∷ es,
        entries_step rounds cursor fits
            ∙ ap (λ o. o >>= λ rest. ok (entry_view cursor ∷ rest)) read,
        demo_step buffer token rounds cursor fits
            ∙ ap
                (λ o.
                  if is_set buffer cursor && field 2 buffer (cursor + 1) == token
                  then ok (demo_view buffer token cursor)
                  else o)
                looped
            ∙ ok_if (is_set buffer cursor && field 2 buffer (cursor + 1) == token) _ _
            ∙ ap ok (sym (found_step (entry_view cursor) es)),
      )

number_view-found_view :
    (bn : BigToNumber) (o : Option TokenBalance)
    → (found_view o).available < 2 ^ 53
    → (found_view o).withdrawing < 2 ^ 53
    → number_view bn o ≡ ok (found_view o)
number_view-found_view bn none h k = refl
number_view-found_view bn (some b) h k =
    rw (bn.safe b.available_balance h, bn.safe b.withdrawing_balance k) refl

-- On a whole participant bucket, where `readRawParticipantBucketTokenBalance` reads a balance whose
-- amounts are below 2 ^ 53, the participant that `fetchParticipantById` reads and normalizes has the same
-- balance.
pub fetch_participant_balance_agrees :
    (bn : BigToNumber) (buffer : List ℕ) (participant token : ℕ) (balance : TokenBalanceView)
    → 9_724 ≤ length buffer
    → balance.available < 2 ^ 53
    → balance.withdrawing < 2 ^ 53
    → read_raw_participant_bucket_token_balance buffer participant token ≡ ok balance
    → fetch_participant_balance bn buffer participant token ≡ ok balance
unfolding fetch_participant_balance read_raw_participant_bucket_slot get_participant_token_balance
    normalize_participant_bucket_slot field
fetch_participant_balance_agrees bn buffer participant token balance long small small' h =
    let slot = participant_slot_offset participant in
    let inside = slot_inside participant in
    let (set, belongs, demo) = demo_checked buffer participant token long balance h in
    let (entries, read, looped) = entries_found buffer token 16 (slot + 135) (omega arith) in
    let found = find_balance token (normalize_balances entries) in
    let same : found_view found ≡ balance = ok-injective (sym looped ∙ demo) in
    rw (read_le_inside 4 buffer (slot + 33) (omega arith), set, belongs, read)
      (number_view-found_view bn found (rw same small) (rw same small') ∙ ap ok same)
