-- ===== src/Account/TokenLoops.antt =====
-- The three loops over the token balances of a participant agree.
use mathlib.Core.Path.{subst}
use agon_protocol.Base.{
  ℕ, zero, suc, ◌+◌, ◌*◌, ◌≤◌, ◌<◌, List, Bool, true, false, ◌&&◌, not, length, ◌==◌, if◌then◌else◌,
  ok, ◌≡◌, refl, ◌∙◌, arith, Bool-cases, inl, inr,
}
use agon_protocol.Base.Bytes.{slice, from_le}
use agon_protocol.Account.Buffer.{
  is_set, read_le_inside, read_i64_inside, is_set-flag, IsFlag, signed64, read_pubkey,
}
use agon_protocol.Account.Lane.{reads_one}
use agon_protocol.Account.LaneLaws.{field}
use agon_protocol.Account.Participant.{
  TokenBalanceView, token_balance_loop, available_loop, ParticipantBalance, balance_loop,
  no_balance,
}

module _ (buffer : List ℕ) (token : ℕ) where
  -- An entry that is in use and holds the token.
  abbrev Holds : Bool → ℕ → Type 0
  Holds answer cursor = (is_set buffer cursor && field 2 buffer (cursor + 1) == token) ≡ answer

  abbrev pub demo_view : ℕ → TokenBalanceView
  demo_view cursor = record {
    available = field 8 buffer (cursor + 3);
    withdrawing = field 8 buffer (cursor + 11);
  }

  abbrev drain_view : ℕ → ParticipantBalance
  drain_view cursor = record {
    available = field 8 buffer (cursor + 3);
    withdrawing = field 8 buffer (cursor + 11);
    withdrawal_unlock_at = signed64 (field 8 buffer (cursor + 19));
    withdrawal_destination = read_pubkey buffer (cursor + 27);
  }

  module _ (rounds cursor : ℕ) (inside : cursor + 59 ≤ length buffer) where
    pub demo_step : token_balance_loop (suc rounds) cursor token buffer ≡ (
        if is_set buffer cursor && field 2 buffer (cursor + 1) == token
        then ok (demo_view cursor)
        else token_balance_loop rounds (cursor + 59) token buffer)
    unfolding token_balance_loop field
    demo_step = rw (
      read_le_inside 2 buffer (cursor + 1) (omega arith),
      read_le_inside 8 buffer (cursor + 3) (omega arith),
      read_le_inside 8 buffer (cursor + 11) (omega arith),
    )

    setup_step :
        IsFlag buffer cursor
        → available_loop (suc rounds) cursor token buffer ≡ (
            if is_set buffer cursor && field 2 buffer (cursor + 1) == token
            then ok (field 8 buffer (cursor + 3))
            else available_loop rounds (cursor + 59) token buffer)
    unfolding available_loop reads_one field
    setup_step flag =
        rw
          (
            is_set-flag buffer cursor (omega arith) flag,
            read_le_inside 1 buffer cursor (omega arith),
            read_le_inside 2 buffer (cursor + 1) (omega arith),
            read_le_inside 8 buffer (cursor + 3) (omega arith),
          )
          (and_if (from_le (slice cursor (cursor + 1) buffer) == 1) _ _ _)
      where
        and_if :
            {A : Type 0} (a b : Bool) (x y : A)
            → (if a then (if b then x else y) else y) ≡ (if a && b then x else y)
        and_if true b x y = refl
        and_if false b x y = refl

    drain_step :
        IsFlag buffer cursor
        → balance_loop (suc rounds) cursor token buffer ≡ (
            if is_set buffer cursor && field 2 buffer (cursor + 1) == token
            then ok (drain_view cursor)
            else balance_loop rounds (cursor + 59) token buffer)
    unfolding balance_loop reads_one field
    drain_step flag =
        rw
          (
            is_set-flag buffer cursor (omega arith) flag,
            read_le_inside 1 buffer cursor (omega arith),
            read_le_inside 2 buffer (cursor + 1) (omega arith),
            read_le_inside 8 buffer (cursor + 3) (omega arith),
            read_le_inside 8 buffer (cursor + 11) (omega arith),
            read_i64_inside buffer (cursor + 19) (omega arith),
          )
          (not_if (from_le (slice cursor (cursor + 1) buffer) == 1) _ _ _)
      where
        not_if :
            {A : Type 0} (a b : Bool) (x y : A)
            → (if not a then y else (if not b then y else x)) ≡ (if a && b then x else y)
        not_if true true x y = refl
        not_if true false x y = refl
        not_if false b x y = refl

  abbrev pub taken : ParticipantBalance → TokenBalanceView
  taken r = record { available = r.available; withdrawing = r.withdrawing }

  pub loops_agree :
      (rounds cursor : ℕ)
      → cursor + rounds * 59 ≤ length buffer
      → ((i : ℕ) → i < rounds → IsFlag buffer (cursor + i * 59))
      → (r : ParticipantBalance) × (balance_loop rounds cursor token buffer ≡ ok r)
        × (token_balance_loop rounds cursor token buffer ≡ ok (taken r))
        × (available_loop rounds cursor token buffer ≡ ok r.available)
  unfolding balance_loop token_balance_loop available_loop
  loops_agree zero cursor inside flags = (no_balance, refl, refl, refl)
  loops_agree (suc rounds) cursor inside flags =
      let fits : cursor + 59 ≤ length buffer = omega arith in
      let flag : IsFlag buffer cursor =
        flag_at (cursor + 0 * 59) cursor (omega arith) (flags 0 (omega arith)) in
      let demo = demo_step rounds cursor fits in
      let setup = setup_step rounds cursor fits flag in
      let drain = drain_step rounds cursor fits flag in
      elim (Bool-cases (is_set buffer cursor && field 2 buffer (cursor + 1) == token)) [
        | inl here ↦
            (drain_view cursor, drain ∙ rw here refl, demo ∙ rw here refl, setup ∙ rw here refl)
        | inr later ↦
            let (r, drained, demoed, set_up) =
              loops_agree rounds (cursor + 59) (omega arith) (λ i less.
                flag_at (cursor + suc i * 59) (cursor + 59 + i * 59) (omega arith)
                  (flags (suc i) (omega arith))) in
            (r, drain ∙ rw later drained, demo ∙ rw later demoed, setup ∙ rw later set_up)
      ]
    where
      flag_at : (m n : ℕ) → m ≡ n → IsFlag buffer m → IsFlag buffer n
      flag_at m n e h = subst (λ (t : ℕ). IsFlag buffer t) e h
