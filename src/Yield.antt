-- ===== src/Yield.antt =====
-- shared/yield.ts: amounts of USDC as shares of a yield strategy, and back. The amounts and the index
-- are those of the accounts, which are not negative.
pub mod Rounding
use agon_protocol.Base.{
  ℕ, ◌+◌, ◌*◌, ◌/◌, ◌^◌, ◌==◌, if◌then◌else◌, Outcome, ok, throw, ◌>>=◌, uninitialized_strategy,
}

pub record YieldStrategySnapshot : Type 0 where
  pub user_index_q64 : ℕ

-- `Q64`.
abbrev pub q64 : ℕ
q64 = 2 ^ 64

unfoldable pub usdc_to_ag_shares : YieldStrategySnapshot → ℕ → Outcome ℕ
usdc_to_ag_shares strategy usdc =
    if usdc == 0
    then ok 0
    else if strategy.user_index_q64 == 0
    then throw uninitialized_strategy
    else ok (usdc * q64 / strategy.user_index_q64)

-- `>> 64n` is a division by 2 ^ 64.
unfoldable pub ag_shares_to_usdc : YieldStrategySnapshot → ℕ → ℕ
ag_shares_to_usdc strategy shares =
    if shares == 0 then 0 else shares * strategy.user_index_q64 / 2 ^ 64

unfoldable pub next_commitment_amount_usd : ℕ → ℕ → YieldStrategySnapshot → Outcome ℕ
next_commitment_amount_usd settled_cumulative_shares delta_usdc strategy = do
  new_shares ← usdc_to_ag_shares strategy delta_usdc
  ok (settled_cumulative_shares + new_shares)
