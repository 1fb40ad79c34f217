-- ===== src/Rpc/Confirm.antt =====
-- The wait for a transaction to be confirmed.
use agon_protocol.Base.{ℕ, ◌+◌, ◌≤◌, ◌<◌, Option, none, some, ◌⊎◌, ◌≡◌}
use agon_protocol.Rpc.{SignatureStatus, Waited, never_confirmed, decide}

module _ (clock : ℕ → ℕ) (status_at : ℕ → Option SignatureStatus) (deadline : ℕ) where
  -- A poll in time that decides nothing.
  abbrev pub Undecided : ℕ → Type 0
  Undecided poll = (clock poll < deadline) × (decide (status_at poll) ≡ none)

  -- What ends the wait: a status that decides, or the deadline.
  abbrev pub Ends : ℕ → Waited → Type 0
  Ends poll waited =
      ((clock poll < deadline) × (decide (status_at poll) ≡ some waited))
      ⊎ ((deadline ≤ clock poll) × (waited ≡ never_confirmed))

  abbrev Runs : ℕ → ℕ → Option Waited → Type 0
  Runs poll polls result =
      (last : ℕ) × (waited : Waited) × (poll ≤ last)
      × (last < poll + polls)
      × (result ≡ some waited)
      × ((n : ℕ) → poll ≤ n → n < last → Undecided n)
      × Ends last waited
