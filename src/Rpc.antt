-- ===== src/Rpc.antt =====
-- How scripts/ryvo-protocol-demo.ts asks an RPC node: `isTransientRpcError`, `withRpcRetry`,
-- `isConfirmationTimeoutError`, `waitForConfirmedSignature`, `selectFeeSponsor`,
-- `createLookupTableForAddresses` and `createLookupTablesForAddresses`. What the node answers is a
-- parameter: a function of the number of the call, or of the key that is asked for. A text is the list
-- of its characters.
pub mod Lookup
pub mod Retry
pub mod Confirm
pub mod Sponsor
pub mod Tables
use agon_protocol.Base.{
  ℕ, zero, suc, ◌+◌, ◌*◌, ◌/◌, Bool, true, false, ◌&&◌, ◌||◌, not, ltb, leb, ◌==◌, if◌then◌else◌,
  Option, none, some, List, [], ◌∷◌, map,
}
use agon_protocol.Keys.{unique_pubkeys}

abbrev pub Text : Type 0
Text = List ℕ

-- What one call does.
pub data Attempt (A : Type 0) : Type 0 where
  returned : A → Attempt A
  raised : Text → Attempt A

unfoldable pub starts_with : Text → Text → Bool
starts_with [] text = true
starts_with (c ∷ cs) [] = false
starts_with (c ∷ cs) (d ∷ ds) = c == d && starts_with cs ds

-- `text.includes(part)`.
unfoldable pub includes : Text → Text → Bool
includes part [] = starts_with part []
includes part (d ∷ ds) = starts_with part (d ∷ ds) || includes part ds

-- `text.toLowerCase()`, of ASCII characters.
unfoldable pub to_lower_case : Text → Text
to_lower_case text = map (λ c. if leb 65 c && leb c 90 then c + 32 else c) text

abbrev pub fetch_failed : Text
fetch_failed =
    b'f' ∷ b'e' ∷ b't' ∷ b'c' ∷ b'h' ∷ b' ' ∷ b'f' ∷ b'a' ∷ b'i' ∷ b'l' ∷ b'e' ∷ b'd' ∷ []

abbrev pub econnreset : Text
econnreset = b'e' ∷ b'c' ∷ b'o' ∷ b'n' ∷ b'n' ∷ b'r' ∷ b'e' ∷ b's' ∷ b'e' ∷ b't' ∷ []

abbrev pub etimedout : Text
etimedout = b'e' ∷ b't' ∷ b'i' ∷ b'm' ∷ b'e' ∷ b'd' ∷ b'o' ∷ b'u' ∷ b't' ∷ []

abbrev pub socket : Text
socket = b's' ∷ b'o' ∷ b'c' ∷ b'k' ∷ b'e' ∷ b't' ∷ []

abbrev pub status_429 : Text
status_429 = b'4' ∷ b'2' ∷ b'9' ∷ []

abbrev pub too_many_requests : Text
too_many_requests =
    b't' ∷ b'o' ∷ b'o' ∷ b' ' ∷ b'm' ∷ b'a' ∷ b'n' ∷ b'y' ∷ b' ' ∷ b'r' ∷ b'e' ∷ b'q' ∷ b'u' ∷ b'e'
    ∷ b's' ∷ b't' ∷ b's' ∷ []

unfoldable pub is_transient_rpc_error : Text → Bool
is_transient_rpc_error error =
    let message = to_lower_case error in
    includes fetch_failed message
    || includes econnreset message
    || includes etimedout message
    || includes socket message
    || includes status_429 message
    || includes too_many_requests message

-- How a retried call ends, and the delays before its later attempts. `gave_up` is the error after the
-- loop, which no attempt reaches.
pub data RetryEnd (A : Type 0) : Type 0 where
  succeeded : A → RetryEnd A
  rethrown : Text → RetryEnd A
  gave_up : RetryEnd A

pub record Retried (A : Type 0) : Type 0 where
  pub end : RetryEnd A
  pub delays : List ℕ

module _ {A : Type 0} (operation : ℕ → Attempt A) (max_attempts : ℕ) where
  -- The attempts from number `attempt` on, of which this many are left.
  unfoldable pub retry_loop : ℕ → ℕ → Retried A
  retry_loop zero attempt = record { end = gave_up; delays = [] }
  retry_loop (suc left) attempt = elim (operation attempt) [
    | returned value ↦ record { end = succeeded value; delays = [] }
    | raised error ↦
        let rest = retry_loop left (attempt + 1) in
        if not (is_transient_rpc_error error) || attempt == max_attempts
        then record { end = rethrown error; delays = [] }
        else record rest { delays = 400 * attempt ∷ rest.delays }
  ]

  unfoldable pub with_rpc_retry : Retried A
  with_rpc_retry = retry_loop max_attempts 1

-- A transaction that the node knows.
pub data Confirmation : Type 0 where
  processed : Confirmation
  confirmed : Confirmation
  finalized : Confirmation

pub record SignatureStatus : Type 0 where
  pub has_error : Bool
  pub confirmation_status : Option Confirmation

pub data Waited : Type 0 where
  recovered : Waited
  landed_but_failed : Waited
  never_confirmed : Waited

unfoldable pub is_confirmed : Option Confirmation → Bool
is_confirmed none = false
is_confirmed (some processed) = false
is_confirmed (some confirmed) = true
is_confirmed (some finalized) = true

-- What a status decides: that the transaction failed, that it was confirmed, or nothing yet.
unfoldable pub decide : Option SignatureStatus → Option Waited
decide none = none
decide (some status) =
    if status.has_error
    then some landed_but_failed
    else if is_confirmed status.confirmation_status
    then some recovered
    else none

-- The loop `while (Date.now() < deadline)`, where `clock` is the time before each poll; `none` if the
-- polls that are allowed run out.
unfoldable pub poll_loop : (ℕ → ℕ) → (ℕ → Option SignatureStatus) → ℕ → ℕ → ℕ → Option Waited
poll_loop clock status_at deadline zero poll = none
poll_loop clock status_at deadline (suc polls) poll =
    let rest = poll_loop clock status_at deadline polls (poll + 1) in
    if ltb (clock poll) deadline
    then elim (decide (status_at poll)) [ some waited ↦ some waited | none ↦ rest ]
    else some never_confirmed

-- Each poll but the last is followed by a sleep of a second.
unfoldable pub wait_for_confirmed_signature :
    (ℕ → ℕ) → (ℕ → Option SignatureStatus) → ℕ → Option Waited
wait_for_confirmed_signature clock status_at timeout_ms =
    poll_loop clock status_at (clock 0 + timeout_ms) (timeout_ms / 1000 + 2) 0

-- The loop over the candidates, whose balance is asked for. `least` is `bestBalance + 1`, which is 0 at
-- first.
unfoldable pub sponsor_loop : (ℕ → ℕ) → List ℕ → Option ℕ → ℕ → Option ℕ
sponsor_loop balance_of [] best least = best
sponsor_loop balance_of (key ∷ keys) best least =
    if leb least (balance_of key)
    then sponsor_loop balance_of keys (some key) (balance_of key + 1)
    else sponsor_loop balance_of keys best least

-- A candidate is the number that its public key stands for.
unfoldable pub select_fee_sponsor : (ℕ → ℕ) → List ℕ → Option ℕ
select_fee_sponsor balance_of candidates =
    sponsor_loop balance_of (unique_pubkeys candidates) none 0
