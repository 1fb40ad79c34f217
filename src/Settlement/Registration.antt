-- ===== src/Settlement/Registration.antt =====
-- The first pass of a settlement: the participants and their accounts are registered, and their keys added.
use agon_protocol.Base.{
  ℕ, ◌+◌, Bool, false, not, ◌==◌, if◌then◌else◌, Option, none, some, List, [], ◌∷◌, ◌++◌, length,
  get_elem?, Outcome, ok, throw, ◌>>=◌, ◌>>◌, require, invalid_clearing_round_message,
  participant_not_found, participant_bls_key_not_found, account_bls_key_mismatch,
}
use agon_protocol.Base.Int.{pos}
use agon_protocol.Keys.{is_seen}
use agon_protocol.Message.Program.{ChannelEntry}
use agon_protocol.Pair.{participant_bucket_id}
use agon_protocol.Settlement.{
  Slot, Store, Account, participant_bucket, channel_bucket, ParticipantRoundState, find_slot,
  token_total,
}

-- The index of an account is bound on its first use: it is the next one, and must be that account.
unfoldable pub is_account : Account → Account → Bool
is_account (participant_bucket a) (participant_bucket b) = a == b
is_account (channel_bucket a) (channel_bucket b) = a == b
is_account _ _ = false

unfoldable pub bind_account : List Account → (ℕ → Account) → ℕ → ℕ → List ℕ → Outcome (List ℕ)
bind_account remaining account first_index bucket bound =
    if is_seen bucket bound
    then ok bound
    else elim (get_elem? remaining (first_index + length bound)) [
      | none ↦ throw invalid_clearing_round_message
      | some given ↦
          if is_account given (account bucket)
          then ok (bound ++ (bucket ∷ []))
          else throw invalid_clearing_round_message
    ]

-- The BLS operations: a key is added to an aggregate, and a signature is verified.
pub record Bls (K : Type 0) : Type 0 where
  pub aggregate : Option K → List ℕ → Outcome K
  pub verify : List ℕ → List ℕ → K → Outcome (Unit {0})

-- What the first loop has collected.
pub record Registered (K : Type 0) : Type 0 where
  pub states : List ParticipantRoundState
  pub seen_ids : List ℕ
  pub buckets : List ℕ
  pub aggregate_pubkey : Option K

module _ {K : Type 0} (bls : Bls K) (store : Store) (remaining : List Account) where
  -- The key of a participant counts if it pays.
  unfoldable pub add_key : Option K → Slot → List ChannelEntry → Outcome (Option K)
  add_key aggregate slot [] = ok aggregate
  add_key aggregate slot (e ∷ es) = do
    require (not (slot.bls_scheme_version == 0)) participant_bls_key_not_found
    require (slot.bls_scheme_version == 1) account_bls_key_mismatch
    key ← bls.aggregate aggregate slot.bls_pubkey
    ok (some key)

  unfoldable pub register_block : Registered K → ℕ × List ChannelEntry → Outcome (Registered K)
  register_block r (id, entries) = do
    require (not (is_seen id r.seen_ids)) invalid_clearing_round_message
    buckets ← bind_account remaining participant_bucket 0 (participant_bucket_id id) r.buckets
    slot ← find_slot id store.slots
    total ← token_total slot.token
    require slot.has_owner participant_not_found
    key ← add_key r.aggregate_pubkey slot entries
    ok (record {
      states =
          r.states
          ++ (record { participant_id = id; token_total_balance = total; net_position = pos 0 }
              ∷ []);
      seen_ids = id ∷ r.seen_ids;
      buckets = buckets;
      aggregate_pubkey = key;
    })

  unfoldable pub register_blocks :
      Registered K → List (ℕ × List ChannelEntry) → Outcome (Registered K)
  register_blocks r [] = ok r
  register_blocks r (b ∷ bs) = register_block r b >>= λ r'. register_blocks r' bs
