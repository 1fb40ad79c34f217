-- ===== src/Settlement/Handler.antt =====
-- The handler that settles a clearing round, from its message to the balances.
use agon_protocol.Base.{
  ℕ, ◌+◌, ◌==◌, Option, none, some, List, [], length, Outcome, ok, throw, ◌>>=◌, ◌>>◌, Fault,
  require, invalid_clearing_round_message, participant_bls_key_not_found,
}
use agon_protocol.Message.Program.{read_clearing_round}
use agon_protocol.Settlement.{Store, Account}
use agon_protocol.Settlement.Registration.{Bls, register_blocks}
use agon_protocol.Settlement.Routes.{settle_blocks}
use agon_protocol.Settlement.Positions.{check_positions, apply_positions}

-- `option.ok_or(error)`.
abbrev pub ok_or : {A : Type 0} → Option A → Fault → Outcome A
ok_or none fault = throw fault
ok_or (some value) fault = ok value

-- The store after the round, and the totals that the event names.
pub record Settled : Type 0 where
  pub store : Store
  pub total_gross : ℕ
  pub total_net_adjusted : ℕ

-- The round of a registered token, in a transaction that is not a call from another program. A fault
-- leaves the accounts as they were.
module _ {K : Type 0} (bls : Bls K) (domain : List ℕ) (store : Store)
    (remaining : List Account) where
  unfoldable pub settle_clearing_round : List ℕ → List ℕ → Outcome Settled
  settle_clearing_round message signature = do
    (token_id, blocks) ← read_clearing_round message domain
    registered ←
        register_blocks bls store remaining
          (record { states = []; seen_ids = []; buckets = []; aggregate_pubkey = none }) blocks
    key ← ok_or registered.aggregate_pubkey participant_bls_key_not_found
    bls.verify message signature key
    routed ←
        settle_blocks remaining (length registered.buckets) 0
          (record {
            states = registered.states;
            lanes = store.lanes;
            channel_buckets = [];
            total_gross = 0;
          })
          blocks
    require (length registered.buckets + length routed.channel_buckets == length remaining)
        invalid_clearing_round_message
    net ← check_positions 0 routed.states
    slots ← apply_positions store.slots routed.states
    ok (record {
      store = record { slots = slots; lanes = routed.lanes };
      total_gross = routed.total_gross;
      total_net_adjusted = net;
    })
