-- ===== src/Tests/Nodes.antt =====
-- Lists of keys, and the calls of an RPC node.
use mathlib.Core.List.{Sublistᴰ}
use agon_protocol.Base.{
  leb, le→leb, length, ◌++◌, ◌&&◌, flatten, ℕ, ◌+◌, ◌*◌, ◌≤◌, ◌<◌, true, false, ltb, ◌==◌,
  if◌then◌else◌, Option, none, some, List, [], ◌∷◌, map, All, inl, inr, ◌⊎◌, ◌≡◌, refl, arith,
}
use agon_protocol.Keys.{is_seen, unique_loop, unique_pubkeys}
use agon_protocol.Keys.Unique.{NoRepeats, unique_pubkeys_lem}
use agon_protocol.Rpc.{
  Attempt, returned, raised, socket, with_rpc_retry, retry_loop, succeeded, is_transient_rpc_error,
  includes, starts_with, to_lower_case, SignatureStatus, confirmed, select_fee_sponsor,
}
use agon_protocol.Rpc.Lookup.{
  not_a_recent_slot, no_text, TableNode, LookupTable, create_lookup_tables_for_addresses,
}
use agon_protocol.Rpc.Retry.{FailsTransiently, Decides, delays_from, with_rpc_retry_lem}
use agon_protocol.Rpc.Sponsor.{FirstRichest, select_fee_sponsor_lem}
use agon_protocol.Rpc.Tables.{Serves, IsTable, addresses_of, create_lookup_tables_for_addresses_lem}

abbrev keys : List ℕ
keys = 4 ∷ 7 ∷ 4 ∷ 9 ∷ 7 ∷ []

unique_keys : unique_pubkeys keys ≡ 4 ∷ 7 ∷ 9 ∷ []
unfolding unique_loop is_seen
unique_keys = refl

unique_pubkeys_lem_example :
    Sublistᴰ (unique_pubkeys keys) keys
    × NoRepeats (unique_pubkeys keys)
    × ((key : ℕ) → is_seen key (unique_pubkeys keys) ≡ is_seen key keys)
unique_pubkeys_lem_example = unique_pubkeys_lem keys

-- Two transient errors, then an answer.
abbrev flaky : ℕ → Attempt ℕ
flaky attempt = if ltb attempt 3 then raised socket else returned 8

answered : with_rpc_retry flaky 4 ≡ record { end = succeeded 8; delays = 400 ∷ 800 ∷ [] }
unfolding with_rpc_retry retry_loop is_transient_rpc_error includes starts_with to_lower_case
answered = refl

with_rpc_retry_lem_example :
    (count : ℕ) × (count < 4)
    × ((n : ℕ) → 1 ≤ n → n < 1 + count → FailsTransiently flaky 4 n)
    × ((with_rpc_retry flaky 4).delays ≡ delays_from 1 count)
    × Decides flaky 4 (1 + count) (with_rpc_retry flaky 4).end
with_rpc_retry_lem_example = with_rpc_retry_lem flaky 4 (omega arith)

abbrev clock : ℕ → ℕ
clock n = 50 + 1100 * n

abbrev status_at : ℕ → Option SignatureStatus
status_at n =
    if ltb n 2
    then none
    else some (record { has_error = false; confirmation_status = some confirmed })

abbrev balance_of : ℕ → ℕ
balance_of key = if key == 7 then 500 else 20

select_fee_sponsor_lem_example :
    (◌≡◌ {A = List ℕ} keys [] × (select_fee_sponsor balance_of keys ≡ none))
    ⊎ ((sponsor : ℕ) × (select_fee_sponsor balance_of keys ≡ some sponsor)
        × (is_seen sponsor keys ≡ true)
        × ((key : ℕ) → is_seen key keys ≡ true → balance_of key ≤ balance_of sponsor)
        × FirstRichest balance_of (unique_pubkeys keys) sponsor)
select_fee_sponsor_lem_example = select_fee_sponsor_lem balance_of keys

-- The first backoff gives a slot that is not recent.
abbrev node : TableNode
node = record {
  finalized_slot = λ call. 100 + call;
  confirmed_slot = λ call. 200 + call;
  create = λ slot. if slot == 95 then raised not_a_recent_slot else returned [];
  extend = λ table held addresses.
      if leb (length addresses) 20 && leb (length (held ++ addresses)) 256
      then returned (held ++ addresses)
      else raised no_text;
  fetch = λ table held. some held;
}

node-Serves : Serves node
unfolding includes starts_with
node-Serves = record {
  creates = inr (not_a_recent_slot, refl, refl, inl refl);
  extends = λ table held addresses piece room.
      rw (le→leb (length addresses) 20 piece.1, le→leb (length (held ++ addresses)) 256 room) refl;
  fetches = λ table held. refl;
}

create_lookup_tables_for_addresses_lem_example :
    (tables : List LookupTable) × (create_lookup_tables_for_addresses (λ n. node) keys
      ≡ returned tables)
    × (flatten (map addresses_of tables) ≡ unique_pubkeys keys)
    × All IsTable tables
create_lookup_tables_for_addresses_lem_example =
    create_lookup_tables_for_addresses_lem (λ n. node) keys (λ n. node-Serves)
