-- ===== src/Settlement/Moves.antt =====
-- Each entry of a round moves an amount: what participants earn more than they owe, lanes release.
use mathlib.Core.Path.{subst}
use agon_protocol.Base.{
  ℕ, zero, suc, ◌+◌, ◌-◌, ◌<◌, min, not, ltb, ◌==◌, some, List, [], ◌∷◌, map, get_elem?, ok, ◌>>=◌,
  from_bind, from_require, ltb→lt, ◌>>◌, require, ok-injective, ◌≡◌, ap, arith,
  invalid_clearing_round_message, self_channel, commitment_amount_must_increase,
}
use agon_protocol.Base.Int.{ℤ}
use agon_protocol.Keys.{is_seen}
use agon_protocol.Message.Program.{ChannelEntry}
use agon_protocol.Settlement.{
  Account, channel_bucket, ParticipantRoundState, checked_add_u64, add_u64, subtract_u64,
  checked_i128, find_lane,
}
use agon_protocol.Settlement.Routes.{
  bucket_id_for_pair, Routing, Route, move_amount, route_entry, set_position, state_at, set_lane,
  settled_lane, settle_entry, settle_entries, settle_blocks,
}
use agon_protocol.Settlement.Registration.{bind_account}
use agon_protocol.Settlement.Delta.{
  earned, owed, earned-add_u64, earned-subtract_u64, checked_i128-ok, total_of,
  total_of-set_position, locked_in, locked_balance-settled_lane, locked_in-set_lane,
}

-- What participants earn more than they owe is what the lanes release.
abbrev pub Moves : Routing → Routing → Type 0
Moves r r' =
    total_of earned r'.states + total_of owed r.states + locked_in r'.lanes
    ≡ total_of earned r.states + total_of owed r'.states + locked_in r.lanes

-- What the checks of an entry find.
abbrev pub ids_of : List ParticipantRoundState → List ℕ
ids_of states = map (λ s. s.participant_id) states

pub get_elem?-ids_of :
    (states : List ParticipantRoundState) (i : ℕ) (s : ParticipantRoundState)
    → state_at states i ≡ ok s
    → get_elem? (ids_of states) i ≡ some s.participant_id
get_elem?-ids_of [] i s h = cc
get_elem?-ids_of (x ∷ xs) zero s h = cc
get_elem?-ids_of (x ∷ xs) (suc i) s h = get_elem?-ids_of xs i s h

abbrev pub Found : ℕ → Routing → ChannelEntry → Route → Type 0
Found block_index r entry route =
    (state_at r.states block_index ≡ ok route.payer)
    × (find_lane route.payer.participant_id route.payee_id r.lanes ≡ ok route.lane)
    × (route.lane.settled_cumulative < entry.target_cumulative)
    × (get_elem? (ids_of r.states) entry.payee_ref ≡ some route.payee_id)

module _ (remaining : List Account) (participant_buckets : ℕ) where
  pub route_entry-Found :
      (block_index : ℕ) (seen : List ℕ) (r : Routing) (entry : ChannelEntry) (route : Route)
      → route_entry remaining participant_buckets block_index seen r entry ≡ ok route
      → Found block_index r entry route
  unfolding route_entry
  route_entry-Found block_index seen r entry route h =
      from_bind (state_at r.states entry.payee_ref) _ route h (λ payee at_payee h₁.
        from_require (not (is_seen entry.payee_ref seen)) invalid_clearing_round_message _ route h₁
          (λ unseen h₂.
            from_bind (state_at r.states block_index) _ route h₂
              (λ payer at_payer h₃. found_lane payer payee at_payer at_payee h₃)))
    where
      found_lane :
          (payer payee : ParticipantRoundState)
          → state_at r.states block_index ≡ ok payer
          → state_at r.states entry.payee_ref ≡ ok payee
          → (do
            require (not (payer.participant_id == payee.participant_id)) self_channel
            buckets ←
                bind_account remaining channel_bucket participant_buckets
                  (bucket_id_for_pair payer.participant_id payee.participant_id)
                  r.channel_buckets
            lane ← find_lane payer.participant_id payee.participant_id r.lanes
            require
                (ltb lane.settled_cumulative entry.target_cumulative)
                commitment_amount_must_increase
            ok (record {
              payer = payer;
              payee_id = payee.participant_id;
              channel_buckets = buckets;
              lane = lane;
            }))
            ≡ ok route
          → Found block_index r entry route
      found_lane payer payee at_payer at_payee h₃ =
          from_require (not (payer.participant_id == payee.participant_id)) self_channel _ route h₃
            (λ differ h₄.
              from_bind
                (bind_account remaining channel_bucket participant_buckets
                  (bucket_id_for_pair payer.participant_id payee.participant_id) r.channel_buckets)
                _ route h₄
                (λ buckets bound h₅.
                  from_bind (find_lane payer.participant_id payee.participant_id r.lanes) _ route h₅
                    (λ lane at_lane h₆.
                      from_require (ltb lane.settled_cumulative entry.target_cumulative)
                        commitment_amount_must_increase _ route h₆
                        (λ increases h₇. subst (Found block_index r entry) (ok-injective h₇) (
                          at_payer,
                          at_lane,
                          ltb→lt _ _ increases,
                          get_elem?-ids_of r.states entry.payee_ref payee at_payee,
                        )))))

move_amount-Moves :
    (block_index : ℕ) (entry : ChannelEntry) (route : Route) (r r' : Routing)
    → Found block_index r entry route
    → move_amount block_index entry route r ≡ ok r'
    → Moves r r'
unfolding move_amount
move_amount-Moves block_index entry route r r' (at_payer, at_lane, increases, _) h =
    from_bind (checked_add_u64 r.total_gross delta) _ r' h (λ gross counted h₁.
      from_bind (checked_i128 (subtract_u64 route.payer.net_position (delta - consumed))) _ r' h₁
        (λ debited is_debited h₂.
          from_bind (state_at (set_position block_index debited r.states) entry.payee_ref) _ r' h₂
            (λ payee at_payee h₃.
              from_bind (checked_i128 (add_u64 payee.net_position delta)) _ r' h₃
                (λ credited is_credited h₄. subst (Moves r) (ok-injective h₄) (
                  moved gross debited payee credited (checked_i128-ok _ debited is_debited) at_payee
                    (checked_i128-ok _ credited is_credited))))))
  where
    delta : ℕ
    delta = entry.target_cumulative - route.lane.settled_cumulative

    consumed : ℕ
    consumed = min route.lane.locked_balance delta

    moved :
        (gross : ℕ) (debited : ℤ) (payee : ParticipantRoundState) (credited : ℤ)
        → subtract_u64 route.payer.net_position (delta - consumed) ≡ debited
        → state_at (set_position block_index debited r.states) entry.payee_ref ≡ ok payee
        → add_u64 payee.net_position delta ≡ credited
        → Moves r (record {
          states =
              set_position entry.payee_ref credited (set_position block_index debited r.states);
          lanes =
              set_lane route.payer.participant_id route.payee_id
                (settled_lane entry.target_cumulative consumed route.lane)
                r.lanes;
          channel_buckets = route.channel_buckets;
          total_gross = gross;
        })
    moved gross debited payee credited is_debited at_payee is_credited = omega (
      arith,
      total_of-set_position earned r.states block_index debited route.payer at_payer,
      total_of-set_position owed r.states block_index debited route.payer at_payer,
      total_of-set_position earned (set_position block_index debited r.states) entry.payee_ref
          credited payee at_payee,
      total_of-set_position owed (set_position block_index debited r.states) entry.payee_ref
          credited payee at_payee,
      earned-subtract_u64 route.payer.net_position (delta - consumed),
      earned-add_u64 payee.net_position delta,
      ap earned is_debited,
      ap owed is_debited,
      ap earned is_credited,
      ap owed is_credited,
      locked_in-set_lane route.payer.participant_id route.payee_id
          (settled_lane entry.target_cumulative consumed route.lane) route.lane r.lanes at_lane,
      locked_balance-settled_lane entry.target_cumulative consumed route.lane,
    )

module _ (remaining : List Account) (participant_buckets : ℕ) where
  settle_entries-Moves :
      (block_index : ℕ) (seen : List ℕ) (r r' : Routing) (entries : List ChannelEntry)
      → settle_entries remaining participant_buckets block_index seen r entries ≡ ok r'
      → Moves r r'
  unfolding settle_entries settle_entry
  settle_entries-Moves block_index seen r r' [] h = subst (Moves r) (ok-injective h) (omega arith)
  settle_entries-Moves block_index seen r r' (e ∷ es) h =
      from_bind (settle_entry remaining participant_buckets block_index seen r e) _ r' h
        (λ r₁ first rest.
          from_bind (route_entry remaining participant_buckets block_index seen r e) _ r₁ first
            (λ route routed moved. omega (
              arith,
              move_amount-Moves block_index e route r r₁
                  (route_entry-Found remaining participant_buckets block_index seen r e route
                    routed)
                  moved,
              settle_entries-Moves block_index (e.payee_ref ∷ seen) r₁ r' es rest,
            )))

  pub settle_blocks-Moves :
      (block_index : ℕ) (r r' : Routing) (blocks : List (ℕ × List ChannelEntry))
      → settle_blocks remaining participant_buckets block_index r blocks ≡ ok r'
      → Moves r r'
  unfolding settle_blocks
  settle_blocks-Moves block_index r r' [] h = subst (Moves r) (ok-injective h) (omega arith)
  settle_blocks-Moves block_index r r' ((id, entries) ∷ bs) h =
      from_bind (settle_entries remaining participant_buckets block_index [] r entries) _ r' h
        (λ r₁ first rest. omega (
          arith,
          settle_entries-Moves block_index [] r r₁ entries first,
          settle_blocks-Moves (block_index + 1) r₁ r' bs rest,
        ))
