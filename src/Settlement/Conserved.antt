-- ===== src/Settlement/Conserved.antt =====
-- A settled round neither makes nor destroys tokens.
use mathlib.Core.Path.{subst}
use agon_protocol.Base.{
  ℕ, ◌+◌, not, ◌==◌, none, List, [], ◌∷◌, length, ok, from_bind, from_require, ok-injective, ◌≡◌,
  refl, ap, ◌∙◌, arith, invalid_clearing_round_message, participant_not_found,
  participant_bls_key_not_found,
}
use agon_protocol.Base.Int.{pos}
use agon_protocol.Base.Reordered.{sum_of-append}
use agon_protocol.Keys.{is_seen}
use agon_protocol.Pair.{participant_bucket_id}
use agon_protocol.Message.Program.{ChannelEntry, read_clearing_round}
use agon_protocol.Settlement.{
  Store, Account, participant_bucket, ParticipantRoundState, find_slot, token_total,
}
use agon_protocol.Settlement.Handler.{Settled, ok_or, settle_clearing_round}
use agon_protocol.Settlement.Positions.{check_positions, apply_positions}
use agon_protocol.Settlement.Routes.{Routing, settle_blocks}
use agon_protocol.Settlement.Registration.{
  Registered, Bls, bind_account, add_key, register_block, register_blocks,
}
use agon_protocol.Settlement.Delta.{earned, owed, total_of, locked_in}
use agon_protocol.Settlement.Held.{held_in, held_in-apply_positions}
use agon_protocol.Settlement.Moves.{settle_blocks-Moves}

-- No participant has earned or owes anything yet.
abbrev Neutral : List ParticipantRoundState → Type 0
Neutral states = (total_of earned states ≡ 0) × (total_of owed states ≡ 0)

module _ {K : Type 0} (bls : Bls K) (store : Store) (remaining : List Account) where
  register_block-Neutral :
      (r r' : Registered K) (id : ℕ) (entries : List ChannelEntry)
      → Neutral r.states
      → register_block bls store remaining r (id, entries) ≡ ok r'
      → Neutral r'.states
  unfolding register_block
  register_block-Neutral r r' id entries (nothing_earned, nothing_owed) h =
      from_require (not (is_seen id r.seen_ids)) invalid_clearing_round_message _ r' h (λ _ h₁.
        from_bind (bind_account remaining participant_bucket 0 (participant_bucket_id id) r.buckets)
          _ r' h₁
          (λ buckets _ h₂. from_bind (find_slot id store.slots) _ r' h₂ (λ slot _ h₃.
            from_bind (token_total slot.token) _ r' h₃ (λ total _ h₄.
              from_require slot.has_owner participant_not_found _ r' h₄ (λ _ h₅.
                from_bind (add_key bls store remaining r.aggregate_pubkey slot entries) _ r' h₅
                  (λ key _ h₆.
                    subst (λ (q : Registered K). Neutral q.states) (ok-injective h₆)
                      (
                        omega (
                          arith,
                          nothing_earned,
                          sum_of-append (λ (s : ParticipantRoundState). earned s.net_position)
                              r.states (new_state id total ∷ []),
                        ),
                        omega (
                          arith,
                          nothing_owed,
                          sum_of-append (λ (s : ParticipantRoundState). owed s.net_position)
                              r.states (new_state id total ∷ []),
                        ),
                      )))))))
    where
      new_state : ℕ → ℕ → ParticipantRoundState
      new_state id total = record {
        participant_id = id;
        token_total_balance = total;
        net_position = pos 0;
      }

  register_blocks-Neutral :
      (r r' : Registered K) (blocks : List (ℕ × List ChannelEntry))
      → Neutral r.states
      → register_blocks bls store remaining r blocks ≡ ok r'
      → Neutral r'.states
  unfolding register_blocks
  register_blocks-Neutral r r' [] neutral h =
      subst (λ (q : Registered K). Neutral q.states) (ok-injective h) neutral
  register_blocks-Neutral r r' ((id, entries) ∷ bs) neutral h =
      from_bind (register_block bls store remaining r (id, entries)) _ r' h (λ r₁ first rest.
        register_blocks-Neutral r₁ r' bs (register_block-Neutral r r₁ id entries neutral first)
          rest)

module _ {K : Type 0} (bls : Bls K) (domain : List ℕ) (store : Store) (remaining : List Account)
    (message signature : List ℕ) where
  -- What a settlement goes through.
  pub record Passes (result : Settled) : Type 0 where
    pub token_id : ℕ
    pub blocks : List (ℕ × List ChannelEntry)
    pub registered : Registered K
    pub routed : Routing
    pub is_read : read_clearing_round message domain ≡ ok (token_id, blocks)
    pub has_registered :
        register_blocks bls store remaining
          (record { states = []; seen_ids = []; buckets = []; aggregate_pubkey = none })
          blocks
        ≡ ok registered
    pub key : K
    pub has_key : ok_or registered.aggregate_pubkey participant_bls_key_not_found ≡ ok key
    pub has_routed :
        settle_blocks remaining
          (length registered.buckets)
          0
          (record {
            states = registered.states;
            lanes = store.lanes;
            channel_buckets = [];
            total_gross = 0;
          })
          blocks
        ≡ ok routed
    pub has_applied : apply_positions store.slots routed.states ≡ ok result.store.slots
    pub has_lanes : routed.lanes ≡ result.store.lanes

  pub settle_clearing_round-Passes :
      (result : Settled)
      → settle_clearing_round bls domain store remaining message signature ≡ ok result
      → Passes result
  unfolding settle_clearing_round
  settle_clearing_round-Passes result h =
      from_bind (read_clearing_round message domain) _ result h (λ read is_read h₁.
        from_bind
          (register_blocks bls store remaining
            (record { states = []; seen_ids = []; buckets = []; aggregate_pubkey = none }) read.1)
          _ result h₁
          (λ registered has_registered h₂.
            from_bind (ok_or registered.aggregate_pubkey participant_bls_key_not_found) _ result h₂
              (λ key has_key h₃. from_bind (bls.verify message signature key) _ result h₃ (λ _ _ h₄.
                from_bind
                  (settle_blocks remaining (length registered.buckets) 0
                    (record {
                      states = registered.states;
                      lanes = store.lanes;
                      channel_buckets = [];
                      total_gross = 0;
                    })
                    read.1)
                  _ result h₄
                  (λ routed has_routed h₅.
                    from_require
                      (length registered.buckets + length routed.channel_buckets
                        == length remaining)
                      invalid_clearing_round_message _ result h₅
                      (λ _ h₆. from_bind (check_positions 0 routed.states) _ result h₆ (λ net _ h₇.
                        from_bind (apply_positions store.slots routed.states) _ result h₇
                          (λ slots has_applied h₈. record {
                            token_id = read.0;
                            blocks = read.1;
                            registered = registered;
                            routed = routed;
                            is_read = is_read;
                            has_registered = has_registered;
                            key = key;
                            has_key = has_key;
                            has_routed = has_routed;
                            has_applied =
                                has_applied
                                ∙ ap (λ (r : Settled). ok r.store.slots) (ok-injective h₈);
                            has_lanes = ap (λ (r : Settled). r.store.lanes) (ok-injective h₈);
                          }))))))))

  -- Where a round is settled, what the participants hold, available or being withdrawn, and what the
  -- channels lock for them are together what they were before.
  pub settle_clearing_round-conserved :
      (result : Settled)
      → settle_clearing_round bls domain store remaining message signature ≡ ok result
      → held_in result.store.slots + locked_in result.store.lanes
        ≡ held_in store.slots + locked_in store.lanes
  settle_clearing_round-conserved result h =
      let p = settle_clearing_round-Passes result h in
      let (earned_before, owed_before) =
        register_blocks-Neutral bls store remaining
          (record { states = []; seen_ids = []; buckets = []; aggregate_pubkey = none })
          p.registered p.blocks (refl, refl) p.has_registered in
      let moved =
        settle_blocks-Moves remaining (length p.registered.buckets) 0
          (record {
            states = p.registered.states;
            lanes = store.lanes;
            channel_buckets = [];
            total_gross = 0;
          })
          p.routed p.blocks p.has_routed in
      omega (
        arith,
        earned_before,
        owed_before,
        moved,
        held_in-apply_positions p.routed.states store.slots result.store.slots p.has_applied,
        ap locked_in p.has_lanes,
      )
