-- ===== src/Settlement/Once.antt =====
-- A round that was settled is not settled again.
use mathlib.Core.Path.{subst}
use agon_protocol.Base.{
  ℕ, ◌+◌, ◌≤◌, arith, not, none, Option, List, [], ◌∷◌, ◌++◌, map, append_assoc, append-nil, length,
  Outcome, ok, throw, Fault, Outcome-cases, from_bind, from_require, ok-injective, inl, inr, ◌⊎◌,
  ◌≡◌, refl, sym, ap, ◌∙◌, invalid_clearing_round_message, participant_not_found,
  participant_bls_key_not_found,
}
use agon_protocol.Base.Int.{pos}
use agon_protocol.Keys.{is_seen}
use agon_protocol.Pair.{participant_bucket_id}
use agon_protocol.Message.Program.{ChannelEntry}
use agon_protocol.Settlement.{
  Store, Account, ChannelLane, find_lane, participant_bucket, ParticipantRoundState, find_slot,
  token_total,
}
use agon_protocol.Settlement.Handler.{Settled, ok_or, settle_clearing_round}
use agon_protocol.Settlement.Routes.{Routing, settle_entry, settle_entries, settle_blocks}
use agon_protocol.Settlement.Registration.{
  Registered, Bls, bind_account, add_key, register_block, register_blocks,
}
use agon_protocol.Settlement.Moves.{ids_of}
use agon_protocol.Settlement.Raised.{settle_entry-Raises, settle_entries-Keeps, settle_blocks-Keeps}
use agon_protocol.Settlement.Conserved.{settle_clearing_round-Passes}

-- Some block has an entry.
abbrev HasEntry : List (ℕ × List ChannelEntry) → Type 0
HasEntry [] = ⊥
HasEntry ((id, []) ∷ bs) = HasEntry bs
HasEntry ((id, e ∷ es) ∷ bs) = Unit

-- A channel that is in both lists has not settled less in the second than in the first.
abbrev pub NotLowered : List ChannelLane → List ChannelLane → Type 0
NotLowered lanes lanes' =
    (p q : ℕ) (lane lane' : ChannelLane)
    → find_lane p q lanes ≡ ok lane
    → find_lane p q lanes' ≡ ok lane'
    → lane.settled_cumulative ≤ lane'.settled_cumulative

module _ (remaining remaining' : List Account) (buckets buckets' : ℕ) where
  -- Two settlements of the same entries, the second on lanes that the first has raised.
  not_twice_entries :
      (k : ℕ) (e : ChannelEntry) (es : List ChannelEntry) (r₁ r₁' r₂ r₂' : Routing)
      → settle_entries remaining buckets k [] r₁ (e ∷ es) ≡ ok r₁'
      → settle_entries remaining' buckets' k [] r₂ (e ∷ es) ≡ ok r₂'
      → ids_of r₁.states ≡ ids_of r₂.states
      → NotLowered r₁'.lanes r₂.lanes
      → ⊥
  unfolding settle_entries
  not_twice_entries k e es r₁ r₁' r₂ r₂' h₁ h₂ same_ids raised =
      from_bind (settle_entry remaining buckets k [] r₁ e) _ r₁' h₁ (λ r₃ first rest.
        from_bind (settle_entry remaining' buckets' k [] r₂ e) _ r₂' h₂ (λ r₄ again _.
          let (p, q, at_p, at_q, _, is_raised) =
            (settle_entry-Raises remaining buckets k [] r₁ r₃ e first).1 in
          let (p', q', at_p', at_q', not_yet, _) =
            (settle_entry-Raises remaining' buckets' k [] r₂ r₄ e again).1 in
          let kept =
            (settle_entries-Keeps remaining buckets k (e.payee_ref ∷ []) r₃ r₁' es rest).1 in
          let same_payer : p ≡ p' = cc in
          let same_payee : q ≡ q' = cc in
          let (lane, found, reached) = kept p q e.target_cumulative is_raised in
          not_yet (λ lane' found'. let not_lower = raised p q lane lane' found cc in omega arith)))

  not_twice :
      (k : ℕ) (blocks : List (ℕ × List ChannelEntry)) (r₁ r₁' r₂ r₂' : Routing)
      → settle_blocks remaining buckets k r₁ blocks ≡ ok r₁'
      → settle_blocks remaining' buckets' k r₂ blocks ≡ ok r₂'
      → ids_of r₁.states ≡ ids_of r₂.states
      → NotLowered r₁'.lanes r₂.lanes
      → HasEntry blocks
      → ⊥
  unfolding settle_blocks settle_entries
  not_twice k [] r₁ r₁' r₂ r₂' h₁ h₂ same_ids raised has_entry = has_entry
  not_twice k ((id, []) ∷ bs) r₁ r₁' r₂ r₂' h₁ h₂ same_ids raised has_entry =
      not_twice (k + 1) bs r₁ r₁' r₂ r₂' h₁ h₂ same_ids raised has_entry
  not_twice k ((id, e ∷ es) ∷ bs) r₁ r₁' r₂ r₂' h₁ h₂ same_ids raised has_entry =
      from_bind (settle_entries remaining buckets k [] r₁ (e ∷ es)) _ r₁' h₁ (λ r₃ first rest.
        from_bind (settle_entries remaining' buckets' k [] r₂ (e ∷ es)) _ r₂' h₂ (λ r₄ again _.
          let kept = (settle_blocks-Keeps remaining buckets (k + 1) r₃ r₁' bs rest).1 in
          not_twice_entries k e es r₁ r₃ r₂ r₄ first again same_ids (λ p q lane lane' found found'.
            let (last, found_last, reached) =
              kept p q lane.settled_cumulative (lane, found, omega arith) in
            let not_lower = raised p q last lane' found_last found' in omega arith)))

module _ {K : Type 0} (bls : Bls K) (store : Store) (remaining : List Account) where
  -- What a block adds: its participant, and a key only if it has an entry.
  abbrev Adds : Registered K → ℕ × List ChannelEntry → Registered K → Type 0
  Adds r b r' =
      (ids_of r'.states ≡ ids_of r.states ++ (b.0 ∷ []))
      × (b.1 ≡ [] → r'.aggregate_pubkey ≡ r.aggregate_pubkey)

  ids_of-append :
      (states : List ParticipantRoundState) (s : ParticipantRoundState)
      → ids_of (states ++ (s ∷ [])) ≡ ids_of states ++ (s.participant_id ∷ [])
  ids_of-append [] s = refl
  ids_of-append (x ∷ xs) s = ap (◌∷◌ x.participant_id) (ids_of-append xs s)

  register_block-Adds :
      (r r' : Registered K) (id : ℕ) (entries : List ChannelEntry)
      → register_block bls store remaining r (id, entries) ≡ ok r'
      → Adds r (id, entries) r'
  unfolding register_block add_key
  register_block-Adds r r' id entries h =
      from_require (not (is_seen id r.seen_ids)) invalid_clearing_round_message _ r' h (λ _ h₁.
        from_bind (bind_account remaining participant_bucket 0 (participant_bucket_id id) r.buckets)
          _ r' h₁
          (λ buckets _ h₂. from_bind (find_slot id store.slots) _ r' h₂ (λ slot _ h₃.
            from_bind (token_total slot.token) _ r' h₃ (λ total _ h₄.
              from_require slot.has_owner participant_not_found _ r' h₄ (λ _ h₅.
                from_bind (add_key bls store remaining r.aggregate_pubkey slot entries) _ r' h₅
                  (λ key added h₆. subst (Adds r (id, entries)) (ok-injective h₆) (
                    ids_of-append r.states (record {
                      participant_id = id;
                      token_total_balance = total;
                      net_position = pos 0;
                    }),
                    λ no_entry. sym (
                        ok-injective (
                          ap (add_key bls store remaining r.aggregate_pubkey slot) (sym no_entry)
                          ∙ added)),
                  )))))))

  abbrev key_of : Registered K → Outcome K
  key_of r = ok_or r.aggregate_pubkey participant_bls_key_not_found

  register_blocks-Adds :
      (r r' : Registered K) (blocks : List (ℕ × List ChannelEntry)) (key : K)
      → register_blocks bls store remaining r blocks ≡ ok r'
      → key_of r' ≡ ok key
      → (ids_of r'.states ≡ ids_of r.states ++ map (λ b. b.0) blocks)
        × ((key_of r ≡ ok key) ⊎ HasEntry blocks)
  unfolding register_blocks
  register_blocks-Adds r r' [] key h has_key =
      subst
        (λ (q : Registered K).
          key_of q ≡ ok key
          → (ids_of q.states ≡ ids_of r.states ++ []) × ((key_of r ≡ ok key) ⊎ HasEntry []))
        (ok-injective h) (λ has_key'. (sym (append-nil (ids_of r.states)), inl has_key')) has_key
  register_blocks-Adds r r' ((id, []) ∷ bs) key h has_key =
      from_bind (register_block bls store remaining r (id, [])) _ r' h (λ r₁ first rest.
        let (here, same_key) = register_block-Adds r r₁ id [] first in
        let (later, known) = register_blocks-Adds r₁ r' bs key rest has_key in
        (
          later
              ∙ ap (λ (ids : List ℕ). ids ++ map (λ b. b.0) bs) here
              ∙ append_assoc (ids_of r.states) (id ∷ []) (map (λ b. b.0) bs),
          elim known [
            | inl earlier ↦ inl (
                ap (λ (k : Option K). ok_or k participant_bls_key_not_found) (sym (same_key refl))
                ∙ earlier)
            | inr has_entry ↦ inr has_entry
          ],
        ))
  register_blocks-Adds r r' ((id, e ∷ es) ∷ bs) key h has_key =
      from_bind (register_block bls store remaining r (id, e ∷ es)) _ r' h (λ r₁ first rest.
        let (here, _) = register_block-Adds r r₁ id (e ∷ es) first in
        let (later, _) = register_blocks-Adds r₁ r' bs key rest has_key in
        (
          later
              ∙ ap (λ (ids : List ℕ). ids ++ map (λ b. b.0) bs) here
              ∙ append_assoc (ids_of r.states) (id ∷ []) (map (λ b. b.0) bs),
          inr tt,
        ))

abbrev nothing_registered : {K : Type 0} → Registered K
nothing_registered = record { states = []; seen_ids = []; buckets = []; aggregate_pubkey = none }

abbrev start : {K : Type 0} → Registered K → Store → Routing
start registered store = record {
  states = registered.states;
  lanes = store.lanes;
  channel_buckets = [];
  total_gross = 0;
}

module _ {K : Type 0} (bls : Bls K) (domain : List ℕ) (store later : Store)
    (remaining remaining' : List Account) (message signature signature' : List ℕ) where
  -- Once a round is settled, its message is refused, with any signature and accounts, as long as no
  -- channel that was there after the round, and still is, has settled less than it had then. Channels may
  -- have been opened or closed, and have settled more.
  pub settle_clearing_round_once :
      (result : Settled)
      → settle_clearing_round bls domain store remaining message signature ≡ ok result
      → NotLowered result.store.lanes later.lanes
      → (fault : Fault) × (settle_clearing_round bls domain later remaining' message signature'
          ≡ throw fault)
  settle_clearing_round_once result h raised =
      elim (Outcome-cases (settle_clearing_round bls domain later remaining' message signature')) [
        | inr refused ↦ refused
        | inl (again, h') ↦ absurd (contradiction again h')
      ]
    where
      contradiction :
          (again : Settled)
          → settle_clearing_round bls domain later remaining' message signature' ≡ ok again
          → ⊥
      contradiction again h' =
          let p =
            settle_clearing_round-Passes bls domain store remaining message signature result h in
          let p' =
            settle_clearing_round-Passes bls domain later remaining' message signature' again h' in
          let same_blocks : p'.blocks ≡ p.blocks =
            ap (λ (read : ℕ × List (ℕ × List ChannelEntry)). read.1)
              (ok-injective (sym p'.is_read ∙ p.is_read)) in
          let (ids, known) =
            register_blocks-Adds bls store remaining nothing_registered p.registered p.blocks p.key
              p.has_registered p.has_key in
          let (ids', _) =
            register_blocks-Adds bls later remaining' nothing_registered p'.registered p'.blocks
              p'.key p'.has_registered p'.has_key in
          elim known [
            | inl no_key ↦ cc
            | inr has_entry ↦
                not_twice remaining remaining' (length p.registered.buckets)
                  (length p'.registered.buckets) 0 p.blocks (start p.registered store) p.routed
                  (start p'.registered later) p'.routed p.has_routed
                  (subst
                    (λ (bs : List (ℕ × List ChannelEntry)).
                      settle_blocks remaining' (length p'.registered.buckets) 0
                        (start p'.registered later) bs
                      ≡ ok p'.routed)
                    same_blocks p'.has_routed)
                  (ids
                    ∙ ap (λ (bs : List (ℕ × List ChannelEntry)). map (λ b. b.0) bs)
                        (sym same_blocks)
                    ∙ sym ids')
                  (subst (λ (lanes : List ChannelLane). NotLowered lanes later.lanes)
                    (sym p.has_lanes) raised)
                  has_entry
          ]
