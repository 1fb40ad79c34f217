-- ===== src/Settlement/Raised.antt =====
-- Each entry raises the settled amount of its lane to its target, and no entry lowers one.
use mathlib.Core.Path.{subst}
use agon_protocol.Base.{
  ℕ, zero, suc, ◌+◌, ◌-◌, min, some, List, [], ◌∷◌, get_elem?, ok, from_bind, ok-injective, ◌≡◌,
  refl, ap, ◌∙◌, arith,
}
use agon_protocol.Base.Int.{ℤ}
use agon_protocol.Message.Program.{ChannelEntry}
use agon_protocol.Settlement.{
  Account, ParticipantRoundState, checked_add_u64, checked_i128, subtract_u64, add_u64,
}
use agon_protocol.Settlement.Routes.{
  Routing, Route, set_position, state_at, move_amount, route_entry, settle_entry, settle_entries,
  settle_blocks,
}
use agon_protocol.Settlement.Moves.{ids_of, get_elem?-ids_of, Found, route_entry-Found}
use agon_protocol.Settlement.Lanes.{AtLeast, Reaches, set_lane-Reaches, set_lane_raised}

ids_of-set_position :
    (i : ℕ) (z : ℤ) (states : List ParticipantRoundState)
    → ids_of (set_position i z states) ≡ ids_of states
unfolding set_position
ids_of-set_position i z [] = refl
ids_of-set_position zero z (s ∷ ss) = refl
ids_of-set_position (suc i) z (s ∷ ss) = ap (◌∷◌ s.participant_id) (ids_of-set_position i z ss)

-- No lane is lost or lowered, and the participants stay.
abbrev pub Keeps : Routing → Routing → Type 0
Keeps r r' =
    (ids_of r'.states ≡ ids_of r.states)
    × ((p q amount : ℕ) → Reaches p q amount r.lanes → Reaches p q amount r'.lanes)

-- The lane of an entry had settled less than its target, and has settled it.
abbrev pub Raises : ℕ → ChannelEntry → Routing → Routing → Type 0
Raises block_index entry r r' =
    (p q : ℕ) × (get_elem? (ids_of r.states) block_index ≡ some p)
    × (get_elem? (ids_of r.states) entry.payee_ref ≡ some q)
    × (AtLeast p q entry.target_cumulative r.lanes → ⊥)
    × Reaches p q entry.target_cumulative r'.lanes

move_amount-Raises :
    (block_index : ℕ) (entry : ChannelEntry) (route : Route) (r r' : Routing)
    → Found block_index r entry route
    → move_amount block_index entry route r ≡ ok r'
    → Keeps r r' × Raises block_index entry r r'
unfolding move_amount
move_amount-Raises block_index entry route r r' (at_payer, at_lane, increases, at_payee) h =
    from_bind (checked_add_u64 r.total_gross delta) _ r' h (λ gross _ h₁.
      from_bind (checked_i128 (subtract_u64 route.payer.net_position (delta - consumed))) _ r' h₁
        (λ debited _ h₂.
          from_bind (state_at (set_position block_index debited r.states) entry.payee_ref) _ r' h₂
            (λ payee _ h₃.
              from_bind (checked_i128 (add_u64 payee.net_position delta)) _ r' h₃ (λ credited _ h₄.
                subst (λ (q : Routing). Keeps r q × Raises block_index entry r q) (ok-injective h₄)
                  (
                    (
                      ids_of-set_position entry.payee_ref credited
                            (set_position block_index debited r.states)
                          ∙ ids_of-set_position block_index debited r.states,
                      set_lane-Reaches route.payer.participant_id route.payee_id
                          entry.target_cumulative consumed route.lane r.lanes at_lane increases,
                    ),
                    (
                      route.payer.participant_id,
                      route.payee_id,
                      get_elem?-ids_of r.states block_index route.payer at_payer,
                      at_payee,
                      λ at_least. absurd (omega (arith, at_least route.lane at_lane)),
                      set_lane_raised route.payer.participant_id route.payee_id
                          entry.target_cumulative consumed route.lane r.lanes at_lane increases,
                    ),
                  )))))
  where
    delta : ℕ
    delta = entry.target_cumulative - route.lane.settled_cumulative

    consumed : ℕ
    consumed = min route.lane.locked_balance delta

module _ (remaining : List Account) (participant_buckets : ℕ) where
  pub settle_entry-Raises :
      (block_index : ℕ) (seen : List ℕ) (r r' : Routing) (entry : ChannelEntry)
      → settle_entry remaining participant_buckets block_index seen r entry ≡ ok r'
      → Keeps r r' × Raises block_index entry r r'
  unfolding settle_entry
  settle_entry-Raises block_index seen r r' entry h =
      from_bind (route_entry remaining participant_buckets block_index seen r entry) _ r' h
        (λ route routed moved.
          move_amount-Raises block_index entry route r r'
            (route_entry-Found remaining participant_buckets block_index seen r entry route routed)
            moved)

  pub settle_entries-Keeps :
      (block_index : ℕ) (seen : List ℕ) (r r' : Routing) (entries : List ChannelEntry)
      → settle_entries remaining participant_buckets block_index seen r entries ≡ ok r'
      → Keeps r r'
  unfolding settle_entries
  settle_entries-Keeps block_index seen r r' [] h =
      subst (Keeps r) (ok-injective h) (refl, λ p q amount reached. reached)
  settle_entries-Keeps block_index seen r r' (e ∷ es) h =
      from_bind (settle_entry remaining participant_buckets block_index seen r e) _ r' h
        (λ r₁ first rest.
          let here = (settle_entry-Raises block_index seen r r₁ e first).0 in
          let later = settle_entries-Keeps block_index (e.payee_ref ∷ seen) r₁ r' es rest in
          (later.0 ∙ here.0, λ p q amount reached. later.1 p q amount (here.1 p q amount reached)))

  pub settle_blocks-Keeps :
      (block_index : ℕ) (r r' : Routing) (blocks : List (ℕ × List ChannelEntry))
      → settle_blocks remaining participant_buckets block_index r blocks ≡ ok r'
      → Keeps r r'
  unfolding settle_blocks
  settle_blocks-Keeps block_index r r' [] h =
      subst (Keeps r) (ok-injective h) (refl, λ p q amount reached. reached)
  settle_blocks-Keeps block_index r r' ((id, entries) ∷ bs) h =
      from_bind (settle_entries remaining participant_buckets block_index [] r entries) _ r' h
        (λ r₁ first rest.
          let here = settle_entries-Keeps block_index [] r r₁ entries first in
          let later = settle_blocks-Keeps (block_index + 1) r₁ r' bs rest in
          (later.0 ∙ here.0, λ p q amount reached. later.1 p q amount (here.1 p q amount reached)))
