-- ===== src/Multilateral/Blocks.antt =====
-- The blocks of a prepared round: one for each participant, with the edges it pays in order.
use agon_protocol.Base.{
  ℕ, ◌+◌, ◌^◌, ◌<◌, true, false, ◌==◌, if◌then◌else◌, none, some, List, [], ◌∷◌, ◌++◌, map, ok, All,
  Bool-cases, Option-cases, inl, inr, lt→ltb, ◌≡◌, refl, sym, ap, ap₂, ◌∙◌, fun_ext, append-nil,
  append_assoc, arith, ==_refl,
}
use agon_protocol.Base.Number.{as_number, as_number_safe}
use agon_protocol.Base.Reordered.{sum_of}
use agon_protocol.Multilateral.Edges.{Wallet, Edge, has_participant}
use agon_protocol.Multilateral.Obligation.{deterministic_raw_channel_amount}
use agon_protocol.Multilateral.Round.{
  RoundEntry, RoundBlock, RoundContext, index_by_id, index_or_max, has_block, push_round_entry,
  to_number, block_by_id, collect_blocks, fill_blocks,
}

index_by_id_missing :
    (id index : ℕ) (ps : List Wallet)
    → index_by_id id index ps ≡ none
    → has_participant id ps ≡ false
unfolding index_by_id has_participant
index_by_id_missing id index [] h = refl
index_by_id_missing id index (p ∷ ps) h = elim (Option-cases (index_by_id id (index + 1) ps)) [
  | inr (last, found) ↦ cc
  | inl missing ↦ elim (Bool-cases (p.participant_id == id)) [
    | inl is_id ↦ cc
    | inr other ↦ let below = index_by_id_missing id (index + 1) ps missing in cc
  ]
]

pub index_by_id_found :
    (id : ℕ) (ps : List Wallet)
    → has_participant id ps ≡ true
    → index_by_id id 0 ps ≡ some (index_or_max ps id)
index_by_id_found id ps h = elim (Option-cases (index_by_id id 0 ps)) [
  | inl missing ↦ let absent = index_by_id_missing id 0 ps missing in cc
  | inr (last, found) ↦ cc
]

-- A block for each participant, with entries of its own.
abbrev pub blocks_with : (Wallet → List RoundEntry) → List Wallet → List RoundBlock
blocks_with entries ps = map (λ p. record { participant = p; entries = entries p }) ps

has_block-blocks_with :
    (id : ℕ) (entries : Wallet → List RoundEntry) (ps : List Wallet)
    → has_block id (blocks_with entries ps) ≡ has_participant id ps
unfolding has_block has_participant
has_block-blocks_with id entries [] = refl
has_block-blocks_with id entries (p ∷ ps) = rw (has_block-blocks_with id entries ps) refl

-- The entries of the participants after one is pushed to the participant with the id.
abbrev with_entry : ℕ → RoundEntry → (Wallet → List RoundEntry) → Wallet → List RoundEntry
with_entry id entry entries p =
    if p.participant_id == id then entries p ++ (entry ∷ []) else entries p

push_round_entry-blocks_with :
    (id : ℕ) (entry : RoundEntry) (entries : Wallet → List RoundEntry) (ps : List Wallet)
    → push_round_entry id entry (blocks_with entries ps)
      ≡ blocks_with (with_entry id entry entries) ps
unfolding push_round_entry
push_round_entry-blocks_with id entry entries [] = refl
push_round_entry-blocks_with id entry entries (p ∷ ps) =
    elim (Bool-cases (p.participant_id == id)) [
      | inl is_id ↦ rw (is_id, push_round_entry-blocks_with id entry entries ps) refl
      | inr other ↦ rw (other, push_round_entry-blocks_with id entry entries ps) refl
    ]

-- No two participants share an id.
abbrev pub DistinctIds : List Wallet → Type 0
DistinctIds [] = Unit
DistinctIds (p ∷ ps) = All (λ q. (q.participant_id == p.participant_id) ≡ false) ps × DistinctIds ps

block_absent :
    (id : ℕ) (entries : Wallet → List RoundEntry) (ps : List Wallet)
    → All (λ q. (q.participant_id == id) ≡ false) ps
    → block_by_id id (blocks_with entries ps) ≡ none
unfolding block_by_id
block_absent id entries [] h = refl
block_absent id entries (p ∷ ps) h = rw (block_absent id entries ps h.1, h.0) refl

-- A block that was found stays the one behind another block.
All-block_by_id :
    (block : RoundBlock) (blocks : List RoundBlock) (entries : Wallet → List RoundEntry)
    (qs : List Wallet)
    → All
        (λ q.
          block_by_id q.participant_id blocks
          ≡ some (record { participant = q; entries = entries q }))
        qs
    → All
        (λ q.
          block_by_id q.participant_id (block ∷ blocks)
          ≡ some (record { participant = q; entries = entries q }))
        qs
unfolding block_by_id
All-block_by_id block blocks entries [] h = tt
All-block_by_id block blocks entries (q ∷ qs) h = (cc, All-block_by_id block blocks entries qs h.1)

blocks_found :
    (entries : Wallet → List RoundEntry) (ps : List Wallet)
    → DistinctIds ps
    → All
        (λ q.
          block_by_id q.participant_id (blocks_with entries ps)
          ≡ some (record { participant = q; entries = entries q }))
        ps
unfolding block_by_id
blocks_found entries [] h = tt
blocks_found entries (p ∷ ps) h = (
  rw (block_absent p.participant_id entries ps h.0, ==_refl p.participant_id) refl,
  All-block_by_id (record { participant = p; entries = entries p }) (blocks_with entries ps) entries
      ps (blocks_found entries ps h.1),
)

collect_blocks-All :
    (blocks : List RoundBlock) (entries : Wallet → List RoundEntry) (qs : List Wallet)
    → All
        (λ q.
          block_by_id q.participant_id blocks
          ≡ some (record { participant = q; entries = entries q }))
        qs
    → collect_blocks blocks qs ≡ ok (blocks_with entries qs)
unfolding collect_blocks
collect_blocks-All blocks entries [] h = refl
collect_blocks-All blocks entries (q ∷ qs) h =
    let first = h.0 in let rest = collect_blocks-All blocks entries qs h.1 in cc

pub collect_blocks-blocks_with :
    (entries : Wallet → List RoundEntry) (ps : List Wallet)
    → DistinctIds ps
    → collect_blocks (blocks_with entries ps) ps ≡ ok (blocks_with entries ps)
collect_blocks-blocks_with entries ps h =
    collect_blocks-All (blocks_with entries ps) entries ps (blocks_found entries ps h)

module _ (sha256 : List ℕ → List ℕ) (context : RoundContext) (participants : List Wallet) where
  abbrev pub obligation : Edge → ℕ
  obligation e = deterministic_raw_channel_amount sha256 context.amounts e

  -- An edge that the round can take: between participants, and with a target that is a safe number.
  abbrev pub CanRoute : Edge → Type 0
  CanRoute e =
      (has_participant e.payer.participant_id participants ≡ true)
      × (has_participant e.payee.participant_id participants ≡ true)
      × (e.settled_cumulative + obligation e < 2 ^ 53)

  abbrev pub entry_for : Edge → RoundEntry
  entry_for e = record {
    payee_ref = index_or_max participants e.payee.participant_id;
    payee = e.payee;
    target_cumulative = e.settled_cumulative + obligation e;
  }

  -- The entries of a participant: the edges that it pays, in their order.
  abbrev pub entries_for : List Edge → Wallet → List RoundEntry
  entries_for [] p = []
  entries_for (e ∷ es) p =
      let rest = entries_for es p in
      if p.participant_id == e.payer.participant_id then entry_for e ∷ rest else rest

  add_entry :
      (e : Edge) (es : List Edge) (entries : Wallet → List RoundEntry) (p : Wallet)
      → with_entry e.payer.participant_id (entry_for e) entries p ++ entries_for es p
        ≡ entries p ++ entries_for (e ∷ es) p
  add_entry e es entries p = elim (Bool-cases (p.participant_id == e.payer.participant_id)) [
    | inl is_payer ↦ rw is_payer (append_assoc (entries p) (entry_for e ∷ []) (entries_for es p))
    | inr other ↦ rw other refl
  ]

  fill_blocks_routes :
      (e : Edge) (es : List Edge) (blocks : List RoundBlock) (total : ℕ)
      → index_by_id e.payee.participant_id 0 participants
        ≡ some (index_or_max participants e.payee.participant_id)
      → has_block e.payer.participant_id blocks ≡ true
      → to_number e.settled_cumulative ≡ ok e.settled_cumulative
      → as_number (e.settled_cumulative + obligation e) ≡ e.settled_cumulative + obligation e
      → as_number (total + obligation e) ≡ total + obligation e
      → fill_blocks sha256 context participants (e ∷ es) blocks total
        ≡ fill_blocks sha256 context participants es
            (push_round_entry e.payer.participant_id (entry_for e) blocks)
            (total + obligation e)
  unfolding fill_blocks
  fill_blocks_routes e es blocks total payee payer safe exact exact_total = cc

  fill_blocks_done :
      (blocks : List RoundBlock) (total : ℕ)
      → fill_blocks sha256 context participants [] blocks total ≡ ok (blocks, total)
  unfolding fill_blocks
  fill_blocks_done blocks total = refl

  to_number_safe : (n : ℕ) → n < 2 ^ 53 → to_number n ≡ ok n
  unfolding to_number
  to_number_safe n h = rw (lt→ltb n (2 ^ 53) h) refl

  pub fill_blocks-blocks_with :
      (es : List Edge) (entries : Wallet → List RoundEntry) (total : ℕ)
      → All CanRoute es
      → total + sum_of obligation es < 2 ^ 53
      → fill_blocks sha256 context participants es (blocks_with entries participants) total
        ≡ ok (
          blocks_with (λ p. entries p ++ entries_for es p) participants,
          total + sum_of obligation es,
        )
  fill_blocks-blocks_with [] entries total h small =
      fill_blocks_done (blocks_with entries participants) total
      ∙ ap₂ (λ (f : Wallet → List RoundEntry) (n : ℕ). ok (blocks_with f participants, n))
          (fun_ext (λ p. sym (append-nil (entries p)))) (omega arith)
  fill_blocks-blocks_with (e ∷ es) entries total ((payer, payee, safe), h) small =
      fill_blocks_routes e es (blocks_with entries participants) total
        (index_by_id_found e.payee.participant_id participants payee)
        (has_block-blocks_with e.payer.participant_id entries participants ∙ payer)
        (to_number_safe e.settled_cumulative (omega arith))
        (as_number_safe (e.settled_cumulative + obligation e) safe)
        (as_number_safe (total + obligation e) (omega arith))
      ∙ ap
          (λ (blocks : List RoundBlock).
            fill_blocks sha256 context participants es blocks (total + obligation e))
          (push_round_entry-blocks_with e.payer.participant_id (entry_for e) entries participants)
      ∙ fill_blocks-blocks_with es (with_entry e.payer.participant_id (entry_for e) entries)
          (total + obligation e) h (omega arith)
      ∙ ap₂ (λ (f : Wallet → List RoundEntry) (n : ℕ). ok (blocks_with f participants, n))
          (fun_ext (add_entry e es entries)) (omega arith)
