-- ===== src/Multilateral/Wire.antt =====
-- What the program sees of the blocks of a prepared round.
use agon_protocol.Base.{
  ℕ, suc, ◌+◌, ◌<◌, List, [], ◌∷◌, map, length, ok, ◌≡◌, refl, ap, ap₂, arith, some, Option-cases,
  Bool-cases, inl, inr, ◌==◌,
}
use agon_protocol.Base.Int.{pos}
use agon_protocol.Message.Program.{ChannelEntry}
use agon_protocol.Message.Rounds.{entry_of, block_of}
use agon_protocol.Multilateral.Edges.{Wallet}
use agon_protocol.Multilateral.Round.{RoundEntry, first_participant, index_by_id, message_blocks}
use agon_protocol.Multilateral.Blocks.{blocks_with}

-- What the program sees of an entry and of a participant's block.
abbrev pub wire_entry : RoundEntry → ChannelEntry
wire_entry e = record { payee_ref = e.payee_ref; target_cumulative = e.target_cumulative }

abbrev pub wire_block : (Wallet → List RoundEntry) → Wallet → ℕ × List ChannelEntry
wire_block entries p = (p.participant_id, map wire_entry (entries p))

pub wire_entries :
    (es : List RoundEntry)
    → map entry_of (
        map
          (λ e. record { payee_ref = e.payee_ref; target_cumulative = pos e.target_cumulative })
          es)
      ≡ map wire_entry es
wire_entries [] = refl
wire_entries (e ∷ es) = ap (◌∷◌ (wire_entry e)) (wire_entries es)

pub wire_blocks :
    (entries : Wallet → List RoundEntry) (ps : List Wallet)
    → map block_of (message_blocks (blocks_with entries ps)) ≡ map (wire_block entries) ps
unfolding message_blocks
wire_blocks entries [] = refl
wire_blocks entries (p ∷ ps) =
    ap₂
      (λ (es : List ChannelEntry) (bs : List (ℕ × List ChannelEntry)). (p.participant_id, es) ∷ bs)
      (wire_entries (entries p)) (wire_blocks entries ps)

pub length-message_blocks :
    (entries : Wallet → List RoundEntry) (ps : List Wallet)
    → length (message_blocks (blocks_with entries ps)) ≡ length ps
unfolding message_blocks
length-message_blocks entries [] = refl
length-message_blocks entries (p ∷ ps) = ap suc (length-message_blocks entries ps)

pub first_participant-ok :
    (ps : List Wallet) → 0 < length ps → (p : Wallet) × (first_participant ps ≡ ok p)
first_participant-ok [] h = absurd (omega arith)
first_participant-ok (p ∷ ps) h = (p, refl)

pub index_lt :
    (id index : ℕ) (ps : List Wallet) (found : ℕ)
    → index_by_id id index ps ≡ some found
    → found < index + length ps
unfolding index_by_id
index_lt id index [] found h = cc
index_lt id index (p ∷ ps) found h = elim (Option-cases (index_by_id id (index + 1) ps)) [
  | inr (last, eq) ↦ omega (arith, index_lt id (index + 1) ps found cc)
  | inl missing ↦ elim (Bool-cases (p.participant_id == id)) [
    | inl is_id ↦ let same : index ≡ found = cc in omega arith
    | inr other ↦ cc
  ]
]
