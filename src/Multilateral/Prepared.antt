-- ===== src/Multilateral/Prepared.antt =====
-- A prepared round: what it says, and what the program reads from its message.
use mathlib.Core.List.{Permᴰ}
use mathlib.Core.List.Permᴰ
use native.Mathlib.Nat.{zero-add}
use agon_protocol.Base.{
  ℕ, ◌*◌, ◌^◌, ◌<◌, List, [], ◌∷◌, map, length, length-map, All, ok, ◌≡◌, refl, ap, ◌∙◌, arith,
  ◌++◌, Bool-cases, inl, inr, ◌==◌,
}
use agon_protocol.Base.Int.{pos}
use agon_protocol.Base.Number.{as_number}
use agon_protocol.Base.Reordered.{sum_of, sum_of-Permᴰ, All-Permᴰ}
use agon_protocol.Message.Client.{BigNumber, Entry, RoundParams, create_clearing_round_message}
use agon_protocol.Message.Program.{ChannelEntry, read_clearing_round}
use agon_protocol.Message.Rounds.{BlockFits, EntryFits}
use agon_protocol.Message.Settled.{RoundFits, read_clearing_round_current}
use agon_protocol.Multilateral.Edges.{Wallet, Edge, EdgeSelection}
use agon_protocol.Multilateral.Round.{
  RoundEntry, RoundContext, PreparedRound, first_participant, active_round_participants,
  index_or_max, ordered_edges, fill_blocks, message_blocks, blocks_without_entries, round_params,
  prepare_multilateral_round,
}
use agon_protocol.Keys.{unique_writable_metas_for_pubkeys}
use agon_protocol.Multilateral.Blocks.{
  DistinctIds, CanRoute, entry_for, entries_for, obligation, blocks_with, index_by_id_found,
  collect_blocks-blocks_with, fill_blocks-blocks_with,
}
use agon_protocol.Multilateral.Order.{InOrder, ordered_edges-Permᴰ, ordered_edges-InOrder}
use agon_protocol.Multilateral.Wire.{
  wire_block, wire_blocks, length-message_blocks, first_participant-ok, index_lt,
}

module _ (sha256 : List ℕ → List ℕ) (context : RoundContext) (selection : EdgeSelection) where
  -- The entries of each participant in the round.
  abbrev pub entries_of : Wallet → List RoundEntry
  entries_of = entries_for sha256 context selection.participants (ordered_edges selection)

  -- A selection that fits a round: up to 255 participants, whose ids differ and have 32 bits, each
  -- paying along up to 255 edges, amounts that are safe numbers, and edges between them whose targets,
  -- and whose obligations together, are safe numbers.
  pub record FitsRound : Type 0 where
    pub token : context.token_id < 2 ^ 16
    pub domain : length context.message_domain ≡ 16
    pub min_raw : context.amounts.min_raw < 2 ^ 53
    pub max_raw : context.amounts.max_raw < 2 ^ 53
    pub some_participant : 0 < length selection.participants
    pub few_participants : length selection.participants < 256
    pub distinct : DistinctIds selection.participants
    pub ids : All (λ p. p.participant_id < 2 ^ 32) selection.participants
    pub few_entries : All (λ p. length (entries_of p) < 256) selection.participants
    pub edges : All (CanRoute sha256 context selection.participants) selection.edges
    pub total : sum_of (obligation sha256 context selection.participants) selection.edges < 2 ^ 53

  module _ (h : FitsRound) where
    entry-fits :
        (e : Edge)
        → CanRoute sha256 context selection.participants e
        → ((entry_for sha256 context selection.participants e).payee_ref < 256)
          × ((entry_for sha256 context selection.participants e).target_cumulative < 2 ^ 64)
    entry-fits e (payer, payee, safe) = (
      omega (
        arith,
        h.few_participants,
        index_lt e.payee.participant_id 0 selection.participants
            (index_or_max selection.participants e.payee.participant_id)
            (index_by_id_found e.payee.participant_id selection.participants payee),
      ),
      omega (arith, safe),
    )

    entries-fit :
        (es : List Edge)
        → All (CanRoute sha256 context selection.participants) es
        → (p : Wallet)
        → All EntryFits (
            map
              (λ e. record { payee_ref = e.payee_ref; target_cumulative = pos e.target_cumulative })
              (entries_for sha256 context selection.participants es p))
    entries-fit [] all p = tt
    entries-fit (e ∷ es) (first, all) p =
        elim (Bool-cases (p.participant_id == e.payer.participant_id)) [
          | inl is_payer ↦ rw is_payer (entry-fits e first, entries-fit es all p)
          | inr other ↦ rw other (entries-fit es all p)
        ]

    can_route : All (CanRoute sha256 context selection.participants) (ordered_edges selection)
    can_route =
        All-Permᴰ (CanRoute sha256 context selection.participants)
          (Permᴰ.symm (ordered_edges-Permᴰ selection)) h.edges

    blocks-fit :
        (ps : List Wallet)
        → All (λ p. p.participant_id < 2 ^ 32) ps
        → All (λ p. length (entries_of p) < 256) ps
        → All BlockFits (message_blocks (blocks_with entries_of ps))
    unfolding message_blocks
    blocks-fit [] ids few = tt
    blocks-fit (p ∷ ps) ids few = (
      (
        ids.0,
        omega (
          arith,
          few.0,
          length-map {B = Entry}
              (λ e. record { payee_ref = e.payee_ref; target_cumulative = pos e.target_cumulative })
              (entries_of p),
        ),
        entries-fit (ordered_edges selection) can_route p,
      ),
      blocks-fit ps ids.1 few.1,
    )

    unfoldable params : RoundParams
    params = round_params sha256 context (blocks_with entries_of selection.participants)

    params-RoundFits : RoundFits params
    unfolding params round_params
    params-RoundFits = record {
      token = h.token;
      domain = h.domain;
      some_block =
          omega
            (arith, h.some_participant, length-message_blocks entries_of selection.participants);
      few_blocks =
          omega
            (arith, h.few_participants, length-message_blocks entries_of selection.participants);
      blocks = blocks-fit selection.participants h.ids h.few_entries;
    }

    prepared_with : List ℕ → Wallet → PreparedRound
    prepared_with msg submitter = record {
      participants = selection.participants;
      edges = ordered_edges selection;
      round_blocks = blocks_with entries_of selection.participants;
      message = msg;
      active_participants =
          active_round_participants (blocks_with entries_of selection.participants);
      submitter = submitter;
      remaining_accounts =
          unique_writable_metas_for_pubkeys (map (λ p. p.participant_pda) selection.participants)
          ++ unique_writable_metas_for_pubkeys (map (λ e. e.channel_pda) (ordered_edges selection));
      total_gross_routed =
          sum_of (obligation sha256 context selection.participants) (ordered_edges selection);
      total_underlying_commitments =
          as_number (context.edge_commitment_count * length (ordered_edges selection));
    }

    filled :
        fill_blocks sha256 context selection.participants
          (ordered_edges selection)
          (blocks_without_entries selection.participants)
          0
        ≡ ok (
          blocks_with entries_of selection.participants,
          sum_of (obligation sha256 context selection.participants) (ordered_edges selection),
        )
    unfolding blocks_without_entries
    filled =
        fill_blocks-blocks_with sha256 context selection.participants (ordered_edges selection)
          (λ p. []) 0 can_route
          (omega (
            arith,
            h.total,
            sum_of-Permᴰ (obligation sha256 context selection.participants)
                (ordered_edges-Permᴰ selection),
          ))
        ∙ ap (λ (n : ℕ). ok (blocks_with entries_of selection.participants, n)) (zero-add _)

    prepare-prepared_with :
        (bn : BigNumber) (msg : List ℕ) (submitter : Wallet)
        → create_clearing_round_message bn params ≡ ok msg
        → first_participant selection.participants ≡ ok submitter
        → prepare_multilateral_round sha256 context bn selection ≡ ok (prepared_with msg submitter)
    unfolding prepare_multilateral_round params prepared_with
    prepare-prepared_with bn msg submitter written first =
        rw
          (
            filled,
            collect_blocks-blocks_with entries_of selection.participants h.distinct,
            written,
            first,
          )
          refl

    -- A selection that fits a round (a 16-bit token, 16 bytes of domain, 1 to 255 participants with
    -- different 32-bit ids, up to 255 edges from each, all between participants, with amounts, targets
    -- and a total below 2 ^ 53) is prepared without an error. Its edges are the selected ones, in order
    -- of the indices of their payers, and those of one payer in order of their payees. There is a block
    -- for each participant, with the edges that it pays, and the total is the sum of what the selected
    -- edges owe. The program reads from the message the token and, for each participant, its id and its
    -- entries.
    pub prepare_multilateral_round_lem :
        (bn : BigNumber)
        → (prepared : PreparedRound) × (prepare_multilateral_round sha256 context bn selection
            ≡ ok prepared)
          × Permᴰ prepared.edges selection.edges
          × InOrder selection.participants prepared.edges
          × (prepared.round_blocks ≡ blocks_with entries_of selection.participants)
          × (prepared.total_gross_routed
              ≡ sum_of (obligation sha256 context selection.participants) selection.edges)
          × (read_clearing_round prepared.message context.message_domain
              ≡ ok (context.token_id, map (wire_block entries_of) selection.participants))
    unfolding params prepared_with round_params
    prepare_multilateral_round_lem bn =
        let ps = selection.participants in
        let (msg, written, is_read) = read_clearing_round_current bn params params-RoundFits refl in
        let (submitter, first) = first_participant-ok ps h.some_participant in
        (
          prepared_with msg submitter,
          prepare-prepared_with bn msg submitter written first,
          ordered_edges-Permᴰ selection,
          ordered_edges-InOrder selection,
          refl,
          sum_of-Permᴰ (obligation sha256 context ps) (ordered_edges-Permᴰ selection),
          is_read
              ∙ ap (λ (bs : List (ℕ × List ChannelEntry)). ok (context.token_id, bs))
                  (wire_blocks entries_of ps),
        )
