-- ===== src/Multilateral/Round.antt =====
-- A round for a candidate: `prepareMultilateralRound` of scripts/ryvo-protocol-demo.ts, up to the
-- instruction, which third-party code builds from the message and the accounts.
use agon_protocol.Base.{
  ℕ, ◌+◌, ◌*◌, ◌^◌, Bool, true, false, ◌&&◌, ◌||◌, ltb, ◌==◌, if◌then◌else◌, Option, none, some,
  List, [], ◌∷◌, ◌++◌, map, Outcome, ok, throw, ◌>>=◌, length, filter, missing_payee, missing_block,
  unsafe_number, undefined_value,
}
use agon_protocol.Keys.{unique_writable_metas_for_pubkeys}
use agon_protocol.Base.Int.{pos}
use agon_protocol.Base.Number.{as_number}
use agon_protocol.Base.Sorting.{sort}
use agon_protocol.Message.Client.{BigNumber, Block, RoundParams, create_clearing_round_message}
use agon_protocol.Multilateral.Edges.{Wallet, Edge, EdgeSelection}
use agon_protocol.Multilateral.Obligation.{AmountParams, deterministic_raw_channel_amount}

pub record RoundEntry : Type 0 where
  pub payee_ref : ℕ
  pub payee : Wallet
  pub target_cumulative : ℕ

pub record RoundBlock : Type 0 where
  pub participant : Wallet
  pub entries : List RoundEntry

-- What the preparation reads of the search context and the scenario.
pub record RoundContext : Type 0 where
  pub token_id : ℕ
  pub message_domain : List ℕ
  pub amounts : AmountParams
  pub edge_commitment_count : ℕ

pub record PreparedRound : Type 0 where
  pub participants : List Wallet
  pub edges : List Edge
  pub round_blocks : List RoundBlock
  pub message : List ℕ
  pub active_participants : List Wallet
  pub submitter : Wallet
  pub remaining_accounts : List ℕ
  pub total_gross_routed : ℕ
  pub total_underlying_commitments : ℕ

-- `participantIndexById.get(id)`: the last index of the id, of participants from an index on.
unfoldable pub index_by_id : ℕ → ℕ → List Wallet → Option ℕ
index_by_id id index [] = none
index_by_id id index (p ∷ ps) = elim (index_by_id id (index + 1) ps) [
  | some last ↦ some last
  | none ↦ if p.participant_id == id then some index else none
]

-- `… ?? Number.MAX_SAFE_INTEGER`.
abbrev pub index_or_max : List Wallet → ℕ → ℕ
index_or_max participants id = elim (index_by_id id 0 participants) [
  | none ↦ 9007199254740991
  | some index ↦ index
]

-- The comparison of `sort`: by the index of the payer, then by that of the payee.
unfoldable pub edge_before : List Wallet → Edge → Edge → Bool
edge_before participants left right =
    let left_payer = index_or_max participants left.payer.participant_id in
    let right_payer = index_or_max participants right.payer.participant_id in
    ltb left_payer right_payer
    || (left_payer == right_payer
        && ltb (index_or_max participants left.payee.participant_id)
            (index_or_max participants right.payee.participant_id))

unfoldable pub ordered_edges : EdgeSelection → List Edge
ordered_edges selection = sort (edge_before selection.participants) selection.edges

-- `roundBlocksByParticipantId`, with no entries yet.
unfoldable pub blocks_without_entries : List Wallet → List RoundBlock
blocks_without_entries participants =
    map (λ p. record { participant = p; entries = [] }) participants

-- `roundBlocksByParticipantId.has(id)`.
unfoldable pub has_block : ℕ → List RoundBlock → Bool
has_block id [] = false
has_block id (b ∷ bs) = b.participant.participant_id == id || has_block id bs

-- `roundBlocksByParticipantId.get(id)?.entries.push(entry)`.
unfoldable pub push_round_entry : ℕ → RoundEntry → List RoundBlock → List RoundBlock
push_round_entry id entry [] = []
push_round_entry id entry (b ∷ bs) =
    let rest = push_round_entry id entry bs in
    let pushed : RoundBlock = record {
      participant = b.participant;
      entries = b.entries ++ (entry ∷ []);
    } in
    if b.participant.participant_id == id then pushed ∷ rest else b ∷ rest

-- `value.toNumber()` of a `BN`.
unfoldable pub to_number : ℕ → Outcome ℕ
to_number value = if ltb value (2 ^ 53) then ok value else throw unsafe_number

-- `roundBlocksByParticipantId.get(id)`: the last block of the id.
unfoldable pub block_by_id : ℕ → List RoundBlock → Option RoundBlock
block_by_id id [] = none
block_by_id id (b ∷ bs) = elim (block_by_id id bs) [
  | some found ↦ some found
  | none ↦ if b.participant.participant_id == id then some b else none
]

unfoldable pub collect_blocks : List RoundBlock → List Wallet → Outcome (List RoundBlock)
collect_blocks blocks [] = ok []
collect_blocks blocks (p ∷ ps) = elim (block_by_id p.participant_id blocks) [
  | none ↦ throw missing_block
  | some block ↦ do rest ← collect_blocks blocks ps; ok (block ∷ rest)
]

unfoldable pub message_blocks : List RoundBlock → List Block
message_blocks blocks =
    map
      (λ b. record {
        participant_id = pos b.participant.participant_id;
        entries =
            map
              (λ e. record { payee_ref = e.payee_ref; target_cumulative = pos e.target_cumulative })
              b.entries;
      })
      blocks

-- `roundBlocks.filter((block) => block.entries.length > 0)`, as the participants that sign.
unfoldable pub active_round_participants : List RoundBlock → List Wallet
active_round_participants blocks =
    map (λ b. b.participant) (filter (λ b. ltb 0 (length b.entries)) blocks)

-- `selection.participants[0]`, which is read below.
abbrev pub first_participant : List Wallet → Outcome Wallet
first_participant [] = throw undefined_value
first_participant (p ∷ ps) = ok p

-- The targets and the total are sums of numbers, which are rounded above 2 ^ 53.
module _ (sha256 : List ℕ → List ℕ) (context : RoundContext) where
  -- The loop over the edges. A payer that is no participant counts in the total alone.
  unfoldable pub fill_blocks :
      List Wallet → List Edge → List RoundBlock → ℕ → Outcome (List RoundBlock × ℕ)
  fill_blocks participants [] blocks total = ok (blocks, total)
  fill_blocks participants (e ∷ es) blocks total =
      let obligation = deterministic_raw_channel_amount sha256 context.amounts e in
      elim (index_by_id e.payee.participant_id 0 participants) [
        | none ↦ throw missing_payee
        | some payee_ref ↦ elim (has_block e.payer.participant_id blocks) [
          | false ↦ fill_blocks participants es blocks (as_number (total + obligation))
          | true ↦ do
            settled ← to_number e.settled_cumulative
            fill_blocks participants es
                (push_round_entry e.payer.participant_id
                  (record {
                    payee_ref = payee_ref;
                    payee = e.payee;
                    target_cumulative = as_number (settled + obligation);
                  })
                  blocks)
                (as_number (total + obligation))
        ]
      ]

  unfoldable pub round_params : List RoundBlock → RoundParams
  round_params blocks = record {
    token_id = context.token_id;
    message_domain = context.message_domain;
    blocks = message_blocks blocks;
    version = some 0x05;
  }

  unfoldable pub prepare_multilateral_round : BigNumber → EdgeSelection → Outcome PreparedRound
  prepare_multilateral_round bn selection = do
    (filled, total) ←
        fill_blocks selection.participants (ordered_edges selection)
          (blocks_without_entries selection.participants) 0
    round_blocks ← collect_blocks filled selection.participants
    message ← create_clearing_round_message bn (round_params round_blocks)
    submitter ← first_participant selection.participants
    ok (record {
      participants = selection.participants;
      edges = ordered_edges selection;
      round_blocks = round_blocks;
      message = message;
      active_participants = active_round_participants round_blocks;
      submitter = submitter;
      remaining_accounts =
          unique_writable_metas_for_pubkeys (map (λ p. p.participant_pda) selection.participants)
          ++ unique_writable_metas_for_pubkeys (map (λ e. e.channel_pda) (ordered_edges selection));
      total_gross_routed = total;
      total_underlying_commitments =
          as_number (context.edge_commitment_count * length (ordered_edges selection));
    })
