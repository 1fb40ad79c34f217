-- ===== src/Message/Settled.antt =====
-- The whole clearing-round message, header included.
use Prim.Native.Nat.{bit_and}
use agon_protocol.Base.{
  ℕ, ◌≢◌, ◌⊎◌, inl, inr, ◌==◌, ==_iff, Bool-cases, false, throw, invalid_clearing_round_message,
  ◌+◌, ◌^◌, ◌<◌, List, [], ◌∷◌, ◌++◌, map, ok, ◌≡◌, refl, sym, ap, ap₂, ◌∙◌, length, length-append,
  All, take, drop, drop_past, take_exact, append-nil, arith, le→leb, lt→ltb, ==_refl,
}
use agon_protocol.Base.Bits.{and_mask8}
use agon_protocol.Base.Bytes.{
  byte_at, byte_at-drop, slice, eq_bytes_refl, le_bytes, from_le, length-le_bytes, from_le-le_bytes,
}
use agon_protocol.Message.Client.{
  BigNumber, RoundParams, version_byte, create_clearing_round_message,
}
use agon_protocol.Message.Program.{
  Layout, parse_clearing_round_header, parse_clearing_round_layout, parse_blocks,
  read_clearing_round, cursor_at, bls_clearing_round_message_version,
}
use agon_protocol.Message.Rounds.{
  at, BlockFits, block_of, channels_of, block_bytes, metas_of, encode_blocks-bytes,
  parse_blocks-bytes, reread_blocks-metas_of,
}

-- What the wire format has room for.
pub record RoundFits (p : RoundParams) : Type 0 where
  pub token : p.token_id < 2 ^ 16
  pub domain : length p.message_domain ≡ 16
  pub some_block : 0 < length p.blocks
  pub few_blocks : length p.blocks < 256
  pub blocks : All BlockFits p.blocks

-- The bytes of the message.
abbrev message : RoundParams → List ℕ
message p =
    0x02
    ∷ version_byte p.version
    ∷ (p.message_domain ++ (le_bytes 2 p.token_id ++ (length p.blocks ∷ block_bytes p.blocks)))

create-message :
    (bn : BigNumber) (p : RoundParams)
    → RoundFits p
    → create_clearing_round_message bn p ≡ ok (message p)
unfolding create_clearing_round_message
create-message bn p h =
    let low : bit_and (length p.blocks) 255 ≡ length p.blocks =
      omega (arith, and_mask8 (length p.blocks)) in
    rw (encode_blocks-bytes p.blocks h.blocks, bn.fits p.token_id 2 (omega arith), low)

module _ (p : RoundParams) (h : RoundFits p) where
  at_token : drop 18 (message p) ≡ le_bytes 2 p.token_id ++ (length p.blocks ∷ block_bytes p.blocks)
  at_token = drop_past 2 18 (message p) p.message_domain _ refl (omega arith)

  at_count : drop 20 (message p) ≡ length p.blocks ∷ block_bytes p.blocks
  at_count =
      drop_past 18 20 (message p) (le_bytes 2 p.token_id) _ at_token
        (omega (arith, length-le_bytes 2 p.token_id))

  at_blocks : drop 21 (message p) ≡ block_bytes p.blocks
  at_blocks = drop_past 20 21 (message p) (length p.blocks ∷ []) _ at_count refl

  length-message : length (message p) ≡ 21 + length (block_bytes p.blocks)
  length-message = omega (
    arith,
    length-append p.message_domain
        (le_bytes 2 p.token_id ++ (length p.blocks ∷ block_bytes p.blocks)),
    length-append (le_bytes 2 p.token_id) (length p.blocks ∷ block_bytes p.blocks),
    length-le_bytes 2 p.token_id,
    h.domain,
  )

  slice-domain : slice 2 18 (message p) ≡ p.message_domain
  slice-domain = take_exact 16 p.message_domain _ h.domain

  slice-token : from_le (slice 18 20 (message p)) ≡ p.token_id
  slice-token =
      ap (λ (t : List ℕ). from_le (take 2 t)) at_token
      ∙ ap from_le (take_exact 2 (le_bytes 2 p.token_id) _ (length-le_bytes 2 p.token_id))
      ∙ from_le-le_bytes 2 p.token_id h.token

  byte_at-count : byte_at (message p) 20 ≡ length p.blocks
  byte_at-count = byte_at-drop 20 _ (message p) _ at_count

  header :
      parse_clearing_round_header (message p) p.message_domain (version_byte p.version)
      ≡ ok (p.token_id, length p.blocks)
  unfolding parse_clearing_round_header
  header = rw (
    le→leb 21 (length (message p)) (omega (arith, length-message)),
    ==_refl (version_byte p.version),
    slice-domain,
    eq_bytes_refl p.message_domain,
    byte_at-count,
    lt→ltb 0 (length p.blocks) h.some_block,
    slice-token,
  )

  layout_of : Layout
  layout_of = record {
    token_id = p.token_id;
    blocks = metas_of 21 p.blocks;
    channel_count = channels_of p.blocks;
  }

  blocks-message :
      parse_blocks (length p.blocks) 0 (cursor_at (message p) 21)
      ≡ ok (metas_of 21 p.blocks, channels_of p.blocks, at (length (message p)) [])
  blocks-message =
      ap (λ (t : List ℕ). parse_blocks (length p.blocks) 0 (at 21 t))
        (at_blocks ∙ sym (append-nil (block_bytes p.blocks)))
      ∙ parse_blocks-bytes p.blocks 21 0 [] h.blocks
      ∙ ap₂ (λ (n o : ℕ). ok (metas_of 21 p.blocks, n, at o [])) (omega arith) (sym length-message)

  parse-message :
      parse_clearing_round_layout (message p) p.message_domain (version_byte p.version)
      ≡ ok layout_of
  unfolding parse_clearing_round_layout layout_of
  parse-message = rw (header, blocks-message, ==_refl (length (message p)))

  read-message :
      version_byte p.version ≡ bls_clearing_round_message_version
      → read_clearing_round (message p) p.message_domain ≡ ok (p.token_id, map block_of p.blocks)
  unfolding read_clearing_round layout_of
  read-message current = rw (
    sym current,
    parse-message,
    reread_blocks-metas_of (message p) p.blocks 21 [] h.blocks
        (at_blocks ∙ sym (append-nil (block_bytes p.blocks))),
  )

-- A message of another version is refused before anything else is read.
other_version :
    (p : RoundParams)
    → RoundFits p
    → version_byte p.version ≢ bls_clearing_round_message_version
    → read_clearing_round (message p) p.message_domain ≡ throw invalid_clearing_round_message
unfolding read_clearing_round parse_clearing_round_layout parse_clearing_round_header
other_version p h differs = rw (
  le→leb 21 (length (message p)) (omega (arith, length-message p h)),
  other (version_byte p.version) differs,
)
  where
    other : (v : ℕ) → v ≢ 0x05 → (v == 0x05) ≡ false
    other v h = ground arith

-- A clearing round within the limits of the wire format (16 bytes of domain, 1 to 255 participants,
-- each with at most 255 entries, 32-bit ids, 64-bit amounts) is written without an error, in any version.
-- If the client writes version 0x05, the program reads from the bytes the same token and, block by
-- block, the same payer and entries, at the offsets that its first pass recorded, and it counts every
-- channel. In any other version, 0x04 included, which the client writes if it is given none, the program
-- refuses the message.
pub read_clearing_round-create_clearing_round_message :
    (bn : BigNumber) (p : RoundParams)
    → RoundFits p
    → (msg : List ℕ) × (create_clearing_round_message bn p ≡ ok msg)
      × (((version_byte p.version ≡ 0x05)
            × (read_clearing_round msg p.message_domain ≡ ok (p.token_id, map block_of p.blocks))
            × (layout : Layout) × (parse_clearing_round_layout msg p.message_domain 0x05
                ≡ ok layout)
            × (layout.channel_count ≡ channels_of p.blocks))
          ⊎ ((version_byte p.version ≢ 0x05)
              × (read_clearing_round msg p.message_domain ≡ throw invalid_clearing_round_message)))
unfolding layout_of
read_clearing_round-create_clearing_round_message bn p h = (
  message p,
  create-message bn p h,
  elim (Bool-cases (version_byte p.version == 0x05)) [
    | inl is_current ↦
        let current : version_byte p.version ≡ 0x05 = (==_iff _ 0x05).0 is_current in
        inl (
          current,
          read-message p h current,
          layout_of p h,
          ap (parse_clearing_round_layout (message p) p.message_domain) (sym current)
              ∙ parse-message p h,
          refl,
        )
    | inr other ↦
        let differs : version_byte p.version ≢ 0x05 = λ same. cc in
        inr (differs, other_version p h differs)
  ],
)

-- The same for version 0x05 alone.
pub read_clearing_round_current :
    (bn : BigNumber) (p : RoundParams)
    → RoundFits p
    → version_byte p.version ≡ 0x05
    → (msg : List ℕ) × (create_clearing_round_message bn p ≡ ok msg)
      × (read_clearing_round msg p.message_domain ≡ ok (p.token_id, map block_of p.blocks))
read_clearing_round_current bn p h current =
    (message p, create-message bn p h, read-message p h current)
