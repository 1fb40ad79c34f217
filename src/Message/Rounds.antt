-- ===== src/Message/Rounds.antt =====
-- A clearing round that the client writes is the one that the program settles.
use Prim.Native.Nat.{bit_and}
use agon_protocol.Base.{
  ℕ, ◌+◌, ◌^◌, ◌<◌, List, [], ◌∷◌, ◌++◌, map, Outcome, ok, ◌≡◌, refl, length, length-append, All,
  drop, drop_past, append_assoc, arith, invalid_clearing_round_message, ap, ap₂, ◌∙◌,
}
use agon_protocol.Base.Bits.{and_mask8}
use agon_protocol.Base.Int.{ℤ, pos, negsuc}
use agon_protocol.Compact.{Cursor, encode_bytes, encode_compact_u64}
use agon_protocol.Compact.Decode.{read_varint_u64-encode_bytes, read_varint_u32-encode_bytes}
use agon_protocol.Message.Client.{Entry, Block, encode_entries, encode_blocks}
use agon_protocol.Message.Program.{
  BlockMeta, ChannelEntry, read_byte, parse_channel_entry, parse_entries, parse_blocks,
  reread_blocks,
}

-- An integer that is a number below `bound`.
abbrev pub Fits : ℕ → ℤ → Type 0
Fits bound (pos n) = n < bound
Fits bound (negsuc n) = ⊥

abbrev pub magnitude : ℤ → ℕ
magnitude (pos n) = n
magnitude (negsuc n) = 0

-- What the wire format has room for.
abbrev pub EntryFits : Entry → Type 0
EntryFits e = (e.payee_ref < 256) × Fits (2 ^ 64) e.target_cumulative

abbrev pub BlockFits : Block → Type 0
BlockFits b = Fits (2 ^ 32) b.participant_id × (length b.entries < 256) × All EntryFits b.entries

-- An entry and a block as the program should see them.
abbrev pub entry_of : Entry → ChannelEntry
entry_of e = record { payee_ref = e.payee_ref; target_cumulative = magnitude e.target_cumulative }

abbrev pub block_of : Block → ℕ × List ChannelEntry
block_of b = (magnitude b.participant_id, map entry_of b.entries)

abbrev pub entry_bytes : List Entry → List ℕ
entry_bytes [] = []
entry_bytes (e ∷ es) =
    e.payee_ref ∷ (encode_bytes (magnitude e.target_cumulative) ++ entry_bytes es)

abbrev pub block_bytes : List Block → List ℕ
block_bytes [] = []
block_bytes (b ∷ bs) =
    encode_bytes (magnitude b.participant_id)
    ++ (length b.entries ∷ (entry_bytes b.entries ++ block_bytes bs))

pub encode-Fits :
    (bound : ℕ) (z : ℤ) → Fits bound z → encode_compact_u64 z ≡ ok (encode_bytes (magnitude z))
unfolding encode_compact_u64
encode-Fits bound (pos n) h = refl
encode-Fits bound (negsuc n) h = absurd h

pub magnitude-lt : (bound : ℕ) (z : ℤ) → Fits bound z → magnitude z < bound
magnitude-lt bound (pos n) h = h
magnitude-lt bound (negsuc n) h = absurd h

pub encode_entries-bytes :
    (es : List Entry) → All EntryFits es → encode_entries es ≡ ok (entry_bytes es)
unfolding encode_entries
encode_entries-bytes [] h = refl
encode_entries-bytes (e ∷ es) ((href, ht), hes) =
    let low : bit_and e.payee_ref 255 ≡ e.payee_ref = omega (arith, and_mask8 e.payee_ref) in
    rw (encode-Fits (2 ^ 64) e.target_cumulative ht, encode_entries-bytes es hes, low)

pub encode_blocks-bytes :
    (bs : List Block) → All BlockFits bs → encode_blocks bs ≡ ok (block_bytes bs)
unfolding encode_blocks
encode_blocks-bytes [] h = refl
encode_blocks-bytes (b ∷ bs) ((hid, hn, hes), hbs) =
    let low : bit_and (length b.entries) 255 ≡ length b.entries =
      omega (arith, and_mask8 (length b.entries)) in
    rw (
      encode-Fits (2 ^ 32) b.participant_id hid,
      encode_entries-bytes b.entries hes,
      encode_blocks-bytes bs hbs,
      low,
    )

abbrev pub at : ℕ → List ℕ → Cursor
at offset rest = record { offset = offset; rest = rest }

parse_entry-bytes :
    (e : Entry) (offset : ℕ) (rest : List ℕ)
    → EntryFits e
    → parse_channel_entry
        (at offset (e.payee_ref ∷ (encode_bytes (magnitude e.target_cumulative) ++ rest)))
      ≡ ok
          (entry_of e, at (offset + 1 + length (encode_bytes (magnitude e.target_cumulative))) rest)
unfolding parse_channel_entry read_byte
parse_entry-bytes e offset rest (href, ht) = rw (
    read_varint_u64-encode_bytes (magnitude e.target_cumulative) (offset + 1) rest
      invalid_clearing_round_message (magnitude-lt (2 ^ 64) e.target_cumulative ht))

parse_entries-bytes :
    (es : List Entry) (offset : ℕ) (rest : List ℕ)
    → All EntryFits es
    → parse_entries (length es) (at offset (entry_bytes es ++ rest))
      ≡ ok (map entry_of es, at (offset + length (entry_bytes es)) rest)
unfolding parse_entries
parse_entries-bytes [] offset rest h =
    ap {B = Outcome (List ChannelEntry × Cursor)} (λ o. ok ([], at o rest)) (omega arith)
parse_entries-bytes (e ∷ es) offset rest (he, hes) =
    let amount = encode_bytes (magnitude e.target_cumulative) in
    let found = map entry_of (e ∷ es) in
    rw
      (
        append_assoc amount (entry_bytes es) rest,
        parse_entry-bytes e offset (entry_bytes es ++ rest) he,
        parse_entries-bytes es (offset + 1 + length amount) rest hes,
      )
      (ap {B = Outcome (List ChannelEntry × Cursor)} (λ o. ok (found, at o rest))
        (omega (arith, length-append amount (entry_bytes es))))

-- The layout that the program should find, for blocks that begin at `offset`.
abbrev pub metas_of : ℕ → List Block → List BlockMeta
metas_of offset [] = []
metas_of offset (b ∷ bs) =
    let start = offset + length (encode_bytes (magnitude b.participant_id)) + 1 in
    record {
      participant_id = magnitude b.participant_id;
      entry_count = length b.entries;
      entries_offset = start;
    }
    ∷ metas_of (start + length (entry_bytes b.entries)) bs

abbrev pub channels_of : List Block → ℕ
channels_of [] = 0
channels_of (b ∷ bs) = length b.entries + channels_of bs

pub parse_blocks-bytes :
    (bs : List Block) (offset channels : ℕ) (rest : List ℕ)
    → All BlockFits bs
    → parse_blocks (length bs) channels (at offset (block_bytes bs ++ rest))
      ≡ ok (
        metas_of offset bs,
        channels + channels_of bs,
        at (offset + length (block_bytes bs)) rest,
      )
unfolding parse_blocks read_byte
parse_blocks-bytes [] offset channels rest h =
    ap₂ {C = Outcome (List BlockMeta × ℕ × Cursor)} (λ n o. ok ([], n, at o rest)) (omega arith)
      (omega arith)
parse_blocks-bytes (b ∷ bs) offset channels rest ((hid, hn, hes), hbs) =
    let id = encode_bytes (magnitude b.participant_id) in
    let es = entry_bytes b.entries in
    let start = offset + length id + 1 in
    rw
      (
        append_assoc id (length b.entries ∷ (es ++ block_bytes bs)) rest,
        append_assoc es (block_bytes bs) rest,
        read_varint_u32-encode_bytes (magnitude b.participant_id) offset
            (length b.entries ∷ (es ++ (block_bytes bs ++ rest))) invalid_clearing_round_message
            (magnitude-lt (2 ^ 32) b.participant_id hid),
        parse_entries-bytes b.entries start (block_bytes bs ++ rest) hes,
        parse_blocks-bytes bs (start + length es) (channels + length b.entries) rest hbs,
      )
      (ap₂ {C = Outcome (List BlockMeta × ℕ × Cursor)}
        (λ n o. ok (metas_of offset (b ∷ bs), n, at o rest)) (omega arith)
        (omega (
          arith,
          length-append id (length b.entries ∷ (es ++ block_bytes bs)),
          length-append es (block_bytes bs),
        )))

-- The second pass finds the entries at the offsets that the first one recorded.
pub reread_blocks-metas_of :
    (msg : List ℕ) (bs : List Block) (offset : ℕ) (rest : List ℕ)
    → All BlockFits bs
    → drop offset msg ≡ block_bytes bs ++ rest
    → reread_blocks msg (metas_of offset bs) ≡ ok (map block_of bs)
unfolding reread_blocks
reread_blocks-metas_of msg [] offset rest h hd = refl
reread_blocks-metas_of msg (b ∷ bs) offset rest ((hid, hn, hes), hbs) hd =
    let id = encode_bytes (magnitude b.participant_id) in
    let es = entry_bytes b.entries in
    let start = offset + length id + 1 in
    let at_count : drop (offset + length id) msg
        ≡ length b.entries ∷ (es ++ (block_bytes bs ++ rest)) =
      drop_past offset (offset + length id) msg id _
        (hd
          ∙ append_assoc id (length b.entries ∷ (es ++ block_bytes bs)) rest
          ∙ ap (λ t. id ++ (length b.entries ∷ t)) (append_assoc es (block_bytes bs) rest))
        refl in
    let at_entries : drop start msg ≡ es ++ (block_bytes bs ++ rest) =
      drop_past (offset + length id) start msg (length b.entries ∷ []) _ at_count refl in
    let at_next : drop (start + length es) msg ≡ block_bytes bs ++ rest =
      drop_past start (start + length es) msg es _ at_entries refl in
    rw (
      at_entries,
      parse_entries-bytes b.entries start (block_bytes bs ++ rest) hes,
      reread_blocks-metas_of msg bs (start + length es) rest hbs at_next,
    )
