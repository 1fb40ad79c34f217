-- ===== src/Ed25519/RoundTrip.antt =====
-- What the program reads from an instruction for the Ed25519 program that the client wrote.
use agon_protocol.Base.Reordered.{All-get_elem?}
use agon_protocol.Base.{
  ℕ, zero, suc, ◌+◌, ◌-◌, ◌*◌, ◌<◌, lt→ltb, le→leb, List, [], ◌∷◌, ◌++◌, length, length-append,
  flatten, take, drop, take_exact, drop-length_append, drop-add, get_elem?, lt_of_get_elem?, some,
  All, append_assoc, ok, ◌>>◌, ◌≡◌, refl, sym, ap, ap₂, ◌∙◌, arith,
}
use agon_protocol.Base.Bytes.{le_bytes, from_le, from_le-le_bytes, slice}
use agon_protocol.Ed25519.{
  SignedEntry, Row, row_of, rows_from, row_values, buffers_of, cursor_after,
  create_multi_message_ed25519_instruction, SignatureOffsets, offsets_of,
  require_self_contained_offsets, parse_ed25519_offsets, extract_pubkey, extract_message,
}
use agon_protocol.Ed25519.Written.{u16_bytes, row_bytes, IsRow}
use agon_protocol.Ed25519.Layout.{
  IsEntry, rows_from-IsRow, length-row_bytes, header_size, headers, layout,
  create_multi_message_ed25519_instruction-layout,
}

slice_at :
    (from size : ℕ) (before xs after : List ℕ)
    → length before ≡ from
    → length xs ≡ size
    → slice from (from + size) (before ++ (xs ++ after)) ≡ xs
slice_at from size before xs after at_end sized =
    let wide : from + size - from ≡ length xs = omega arith in
    ap₂ (λ (n : ℕ) (whole : List ℕ). take n whole) wide
      (ap (λ (n : ℕ). drop n (before ++ (xs ++ after))) (sym at_end)
        ∙ drop-length_append before (xs ++ after))
    ∙ take_exact (length xs) xs after refl

-- A header of an index, in the headers of all rows.
row_bytes_at :
    (rows : List Row) (i : ℕ) (row : Row) (after : List ℕ)
    → get_elem? rows i ≡ some row
    → slice (i * 14) (i * 14 + 14) (row_bytes rows ++ after) ≡ u16_bytes (row_values row)
unfolding le_bytes
row_bytes_at [] i row after h = cc
row_bytes_at (r ∷ rows) zero row after h =
    let same : r ≡ row = cc in ap (λ (r : Row). u16_bytes (row_values r)) same
row_bytes_at (r ∷ rows) (suc i) row after h =
    let size : suc i * 14 + 14 - suc i * 14 ≡ i * 14 + 14 - i * 14 = omega arith in
    let from : suc i * 14 ≡ 14 + i * 14 = omega arith in
    ap₂ (λ (m n : ℕ). take m (drop n (row_bytes (r ∷ rows) ++ after))) size from
    ∙ ap (take (i * 14 + 14 - i * 14)) (drop-add 14 (i * 14) (row_bytes (r ∷ rows) ++ after))
    ∙ row_bytes_at rows i row after h

rows_from_at :
    (es : List SignedEntry) (i : ℕ) (e : SignedEntry) (cursor : ℕ)
    → get_elem? es i ≡ some e
    → get_elem? (rows_from cursor es) i ≡ some (row_of (cursor_after cursor (take i es)) e)
unfolding rows_from cursor_after
rows_from_at [] i e cursor h = cc
rows_from_at (x ∷ es) zero e cursor h = cc
rows_from_at (x ∷ es) (suc i) e cursor h =
    rows_from_at es i e (cursor + 32 + 64 + length x.message) h

abbrev offsets_of_row : Row → SignatureOffsets
offsets_of_row row = record {
  signature_offset = row.signature_offset;
  signature_instruction_index = 0xffff;
  public_key_offset = row.public_key_offset;
  public_key_instruction_index = 0xffff;
  message_data_offset = row.message_offset;
  message_data_size = row.message_length;
  message_instruction_index = 0xffff;
}

offsets_of_lem :
    (row : Row) → IsRow row → offsets_of (u16_bytes (row_values row)) ≡ offsets_of_row row
unfolding offsets_of le_bytes from_le
offsets_of_lem row fits = λ i. record {
  signature_offset = from_le-le_bytes 2 row.signature_offset fits.0 i;
  signature_instruction_index = 0xffff;
  public_key_offset = from_le-le_bytes 2 row.public_key_offset fits.1.1.0 i;
  public_key_instruction_index = 0xffff;
  message_data_offset = from_le-le_bytes 2 row.message_offset fits.1.1.1.1.0 i;
  message_data_size = from_le-le_bytes 2 row.message_length fits.1.1.1.1.1.0 i;
  message_instruction_index = 0xffff;
}

-- Where the bytes of an entry stand.
entry_at :
    (es : List SignedEntry) (i : ℕ) (e : SignedEntry) (cursor : ℕ) (before : List ℕ)
    → All IsEntry es
    → get_elem? es i ≡ some e
    → length before ≡ cursor
    → (front : List ℕ) × (back : List ℕ) × (before ++ flatten (buffers_of es)
        ≡ front ++ (e.signer.public_key ++ (e.signer.sign e.message ++ (e.message ++ back))))
      × (length front ≡ cursor_after cursor (take i es))
unfolding buffers_of cursor_after
entry_at [] i e cursor before sized h at_end = cc
entry_at (x ∷ es) zero e cursor before sized h at_end =
    let same : x ≡ e = cc in
    (
      before,
      flatten (buffers_of es),
      ap
          (λ (x : SignedEntry).
            before
            ++ (x.signer.public_key
                ++ (x.signer.sign x.message ++ (x.message ++ flatten (buffers_of es)))))
          same,
      at_end,
    )
entry_at (x ∷ es) (suc i) e cursor before ((key, signature), sized) h at_end =
    let own = x.signer.public_key ++ (x.signer.sign x.message ++ x.message) in
    let rest = flatten (buffers_of es) in
    let (front, back, is, measured) =
      entry_at es i e (cursor + 32 + 64 + length x.message) (before ++ own) sized h (
        omega (
          arith,
          length-append before own,
          length-append x.signer.public_key (x.signer.sign x.message ++ x.message),
          length-append (x.signer.sign x.message) x.message,
        )) in
    (
      front,
      back,
      ap (◌++◌ before) (
            ap (◌++◌ x.signer.public_key)
              (sym (append_assoc (x.signer.sign x.message) x.message rest))
            ∙ sym (append_assoc x.signer.public_key (x.signer.sign x.message ++ x.message) rest))
          ∙ sym (append_assoc before own rest)
          ∙ is,
      measured,
    )

-- The header of an index gives the offsets of the entry at that index.
parse_ed25519_offsets_at :
    (es : List SignedEntry) (i : ℕ) (e : SignedEntry)
    → cursor_after (header_size es) es < 65536
    → get_elem? es i ≡ some e
    → parse_ed25519_offsets (layout es) i
      ≡ ok (offsets_of_row (row_of (cursor_after (header_size es) (take i es)) e))
unfolding parse_ed25519_offsets require_self_contained_offsets
parse_ed25519_offsets_at es i e short h =
    let row = row_of (cursor_after (header_size es) (take i es)) e in
    let rows = rows_from (header_size es) es in
    let payload = flatten (buffers_of es) in
    let below = lt_of_get_elem? es i e h in
    let is_row = rows_from_at es i e (header_size es) h in
    let header = row_bytes_at rows i row payload is_row in
    let sizes = length-append (headers es) payload in
    let sizes' = length-row_bytes es (header_size es) in
    let parsed =
      offsets_of_lem row
        (All-get_elem? IsRow rows i row (rows_from-IsRow es (header_size es) short) is_row) in
    let size : 2 + i * 14 + 14 - (2 + i * 14) ≡ i * 14 + 14 - i * 14 = omega arith in
    let sliced : slice (2 + i * 14) (2 + i * 14 + 14) (layout es) ≡ u16_bytes (row_values row) =
      ap₂ (λ (m : ℕ) (whole : List ℕ). take m whole) size (drop-add 2 (i * 14) (layout es))
      ∙ header in
    rw
      (
        le→leb 2 (length (layout es)) (omega arith),
        lt→ltb 0 (length es) (omega arith),
        lt→ltb i (length es) below,
        le→leb (2 + i * 14 + 14) (length (layout es)) (omega arith),
      )
      (ap (λ (offsets : SignatureOffsets). require_self_contained_offsets offsets >> ok offsets)
        (ap offsets_of sliced ∙ parsed))

-- What the program reads at an index, and the signature that the Ed25519 program checks there.
abbrev pub Carries : List ℕ → ℕ → SignedEntry → Type 0
Carries ix_data i e =
    (offsets : SignatureOffsets) × (parse_ed25519_offsets ix_data i ≡ ok offsets)
    × (extract_pubkey ix_data offsets ≡ ok e.signer.public_key)
    × (extract_message ix_data offsets ≡ ok e.message)
    × (slice offsets.signature_offset (offsets.signature_offset + 64) ix_data
        ≡ e.signer.sign e.message)

-- An instruction for fewer than 256 entries, whose data is shorter than 65536 bytes, is created, and at
-- the index of each entry the program reads the entry's key and message, and the signature of the
-- message stands where its offsets say, if keys have 32 bytes and signatures 64.
pub create_multi_message_ed25519_instruction-Carries :
    (es : List SignedEntry) (i : ℕ) (e : SignedEntry)
    → length es < 256
    → cursor_after (header_size es) es < 65536
    → All IsEntry es
    → get_elem? es i ≡ some e
    → (ix_data : List ℕ) × (create_multi_message_ed25519_instruction es ≡ ok ix_data)
      × Carries ix_data i e
unfolding extract_pubkey extract_message
create_multi_message_ed25519_instruction-Carries es i e few short sized h =
    let cursor = cursor_after (header_size es) (take i es) in
    let (front, back, is, measured) =
      entry_at es i e (header_size es) (length es ∷ 0 ∷ headers es) sized h
        (omega (arith, length-row_bytes es (header_size es))) in
    let (key, signature) = All-get_elem? IsEntry es i e sized h in
    let signed = e.signer.sign e.message in
    let own = signed ++ (e.message ++ back) in
    let sizes₁ = length-append front (e.signer.public_key ++ own) in
    let sizes₂ = length-append e.signer.public_key own in
    let sizes₃ = length-append signed (e.message ++ back) in
    let sizes₄ = length-append e.message back in
    let sizes₅ = length-append front e.signer.public_key in
    let sizes₆ = length-append (front ++ e.signer.public_key) signed in
    let measure : length (layout es) ≡ length (front ++ (e.signer.public_key ++ own)) =
      ap length is in
    let is_signed = is ∙ sym (append_assoc front e.signer.public_key own) in
    let is_message =
      is_signed ∙ sym (append_assoc (front ++ e.signer.public_key) signed (e.message ++ back)) in
    (
      layout es,
      create_multi_message_ed25519_instruction-layout es few short sized,
      (
        offsets_of_row (row_of cursor e),
        parse_ed25519_offsets_at es i e short h,
        rw (le→leb (cursor + 32) (length (layout es)) (omega arith)) (
            ap ok (
              ap (slice cursor (cursor + 32)) is
              ∙ slice_at cursor 32 front e.signer.public_key own measured key)),
        rw (le→leb (cursor + 32 + 64 + length e.message) (length (layout es)) (omega arith)) (
            ap ok (
              ap (slice (cursor + 32 + 64) (cursor + 32 + 64 + length e.message)) is_message
              ∙ slice_at (cursor + 32 + 64) (length e.message)
                  ((front ++ e.signer.public_key) ++ signed) e.message back (omega arith) refl)),
        ap (slice (cursor + 32) (cursor + 32 + 64)) is_signed
            ∙ slice_at (cursor + 32) 64 (front ++ e.signer.public_key) signed (e.message ++ back)
                (omega arith) signature,
      ),
    )
