-- ===== src/Ed25519/Layout.antt =====
-- What an instruction for the Ed25519 program holds, byte by byte.
use agon_protocol.Base.{
  ℕ, suc, ◌+◌, ◌*◌, ◌%◌, ◌≤◌, ◌<◌, List, [], ◌∷◌, ◌++◌, length, length-append, flatten, All,
  Outcome, ok, ◌>>=◌, ◌≡◌, refl, ap, ◌∙◌, arith,
}
use agon_protocol.Base.Bytes.{le_bytes}
use agon_protocol.Bls.{zero_buffer}
use agon_protocol.Ed25519.{
  SignedEntry, copy_into, rows_from, buffers_of, cursor_after, write_rows, write_buffers,
  create_multi_message_ed25519_instruction,
}
use agon_protocol.Ed25519.Written.{
  copy_into-append, row_bytes, IsRow, write_rows-append, zero_buffer-add, write_buffers-append,
}

-- Keys have 32 bytes and signatures 64.
abbrev pub IsEntry : SignedEntry → Type 0
IsEntry e = (length e.signer.public_key ≡ 32) × (length (e.signer.sign e.message) ≡ 64)

pub cursor_after_lem :
    (es : List SignedEntry) (cursor : ℕ)
    → All IsEntry es
    → cursor_after cursor es ≡ cursor + length (flatten (buffers_of es))
unfolding cursor_after buffers_of
cursor_after_lem [] cursor sized = omega arith
cursor_after_lem (e ∷ es) cursor ((key, signature), sized) =
    let rest = flatten (buffers_of es) in
    omega (
      arith,
      cursor_after_lem es (cursor + 32 + 64 + length e.message) sized,
      length-append e.signer.public_key (e.signer.sign e.message ++ (e.message ++ rest)),
      length-append (e.signer.sign e.message) (e.message ++ rest),
      length-append e.message rest,
    )

cursor_after_le : (es : List SignedEntry) (cursor : ℕ) → cursor ≤ cursor_after cursor es
unfolding cursor_after
cursor_after_le [] cursor = omega arith
cursor_after_le (e ∷ es) cursor =
    omega (arith, cursor_after_le es (cursor + 32 + 64 + length e.message))

pub rows_from-IsRow :
    (es : List SignedEntry) (cursor : ℕ)
    → cursor_after cursor es < 65536
    → All IsRow (rows_from cursor es)
unfolding cursor_after rows_from
rows_from-IsRow [] cursor fits = tt
rows_from-IsRow (e ∷ es) cursor fits =
    let next = cursor_after_le es (cursor + 32 + 64 + length e.message) in
    (
      (
        omega arith,
        (
          omega arith,
          (omega arith, (omega arith, (omega arith, (omega arith, (omega arith, tt))))),
        ),
      ),
      rows_from-IsRow es (cursor + 32 + 64 + length e.message) fits,
    )

pub length-row_bytes :
    (es : List SignedEntry) (cursor : ℕ) → length (row_bytes (rows_from cursor es)) ≡ 14 * length es
unfolding rows_from le_bytes
length-row_bytes [] cursor = omega arith
length-row_bytes (e ∷ es) cursor =
    omega (arith, length-row_bytes es (cursor + 32 + 64 + length e.message))

abbrev pub header_size : List SignedEntry → ℕ
header_size es = 2 + 14 * length es

abbrev pub headers : List SignedEntry → List ℕ
headers es = row_bytes (rows_from (header_size es) es)

abbrev pub layout : List SignedEntry → List ℕ
layout es = length es ∷ 0 ∷ (headers es ++ flatten (buffers_of es))

counted_lem :
    (n : ℕ) (rest : List ℕ)
    → n < 256
    → copy_into 1 (0 ∷ []) (copy_into 0 (n % 256 ∷ []) (0 ∷ 0 ∷ rest)) ≡ n ∷ 0 ∷ rest
counted_lem n rest h =
    let small : n % 256 ≡ n = omega arith in
    ap (copy_into 1 (0 ∷ [])) (copy_into-append 0 (n % 256 ∷ []) [] (0 ∷ []) (0 ∷ rest) refl refl)
    ∙ copy_into-append 1 (0 ∷ []) (n % 256 ∷ []) (0 ∷ []) rest refl refl
    ∙ ap (λ (b : ℕ). b ∷ 0 ∷ rest) small

blank_lem :
    (es : List SignedEntry)
    → All IsEntry es
    → zero_buffer (cursor_after (header_size es) es)
      ≡ 0
        ∷ 0
        ∷ (zero_buffer (length (headers es)) ++ zero_buffer (length (flatten (buffers_of es))))
unfolding zero_buffer
blank_lem es sized =
    let size = length (flatten (buffers_of es)) in
    let total : cursor_after (header_size es) es ≡ suc (suc (length (headers es) + size)) =
      omega
        (arith, cursor_after_lem es (header_size es) sized, length-row_bytes es (header_size es)) in
    ap zero_buffer total
    ∙ ap (λ (zeros : List ℕ). 0 ∷ 0 ∷ zeros) (zero_buffer-add (length (headers es)) size)

pub create_multi_message_ed25519_instruction-layout :
    (es : List SignedEntry)
    → length es < 256
    → cursor_after (header_size es) es < 65536
    → All IsEntry es
    → create_multi_message_ed25519_instruction es ≡ ok (layout es)
unfolding create_multi_message_ed25519_instruction
create_multi_message_ed25519_instruction-layout es few short sized =
    let rows = rows_from (header_size es) es in
    let blank = zero_buffer (length (flatten (buffers_of es))) in
    ap
      (λ (whole : List ℕ). write_rows 0 rows whole >>= λ headed.
        ok (write_buffers (header_size es) (buffers_of es) headed))
      (ap (λ (zeros : List ℕ). copy_into 1 (0 ∷ []) (copy_into 0 (length es % 256 ∷ []) zeros))
          (blank_lem es sized)
        ∙ counted_lem (length es) (zero_buffer (length (headers es)) ++ blank) few)
    ∙ ap
        (λ (o : Outcome (List ℕ)).
          o >>= λ headed. ok (write_buffers (header_size es) (buffers_of es) headed))
        (write_rows-append rows 0 (length es ∷ 0 ∷ []) blank
          (rows_from-IsRow es (header_size es) short) refl)
    ∙ ap ok (
        write_buffers-append (buffers_of es) (header_size es) (length es ∷ 0 ∷ headers es)
          (omega (arith, length-row_bytes es (header_size es))))
