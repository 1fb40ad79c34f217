-- ===== src/Ed25519/Written.antt =====
-- Writes that follow each other fill a buffer with what they write.
use native.Mathlib.Nat.{zero-add, suc-add}
use agon_protocol.Base.{
  ℕ, zero, suc, ◌+◌, ◌-◌, ◌*◌, ◌<◌, lt→ltb, le→leb, List, [], ◌∷◌, ◌++◌, length, length-append,
  take_all, flatten, drop, take_exact, drop-length_append, drop-add, All, append_assoc, Outcome, ok,
  ◌>>=◌, ◌≡◌, refl, sym, ap, ap₂, ◌∙◌, arith,
}
use agon_protocol.Base.Bytes.{le_bytes, length-le_bytes}
use agon_protocol.Bls.{zero_buffer}
use agon_protocol.Ed25519.{
  Row, copy_into, write_u16, write_u16s, row_values, write_rows, write_buffers,
}

length-zero_buffer : (n : ℕ) → length (zero_buffer n) ≡ n
unfolding zero_buffer
length-zero_buffer zero = refl
length-zero_buffer (suc n) = ap suc (length-zero_buffer n)

-- A copy replaces as many bytes as it has.
pub copy_into-append :
    (offset : ℕ) (bytes before old after : List ℕ)
    → offset ≡ length before
    → length old ≡ length bytes
    → copy_into offset bytes (before ++ (old ++ after)) ≡ before ++ (bytes ++ after)
unfolding copy_into
copy_into-append offset bytes before old after at_end same_length =
    let sizes = length-append before (old ++ after) in
    let sizes' = length-append old after in
    ap₂ (λ (xs ys : List ℕ). xs ++ ys) (take_exact offset before (old ++ after) (sym at_end))
      (ap₂ (λ (xs ys : List ℕ). xs ++ ys)
        (take_all (length (before ++ (old ++ after)) - offset) bytes (omega arith))
        (ap (λ (n : ℕ). drop n (before ++ (old ++ after)))
            (ap₂ (λ (m n : ℕ). m + n) at_end (sym same_length))
          ∙ drop-add (length before) (length old) (before ++ (old ++ after))
          ∙ ap (drop (length old)) (drop-length_append before (old ++ after))
          ∙ drop-length_append old after))

-- The bytes of numbers that are written one behind the other.
abbrev pub u16_bytes : List ℕ → List ℕ
u16_bytes [] = []
u16_bytes (v ∷ vs) = le_bytes 2 v ++ u16_bytes vs

write_u16-append :
    (value offset : ℕ) (before after : List ℕ)
    → value < 65536
    → offset ≡ length before
    → write_u16 value offset (before ++ (0 ∷ 0 ∷ after))
      ≡ ok (before ++ (le_bytes 2 value ++ after))
unfolding write_u16
write_u16-append value offset before after fits at_end =
    let sizes = length-append before (0 ∷ 0 ∷ after) in
    rw
      (
        lt→ltb value 65536 fits,
        le→leb (offset + 2) (length (before ++ (0 ∷ 0 ∷ after))) (omega arith),
      )
      (ap ok (
        copy_into-append offset (le_bytes 2 value) before (0 ∷ 0 ∷ []) after at_end
          (sym (length-le_bytes 2 value))))

pub write_u16s-append :
    (values : List ℕ) (offset : ℕ) (before after : List ℕ)
    → All (λ (v : ℕ). v < 65536) values
    → offset ≡ length before
    → write_u16s offset values (before ++ (zero_buffer (length (u16_bytes values)) ++ after))
      ≡ ok (before ++ (u16_bytes values ++ after))
unfolding write_u16s zero_buffer le_bytes
write_u16s-append [] offset before after fits at_end = refl
write_u16s-append (v ∷ vs) offset before after (fit, fits) at_end =
    let rest = zero_buffer (length (u16_bytes vs)) ++ after in
    ap (λ (o : Outcome (List ℕ)). o >>= λ part. write_u16s (offset + 2) vs part)
      (write_u16-append v offset before rest fit at_end
        ∙ ap ok (sym (append_assoc before (le_bytes 2 v) rest)))
    ∙ write_u16s-append vs (offset + 2) (before ++ le_bytes 2 v) after fits
        (omega (arith, length-append before (le_bytes 2 v), length-le_bytes 2 v))
    ∙ ap ok (append_assoc before (le_bytes 2 v) (u16_bytes vs ++ after))

-- The header of each row.
abbrev pub row_bytes : List Row → List ℕ
row_bytes [] = []
row_bytes (row ∷ rows) = u16_bytes (row_values row) ++ row_bytes rows

abbrev pub IsRow : Row → Type 0
IsRow row = All (λ (v : ℕ). v < 65536) (row_values row)

pub write_rows-append :
    (rows : List Row) (index : ℕ) (before after : List ℕ)
    → All IsRow rows
    → 2 + index * 14 ≡ length before
    → write_rows index rows (before ++ (zero_buffer (length (row_bytes rows)) ++ after))
      ≡ ok (before ++ (row_bytes rows ++ after))
unfolding write_rows zero_buffer le_bytes
write_rows-append [] index before after fits at_end = refl
write_rows-append (row ∷ rows) index before after (fit, fits) at_end =
    let rest = zero_buffer (length (row_bytes rows)) ++ after in
    let header = u16_bytes (row_values row) in
    ap (λ (o : Outcome (List ℕ)). o >>= λ part. write_rows (index + 1) rows part)
      (write_u16s-append (row_values row) (2 + index * 14) before rest fit at_end
        ∙ ap ok (sym (append_assoc before header rest)))
    ∙ write_rows-append rows (index + 1) (before ++ header) after fits
        (omega (arith, length-append before header))
    ∙ ap ok (append_assoc before header (row_bytes rows ++ after))

pub zero_buffer-add : (m n : ℕ) → zero_buffer (m + n) ≡ zero_buffer m ++ zero_buffer n
unfolding zero_buffer
zero_buffer-add zero n = ap zero_buffer (zero-add n)
zero_buffer-add (suc m) n = ap zero_buffer (suc-add m n) ∙ ap (◌∷◌ 0) (zero_buffer-add m n)

pub write_buffers-append :
    (buffers : List (List ℕ)) (offset : ℕ) (before : List ℕ)
    → offset ≡ length before
    → write_buffers offset buffers (before ++ zero_buffer (length (flatten buffers)))
      ≡ before ++ flatten buffers
unfolding write_buffers zero_buffer
write_buffers-append [] offset before at_end = refl
write_buffers-append (b ∷ bs) offset before at_end =
    let rest = zero_buffer (length (flatten bs)) in
    ap
      (λ (zeros : List ℕ).
        write_buffers (offset + length b) bs (copy_into offset b (before ++ zeros)))
      (ap zero_buffer (length-append b (flatten bs))
        ∙ zero_buffer-add (length b) (length (flatten bs)))
    ∙ ap (write_buffers (offset + length b) bs) (
        copy_into-append offset b before (zero_buffer (length b)) rest at_end
          (length-zero_buffer (length b))
        ∙ sym (append_assoc before b rest))
    ∙ write_buffers-append bs (offset + length b) (before ++ b)
        (omega (arith, length-append before b))
    ∙ append_assoc before b (flatten bs)
