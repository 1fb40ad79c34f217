-- ===== src/Capacity/Pairs.antt =====
-- The ordered pairs of a round: each pair of distinct participants, once.
use native.Mathlib.Decide.{dec_lt}
use native.Mathlib.Nat.{mul-le-mul_right, div-add-mod}
use agon_protocol.Base.{
  Option, sym, lt_of_get_elem?, lt→ltb, false, ◌↔◌, ℕ, zero, suc, ◌+◌, ◌-◌, ◌*◌, ◌%◌, ◌/◌, ◌<◌, ◌≤◌,
  ◌++◌, get_elem?, length, length-append, some, ◌≡◌, ◌≢◌, refl, ap, ap₂, ◌∙◌, arith,
  get_elem?-append_left, get_elem?-append_right, ◌⊎◌, inl, inr, ltb, if◌then◌else◌, Bool-cases,
}
use agon_protocol.Capacity.Round.{ordered_row, ordered_rows, build_ordered_pairs}

length-ordered_row :
    (rounds count offset payer : ℕ) → length (ordered_row rounds count offset payer) ≡ rounds
unfolding ordered_row
length-ordered_row zero count offset payer = refl
length-ordered_row (suc rounds) count offset payer =
    ap suc (length-ordered_row rounds count offset (payer + 1))

length-ordered_rows :
    (rounds count offset : ℕ) → length (ordered_rows rounds count offset) ≡ rounds * count
unfolding ordered_rows
length-ordered_rows zero count offset = omega arith
length-ordered_rows (suc rounds) count offset = omega (
  arith,
  length-append (ordered_row count count offset 0) (ordered_rows rounds count (offset + 1)),
  length-ordered_row count count offset 0,
  length-ordered_rows rounds count (offset + 1),
)

row_elem :
    (i rounds count offset payer : ℕ)
    → i < rounds
    → get_elem? (ordered_row rounds count offset payer) i
      ≡ some (payer + i, (payer + i + offset) % count)
unfolding ordered_row
row_elem i zero count offset payer h = absurd (omega arith)
row_elem zero (suc rounds) count offset payer h =
    ap (λ (t : ℕ). some (t, (t + offset) % count)) (omega arith)
row_elem (suc i) (suc rounds) count offset payer h =
    row_elem i rounds count offset (payer + 1) (omega arith)
    ∙ ap (λ (t : ℕ). some (t, (t + offset) % count)) (omega arith)

rows_elem :
    (q i rounds count offset : ℕ)
    → q < rounds
    → i < count
    → get_elem? (ordered_rows rounds count offset) (q * count + i)
      ≡ some (i, (i + (offset + q)) % count)
unfolding ordered_rows
rows_elem q i zero count offset hq hi = absurd (omega arith)
rows_elem zero i (suc rounds) count offset hq hi =
    let first : i < length (ordered_row count count offset 0) =
      omega (arith, length-ordered_row count count offset 0) in
    ap (get_elem? (ordered_row count count offset 0 ++ ordered_rows rounds count (offset + 1)))
      (omega arith)
    ∙ get_elem?-append_left (ordered_row count count offset 0) _ i first
    ∙ row_elem i count count offset 0 hi
    ∙ ap₂ (λ (s t : ℕ). some (s, t % count)) (omega arith) (omega arith)
rows_elem (suc q) i (suc rounds) count offset hq hi =
    get_elem?-append_right (ordered_row count count offset 0) _ (suc q * count + i) (q * count + i)
      (omega (arith, length-ordered_row count count offset 0))
    ∙ rows_elem q i rounds count (offset + 1) (omega arith) hi
    ∙ ap (λ (t : ℕ). some (i, t % count)) (omega arith)

-- Adding an offset below `n`, modulo `n`.
wrap_below : (x n : ℕ) → x < n → x % n ≡ x
wrap_below x n h = grind arith

wrap_above : (x n : ℕ) → n ≤ x → x < n + n → x % n ≡ x - n
wrap_above x n h k = grind arith

wrap_cases :
    (i k n : ℕ)
    → i < n
    → k < n
    → ((i + k < n) × ((i + k) % n ≡ i + k)) ⊎ ((n ≤ i + k) × ((i + k) % n ≡ i + k - n))
wrap_cases i k n hi hk = elim (dec_lt (i + k) n) [
  | yes low ↦ inl (low, wrap_below (i + k) n low)
  | no high ↦ inr (omega arith, wrap_above (i + k) n (omega arith) (omega arith))
]

pub length-build_ordered_pairs : (n : ℕ) → length (build_ordered_pairs n) ≡ n * (n - 1)
unfolding build_ordered_pairs
length-build_ordered_pairs n = omega (arith, length-ordered_rows (n - 1) n 1)

pair_elem :
    (q i n : ℕ)
    → suc q < n
    → i < n
    → get_elem? (build_ordered_pairs n) (q * n + i) ≡ some (i, (i + suc q) % n)
unfolding build_ordered_pairs
pair_elem q i n hq hi =
    rows_elem q i (n - 1) n 1 (omega arith) hi ∙ ap (λ (t : ℕ). some (i, (i + t) % n)) (omega arith)

-- Where a pair stands in the list.
abbrev pub position : ℕ → ℕ → ℕ → ℕ
position n i j = if ltb i j then (j - i - 1) * n + i else (j + n - i - 1) * n + i

pair_at_position :
    (n i j : ℕ)
    → i < n
    → j < n
    → i ≢ j
    → get_elem? (build_ordered_pairs n) (position n i j) ≡ some (i, j)
pair_at_position n i j hi hj d = elim (Bool-cases (ltb i j)) [
  | inl up ↦ rw up (
      pair_elem (j - i - 1) i n (ground arith) hi
      ∙ ap (λ (t : ℕ). some (i, t)) (ap (λ (t : ℕ). t % n) (ground arith) ∙ wrap_below j n hj))
  | inr down ↦ rw down (
      pair_elem (j + n - i - 1) i n (ground arith) hi
      ∙ ap (λ (t : ℕ). some (i, t))
          (ap (λ (t : ℕ). t % n) (ground arith)
            ∙ wrap_above (j + n) n (omega arith) (omega arith)
            ∙ omega arith))
]

-- The quotient of an index is the number of a row.
quotient_row : (n idx : ℕ) → 0 < n → idx < n * (n - 1) → suc (idx / n) < n
quotient_row n idx hn h = elim (dec_lt (suc (idx / n)) n) [
  | yes fits ↦ fits
  | no over ↦
      let rows : n - 1 ≤ idx / n = omega arith in
      absurd (omega (arith, mul-le-mul_right n rows, div-add-mod idx n))
]

position_of_wrap :
    (n i q j : ℕ)
    → i < n
    → suc q < n
    → j ≡ (i + suc q) % n
    → (j < n) × (i ≢ j) × (q * n + i ≡ position n i j)
position_of_wrap n i q j hi hq e = elim (wrap_cases i (suc q) n hi hq) [
  | inl (low, w) ↦
      let row : j - i - 1 ≡ q = omega arith in
      (omega arith, (λ same. omega arith), rw (lt→ltb i j (omega arith), row))
  | inr (high, w) ↦
      let row : j + n - i - 1 ≡ q = omega arith in
      let below : ltb i j ≡ false = ground arith in
      (omega arith, (λ same. omega arith), rw (below, row))
]

same_parts :
    (a b c d : ℕ) → ◌≡◌ {A = Option (ℕ × ℕ)} (some (a, b)) (some (c, d)) → (a ≡ c) × (b ≡ d)
same_parts a b c d h = (cc, cc)

elem_position :
    (n i j idx : ℕ)
    → get_elem? (build_ordered_pairs n) idx ≡ some (i, j)
    → (i < n) × (j < n) × (i ≢ j) × (idx ≡ position n i j)
elem_position n i j idx h =
    let inside : idx < n * (n - 1) =
      omega (
        arith,
        lt_of_get_elem? (build_ordered_pairs n) idx (i, j) h,
        length-build_ordered_pairs n,
      ) in
    let some_row : 0 < n = positive n idx inside in
    let split : idx / n * n + idx % n ≡ idx = omega (arith, div-add-mod idx n) in
    let at = pair_elem (idx / n) (idx % n) n (quotient_row n idx some_row inside) (omega arith) in
    let (row, wrapped) =
      same_parts (idx % n) ((idx % n + suc (idx / n)) % n) i j
        (sym at ∙ ap (get_elem? (build_ordered_pairs n)) split ∙ h) in
    let i-lt : i < n = omega arith in
    let (j-lt, distinct, place) =
      position_of_wrap n i (idx / n) j i-lt (quotient_row n idx some_row inside)
        (sym wrapped ∙ ap (λ (t : ℕ). (t + suc (idx / n)) % n) row) in
    (i-lt, j-lt, distinct, omega arith)
  where
    positive : (m k : ℕ) → k < m * (m - 1) → 0 < m
    positive zero k p = absurd (omega arith)
    positive (suc m) k p = omega arith

-- `buildOrderedPairs(n)` lists every ordered pair of distinct indices below `n`, and nothing else:
-- an index holds `(i, j)` exactly when these are such a pair and the index is the one position of the
-- pair.
pub build_ordered_pairs_iff :
    (n i j idx : ℕ)
    → (get_elem? (build_ordered_pairs n) idx ≡ some (i, j))
      ↔ ((i < n) × (j < n) × (i ≢ j) × (idx ≡ position n i j))
build_ordered_pairs_iff n i j idx = (
  elem_position n i j idx,
  λ h. ap (get_elem? (build_ordered_pairs n)) h.3 ∙ pair_at_position n i j h.0 h.1 h.2,
)
