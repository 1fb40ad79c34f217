-- ===== src/Capacity/Search/Rows.antt =====
-- The two loops of `findLargestOverallRound`, over any measurement.
use mathlib.Core.Path.{subst}
use native.Mathlib.Decide.{dec_lt}
use agon_protocol.Base.{
  ℕ, zero, suc, ◌+◌, ◌-◌, ◌*◌, ◌≤◌, ◌<◌, true, false, if◌then◌else◌, Outcome, ok, ◌>>=◌, ◌≡◌, ◌⊎◌,
  inl, inr, refl, ap, ap₂, sym, ◌∙◌, arith, Bool-cases,
}
use agon_protocol.Capacity.Measure.{Measurement}
use agon_protocol.Capacity.Search.{is_larger, overall_row, overall_rows}
use agon_protocol.Capacity.Search.Grow.{Answers}

-- The measurement is of no smaller round: more channels, or as many and no fewer participants.
abbrev pub Covers : Measurement → ℕ → ℕ → Type 0
Covers best participants channels =
    (channels < best.channel_count)
    ⊎ ((channels ≡ best.channel_count) × (participants ≤ best.participant_count))

abbrev pub AtLeast : Measurement → Measurement → Type 0
AtLeast result best = Covers result best.participant_count best.channel_count

AtLeast-refl : (m : Measurement) → AtLeast m m
AtLeast-refl m = inr (refl, omega arith)

Covers-trans :
    (result best : Measurement) (p c : ℕ)
    → AtLeast result best
    → Covers best p c
    → Covers result p c
Covers-trans result best p c h k = ground arith

-- The better of two measurements, as the loop chooses it.
abbrev better : Measurement → Measurement → Measurement
better m best = if is_larger m best then m else best

better-AtLeast : (m best : Measurement) → AtLeast (better m best) best
unfolding is_larger
better-AtLeast m best = ground arith

better-Covers : (m best : Measurement) → Covers (better m best) m.participant_count m.channel_count
unfolding is_larger
better-Covers m best = ground arith

module _ (measure : ℕ → ℕ → Outcome Measurement) (first : Measurement) where
  -- Where a result comes from.
  abbrev pub IsCandidate : Measurement → Type 0
  IsCandidate m =
      (m ≡ first) ⊎ ((measure m.participant_count m.channel_count ≡ ok m) × (m.fits ≡ true))

  abbrev pub Fits : ℕ → ℕ → Type 0
  Fits p c = Answers (measure p) (λ m. m.fits) true c

  abbrev Counted : ℕ → ℕ → Type 0
  Counted p c =
      (m : Measurement) × (measure p c ≡ ok m) × (m.participant_count ≡ p) × (m.channel_count ≡ c)

  row_fits :
      (p rounds c : ℕ) (best m : Measurement)
      → measure p c ≡ ok m
      → m.fits ≡ true
      → overall_row (measure p) (suc rounds) c best
        ≡ overall_row (measure p) rounds (c + 1) (better m best)
  unfolding overall_row
  row_fits p rounds c best m h e = rw (h, overall_row) (rw e)

  row_stops :
      (p rounds c : ℕ) (best m : Measurement)
      → measure p c ≡ ok m
      → m.fits ≡ false
      → overall_row (measure p) (suc rounds) c best ≡ ok best
  unfolding overall_row
  row_stops p rounds c best m h e = rw (h, overall_row) (rw e)

  better-IsCandidate :
      (p c : ℕ) (m best : Measurement)
      → measure p c ≡ ok m
      → m.participant_count ≡ p
      → m.channel_count ≡ c
      → m.fits ≡ true
      → IsCandidate best
      → IsCandidate (better m best)
  better-IsCandidate p c m best h hp hc fits candidate = elim (Bool-cases (is_larger m best)) [
    | inl larger ↦ rw larger (inr (ap₂ measure hp hc ∙ h, fits))
    | inr not_larger ↦ rw not_larger candidate
  ]

  -- What a loop promises of its result, from the best measurement so far.
  abbrev Improves : Measurement → Measurement → Type 0
  Improves best result = AtLeast result best × IsCandidate result

  overall_row_lem :
      (p rounds c : ℕ) (best : Measurement)
      → ((k : ℕ) → c ≤ k → k < c + rounds → Counted p k)
      → IsCandidate best
      → (result : Measurement) × (overall_row (measure p) rounds c best ≡ ok result)
        × AtLeast result best
        × IsCandidate result
        × ((k : ℕ)
            → c ≤ k
            → k < c + rounds
            → ((j : ℕ) → c ≤ j → j ≤ k → Fits p j)
            → Covers result p k)
  unfolding overall_row
  overall_row_lem p zero c best total candidate =
      (best, refl, AtLeast-refl best, candidate, λ k low high fits. absurd (omega arith))
  overall_row_lem p (suc rounds) c best total candidate =
      let (m, e, hp, hc) = total c (omega arith) (omega arith) in
      elim (Bool-cases m.fits) [
        | inl good ↦
            let (result, run, better_best, origin, covers) =
              overall_row_lem p rounds (c + 1) (better m best)
                (λ k low high. total k (omega arith) (omega arith))
                (better-IsCandidate p c m best e hp hc good candidate) in
            (
              result,
              row_fits p rounds c best m e good ∙ run,
              Covers-trans result (better m best) _ _ better_best (better-AtLeast m best),
              origin,
              λ k low high fits. elim (dec_lt c k) [
                | yes later ↦
                    covers k (omega arith) (omega arith) (λ j from to. fits j (omega arith) to)
                | no here ↦
                    covers_count result p k m hp (hc ∙ omega arith)
                      (Covers-trans result (better m best) _ _ better_best (better-Covers m best))
              ],
            )
        | inr bad ↦ (
          best,
          row_stops p rounds c best m e bad,
          AtLeast-refl best,
          candidate,
          λ k low high fits. absurd (fits_not p c m (fits c (omega arith) low) e bad),
        )
      ]
    where
      covers_count :
          (result : Measurement) (p k : ℕ) (m : Measurement)
          → m.participant_count ≡ p
          → m.channel_count ≡ k
          → Covers result m.participant_count m.channel_count
          → Covers result p k
      covers_count result p k m hp hc h = ground arith

      fits_both :
          (m m' : Measurement)
          → ◌≡◌ {A = Outcome Measurement} (ok m) (ok m')
          → m.fits ≡ false
          → m'.fits ≡ true
          → ⊥
      fits_both m m' e bad good = cc

      fits_not : (p c : ℕ) (m : Measurement) → Fits p c → measure p c ≡ ok m → m.fits ≡ false → ⊥
      fits_not p c m (m', e', good) e bad = fits_both m m' (sym e ∙ e') bad good

  pub overall_rows_lem :
      (rounds p : ℕ) (best : Measurement)
      → ((q c : ℕ) → p ≤ q → q ≤ c → c ≤ q * (q - 1) → Counted q c)
      → IsCandidate best
      → (result : Measurement) × (overall_rows measure rounds p best ≡ ok result)
        × AtLeast result best
        × IsCandidate result
        × ((q c : ℕ)
            → p ≤ q
            → q < p + rounds
            → q ≤ c
            → c ≤ q * (q - 1)
            → ((j : ℕ) → q ≤ j → j ≤ c → Fits q j)
            → Covers result q c)
  unfolding overall_rows
  overall_rows_lem zero p best total candidate = (
    best,
    refl,
    AtLeast-refl best,
    candidate,
    λ q c low high least most fits. absurd (omega arith),
  )
  overall_rows_lem (suc rounds) p best total candidate =
      let most = p * (p - 1) in
      let (best', run', better', origin', covers') =
        overall_row_lem p (suc most - p) p best
          (λ k low high. total p k (omega arith) low (omega arith)) candidate in
      let (result, run, better_best, origin, covers) =
        overall_rows_lem rounds (p + 1) best'
          (λ q c low least most. total q c (omega arith) least most) origin' in
      (
        result,
        ap (λ r. r >>= overall_rows measure rounds (p + 1)) run' ∙ run,
        Covers-trans result best' _ _ better_best better',
        origin,
        λ q c low high least most fits. elim (dec_lt p q) [
          | yes later ↦ covers q c (omega arith) (omega arith) least most fits
          | no here ↦
              let same : q ≡ p = omega arith in
              let square : q * (q - 1) ≡ p * (p - 1) = ap (λ (t : ℕ). t * (t - 1)) same in
              let first_row =
                covers' c (omega arith) (omega arith)
                  (λ j from to. subst (λ t. Fits t j) same (fits j (omega arith) to)) in
              Covers-trans result best' q c better_best
                (subst (λ t. Covers best' t c) (sym same) first_row)
        ],
      )
