-- ===== src/Capacity/Search/Cycle.antt =====
-- What `findLargestCycleRound` finds.
use native.Mathlib.Nat.{mul-le-mul_left}
use agon_protocol.Base.{
  ℕ, ◌+◌, ◌-◌, ◌*◌, ◌≤◌, true, false, Option, Outcome, ok, ◌>>=◌, ◌≡◌, ◌⊎◌, refl, ap, ◌∙◌, arith,
  All,
}
use agon_protocol.Capacity.Measure.{
  CapacityMode, Web3, Measurement, given_or, measure_round, measure_clearing_round_capacity,
}
use agon_protocol.Capacity.Built.{build_synthetic_round_iff}
use agon_protocol.Capacity.Search.{grow, find_largest_cycle_round}
use agon_protocol.Capacity.Search.Grow.{Answers, range, grow_lem}

module _ (web3 : Web3) (mode : CapacityMode) (packet_size signature_size : Option ℕ) where
  abbrev pub measured : ℕ → ℕ → Outcome Measurement
  measured participants channels =
      measure_clearing_round_capacity web3 mode participants channels packet_size signature_size

  -- A count that a round can have is measured.
  pub measured_total :
      (participants channels : ℕ)
      → 3 ≤ participants
      → participants ≤ channels
      → channels ≤ participants * (participants - 1)
      → (m : Measurement) × (measured participants channels ≡ ok m)
        × (m.participant_count ≡ participants)
        × (m.channel_count ≡ channels)
  unfolding measure_clearing_round_capacity measure_round
  measured_total participants channels few less more =
      let (round, built, len, total) =
        (build_synthetic_round_iff participants channels).1 (few, less, more) in
      (
        measure_round web3 mode participants channels packet_size signature_size round,
        ap
            (λ r. r >>= λ round.
              ok (measure_round web3 mode participants channels packet_size signature_size round))
            built,
        refl,
        refl,
      )

  cycle_total : (count : ℕ) → 3 ≤ count → (m : Measurement) × (measured count count ≡ ok m)
  cycle_total count h =
      let two : 2 ≤ count - 1 = omega arith in
      let (m, e, p, c) =
        measured_total count count h (omega arith) (omega (arith, mul-le-mul_left count two)) in
      (m, e)

-- The search for a cycle always ends with a measurement, that of a cycle of `n` participants, whether
-- or not 3 of them fit. Every cycle of 4 to `n` participants fits, and the search went on as far as
-- it could: `n` is the greatest number of participants allowed, or the next cycle does not fit.
pub find_largest_cycle_round_lem :
    (web3 : Web3) (mode : CapacityMode) (max_participants packet_size signature_size : Option ℕ)
    → (more : ℕ) × (best : Measurement) × (find_largest_cycle_round web3 mode max_participants
          packet_size signature_size
        ≡ ok best)
      × (measured web3 mode packet_size signature_size (3 + more) (3 + more) ≡ ok best)
      × (more ≤ given_or max_participants 32 - 3)
      × All
          (Answers (λ n. measured web3 mode packet_size signature_size n n) (λ m. m.fits) true)
          (range 4 more)
      × ((more ≡ given_or max_participants 32 - 3)
          ⊎ Answers
              (λ n. measured web3 mode packet_size signature_size n n)
              (λ m. m.fits)
              false
              (3 + more + 1))
unfolding find_largest_cycle_round
find_largest_cycle_round_lem web3 mode max_participants packet_size signature_size =
    let (first, e) = cycle_total web3 mode packet_size signature_size 3 (omega arith) in
    let (more, best, run, at, le, all, stop) =
      grow_lem (λ n. measured web3 mode packet_size signature_size n n) (λ m. m.fits)
        (given_or max_participants 32 - 3) 3 first e
        (λ count less. cycle_total web3 mode packet_size signature_size count (omega arith)) in
    (
      more,
      best,
      ap
            (λ r.
              r
              >>= grow (λ n. measured web3 mode packet_size signature_size n n) (λ m. m.fits)
                  (given_or max_participants 32 - 3) 4)
            e
          ∙ run,
      at,
      le,
      all,
      stop,
    )
