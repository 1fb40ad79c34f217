-- ===== src/Capacity/Search/Overall.antt =====
-- What `findLargestOverallRound` finds.
use mathlib.Core.Path.{subst}
use agon_protocol.Base.{
  ℕ, ◌+◌, ◌-◌, ◌*◌, ◌≤◌, ◌<◌, true, Option, Outcome, ok, ◌>>=◌, ◌≡◌, ◌⊎◌, inl, refl, ap, sym, ◌∙◌,
  arith,
}
use agon_protocol.Capacity.Measure.{CapacityMode, Web3, Measurement, given_or}
use agon_protocol.Capacity.Search.{overall_rows, find_largest_overall_round}
use agon_protocol.Capacity.Search.Rows.{Covers, AtLeast, IsCandidate, Fits, overall_rows_lem}
use agon_protocol.Capacity.Search.Cycle.{measured, measured_total}

module _ (web3 : Web3) (mode : CapacityMode)
    (max_participants packet_size signature_size : Option ℕ) where
  overall_found :
      (first : Measurement)
      → measured web3 mode packet_size signature_size 3 3 ≡ ok first
      → (best : Measurement) × (find_largest_overall_round web3 mode max_participants packet_size
            signature_size
          ≡ ok best)
        × AtLeast best first
        × IsCandidate (measured web3 mode packet_size signature_size) first best
        × ((q c : ℕ)
            → 3 ≤ q
            → q < 3 + (given_or max_participants 32 - 2)
            → q ≤ c
            → c ≤ q * (q - 1)
            → ((j : ℕ)
                → q ≤ j
                → j ≤ c
                → Fits (measured web3 mode packet_size signature_size) first q j)
            → Covers best q c)
  unfolding find_largest_overall_round
  overall_found first e =
      let rows = given_or max_participants 32 - 2 in
      let (best, run, at_least, origin, covers) =
        overall_rows_lem (measured web3 mode packet_size signature_size) first rows 3 first
          (λ q c low least most.
            measured_total web3 mode packet_size signature_size q c low least most)
          (inl refl) in
      (
        best,
        ap (λ r. r >>= overall_rows (measured web3 mode packet_size signature_size) rows 3) e ∙ run,
        at_least,
        origin,
        covers,
      )

-- The search over all rounds always ends with a measurement. It is that of three participants with
-- three channels, which is returned whether or not it fits, or one that fits; either way it is of no
-- smaller round than three participants with three channels.
pub find_largest_overall_round_lem :
    (web3 : Web3) (mode : CapacityMode) (max_participants packet_size signature_size : Option ℕ)
    → (first : Measurement) × (best : Measurement) × (measured web3 mode packet_size signature_size
          3 3
        ≡ ok first)
      × (find_largest_overall_round web3 mode max_participants packet_size signature_size ≡ ok best)
      × ((best ≡ first)
          ⊎ ((measured web3 mode packet_size signature_size best.participant_count
                  best.channel_count
                ≡ ok best)
              × (best.fits ≡ true)))
      × Covers best 3 3
find_largest_overall_round_lem web3 mode max_participants packet_size signature_size =
    let (first, e, hp, hc) =
      measured_total web3 mode packet_size signature_size 3 3 (omega arith) (omega arith)
        (omega arith) in
    let (best, run, at_least, origin, covers) =
      overall_found web3 mode max_participants packet_size signature_size first e in
    (first, best, e, run, origin, covers_three first best hp hc at_least)
  where
    covers_three :
        (first best : Measurement)
        → first.participant_count ≡ 3
        → first.channel_count ≡ 3
        → Covers best first.participant_count first.channel_count
        → Covers best 3 3
    covers_three first best hp hc h = ground arith

-- Nothing larger was passed over: if, with some number of participants that is allowed, every channel
-- count from that number up to `channels` fits, then the search has returned no smaller round.
pub find_largest_overall_round-Covers :
    (web3 : Web3) (mode : CapacityMode) (max_participants packet_size signature_size : Option ℕ)
    (participants channels : ℕ) (best : Measurement)
    → find_largest_overall_round web3 mode max_participants packet_size signature_size ≡ ok best
    → 3 ≤ participants
    → participants ≤ given_or max_participants 32
    → participants ≤ channels
    → channels ≤ participants * (participants - 1)
    → ((c : ℕ)
        → participants ≤ c
        → c ≤ channels
        → (m : Measurement) × (measured web3 mode packet_size signature_size participants c ≡ ok m)
          × (m.fits ≡ true))
    → Covers best participants channels
find_largest_overall_round-Covers web3 mode max_participants packet_size signature_size participants
      channels best run few allowed less more fits =
    let (first, e, hp, hc) =
      measured_total web3 mode packet_size signature_size 3 3 (omega arith) (omega arith)
        (omega arith) in
    let (best', run', at_least, origin, covers) =
      overall_found web3 mode max_participants packet_size signature_size first e in
    let same : best' ≡ best = same_value best' best (sym run' ∙ run) in
    subst (λ m. Covers m participants channels) same
      (covers participants channels few (omega arith) less more fits)
  where
    same_value : (m m' : Measurement) → ◌≡◌ {A = Outcome Measurement} (ok m) (ok m') → m ≡ m'
    same_value m m' h = cc
