-- ===== src/Capacity/Unilateral/Bundle.antt =====
-- What `findLargestBundleSettlementEntryCount` finds.
use agon_protocol.Base.{
  ℕ, ◌+◌, ◌-◌, ◌*◌, ◌≤◌, true, false, Option, Outcome, ok, ◌≡◌, ◌⊎◌, refl, ap, sym, ◌∙◌, arith, All,
}
use agon_protocol.Capacity.Measure.{given_or}
use agon_protocol.Capacity.Search.Grow.{Answers, range, grow_lem}
use agon_protocol.Capacity.Unilateral.{
  SettlementWeb3, BundleMeasurement, measure_bundle_settlement_capacity,
  find_largest_bundle_settlement_entry_count, synthetic_ed25519_length,
}

-- The measurement of a bundle, as the loop takes it.
abbrev pub bundle_measured : SettlementWeb3 → ℕ → Option ℕ → ℕ → Outcome BundleMeasurement
bundle_measured web3 message_bytes packet_size count =
    ok (measure_bundle_settlement_capacity web3 message_bytes packet_size count)

envelope :
    (web3 : SettlementWeb3) (message_bytes : ℕ) (packet_size : Option ℕ) (more : ℕ)
    → (measure_bundle_settlement_capacity web3 message_bytes packet_size
        (1 + more)).auth_envelope_bytes
      ≡ 2 + (1 + more) * (110 + message_bytes)
unfolding measure_bundle_settlement_capacity synthetic_ed25519_length
envelope web3 message_bytes packet_size more = omega arith

-- The search for a bundle ends with the measurement of `1 + more` entries, whether or not one entry
-- fits. Every bundle of 2 to `1 + more` entries fits, and the search went on as far as it could:
-- `1 + more` is the greatest number of entries allowed, or one entry more does not fit. The Ed25519
-- data of the bundle takes 2 bytes and, for each entry, 110 bytes and its message.
pub find_largest_bundle_settlement_entry_count_lem :
    (web3 : SettlementWeb3) (message_bytes : ℕ) (max_entries packet_size : Option ℕ)
    → (more : ℕ) × (best : BundleMeasurement) × (find_largest_bundle_settlement_entry_count web3
          message_bytes max_entries packet_size
        ≡ ok best)
      × (best ≡ measure_bundle_settlement_capacity web3 message_bytes packet_size (1 + more))
      × (best.auth_envelope_bytes ≡ 2 + (1 + more) * (110 + message_bytes))
      × (more ≤ given_or max_entries 32 - 1)
      × All
          (Answers (bundle_measured web3 message_bytes packet_size) (λ m. m.fits) true)
          (range 2 more)
      × ((more ≡ given_or max_entries 32 - 1)
          ⊎ Answers
              (bundle_measured web3 message_bytes packet_size)
              (λ m. m.fits)
              false
              (1 + more + 1))
unfolding find_largest_bundle_settlement_entry_count
find_largest_bundle_settlement_entry_count_lem web3 message_bytes max_entries packet_size =
    let (more, best, run, at, le, all, stop) =
      grow_lem (bundle_measured web3 message_bytes packet_size) (λ m. m.fits)
        (given_or max_entries 32 - 1) 1
        (measure_bundle_settlement_capacity web3 message_bytes packet_size 1) refl
        (λ count less.
          (measure_bundle_settlement_capacity web3 message_bytes packet_size count, refl)) in
    let same = same_value _ best at in
    (
      more,
      best,
      run,
      sym same,
      ap (λ m. m.auth_envelope_bytes) (sym same) ∙ envelope web3 message_bytes packet_size more,
      le,
      all,
      stop,
    )
  where
    same_value :
        (m m' : BundleMeasurement) → ◌≡◌ {A = Outcome BundleMeasurement} (ok m) (ok m') → m ≡ m'
    same_value m m' h = cc
