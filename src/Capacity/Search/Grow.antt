-- ===== src/Capacity/Search/Grow.antt =====
-- The loop that grows a count as long as it fits.
use agon_protocol.Base.{
  ℕ, zero, suc, ◌+◌, ◌≤◌, ◌<◌, Bool, true, false, List, [], ◌∷◌, All, Outcome, ok, ◌≡◌, ◌⊎◌, inl,
  inr, refl, ap, ◌∙◌, arith, Bool-cases,
}
use agon_protocol.Capacity.Search.{grow}

-- The `n` numbers from `start` on.
abbrev pub range : ℕ → ℕ → List ℕ
range start zero = []
range start (suc n) = start ∷ range (start + 1) n

module _ {M : Type 0} (measure : ℕ → Outcome M) (fits : M → Bool) where
  -- The measurement of a count, with this answer.
  abbrev pub Answers : Bool → ℕ → Type 0
  Answers answer count = (m : M) × (measure count ≡ ok m) × (fits m ≡ answer)

  grow_fits :
      (rounds count : ℕ) (best m : M)
      → measure count ≡ ok m
      → fits m ≡ true
      → grow measure fits (suc rounds) count best ≡ grow measure fits rounds (count + 1) m
  unfolding grow
  grow_fits rounds count best m h e = rw (h, grow) (rw e)

  grow_stops :
      (rounds count : ℕ) (best m : M)
      → measure count ≡ ok m
      → fits m ≡ false
      → grow measure fits (suc rounds) count best ≡ ok best
  unfolding grow
  grow_stops rounds count best m h e = rw (h, grow) (rw e)

  -- From the measurement of `last`, the loop goes up by as many counts as fit one after the other.
  pub grow_lem :
      (rounds last : ℕ) (best : M)
      → measure last ≡ ok best
      → ((count : ℕ) → last < count → (m : M) × (measure count ≡ ok m))
      → (n : ℕ) × (result : M) × (grow measure fits rounds (last + 1) best ≡ ok result)
        × (measure (last + n) ≡ ok result)
        × (n ≤ rounds)
        × All (Answers true) (range (last + 1) n)
        × ((n ≡ rounds) ⊎ Answers false (last + n + 1))
  unfolding grow
  grow_lem zero last best h total =
      (0, best, refl, ap measure (omega arith) ∙ h, omega arith, tt, inl refl)
  grow_lem (suc rounds) last best h total =
      let (m, e) = total (last + 1) (omega arith) in
      elim (Bool-cases (fits m)) [
        | inl good ↦
            let (n, result, run, at, le, all, stop) =
              grow_lem rounds (last + 1) m e (λ count less. total count (omega arith)) in
            (
              suc n,
              result,
              grow_fits rounds (last + 1) best m e good ∙ run,
              ap measure (omega arith) ∙ at,
              omega arith,
              ((m, e, good), all),
              elim stop [
                | inl done ↦ inl (ap suc done)
                | inr (m', e', bad) ↦ inr (m', ap measure (omega arith) ∙ e', bad)
              ],
            )
        | inr bad ↦ (
          0,
          best,
          grow_stops rounds (last + 1) best m e bad,
          ap measure (omega arith) ∙ h,
          omega arith,
          tt,
          inr (m, ap measure (omega arith) ∙ e, bad),
        )
      ]
