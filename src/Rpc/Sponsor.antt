-- ===== src/Rpc/Sponsor.antt =====
-- The choice of the fee sponsor.
use mathlib.Core.Path.{subst}
use agon_protocol.Base.{==_refl}
use agon_protocol.Base.{
  ℕ, ◌+◌, ◌≤◌, ◌<◌, true, leb, ◌==◌, Option, none, some, List, [], ◌∷◌, ◌++◌, All, Bool-cases,
  ==_iff, inl, inr, ◌⊎◌, ◌≡◌, refl, sym, ap, ◌∙◌, arith,
}
use agon_protocol.Base.Reordered.{All-weaken}
use agon_protocol.Keys.{is_seen, unique_pubkeys}
use agon_protocol.Keys.Unique.{is_seen_cons, is_seen_first, unique_pubkeys_lem}
use agon_protocol.Rpc.{sponsor_loop, select_fee_sponsor}

module _ (balance_of : ℕ → ℕ) where
  -- The first of the richest keys of a list.
  abbrev pub FirstRichest : List ℕ → ℕ → Type 0
  FirstRichest keys best =
      (before after : List ℕ) × (keys ≡ before ++ (best ∷ after))
      × All (λ k. balance_of k < balance_of best) before
      × All (λ k. balance_of k ≤ balance_of best) after

  sponsor_loop_lem :
      (keys : List ℕ) (best : Option ℕ) (least : ℕ)
      → ((sponsor_loop balance_of keys best least ≡ best) × All (λ k. balance_of k < least) keys)
        ⊎ ((found : ℕ) × (sponsor_loop balance_of keys best least ≡ some found)
            × (least ≤ balance_of found)
            × FirstRichest keys found)
  unfolding sponsor_loop
  sponsor_loop_lem [] best least = inl (refl, tt)
  sponsor_loop_lem (key ∷ keys) best least = elim (Bool-cases (leb least (balance_of key))) [
    | inl rich ↦ elim (sponsor_loop_lem keys (some key) (balance_of key + 1)) [
      | inl (run, rest) ↦ inr (
        key,
        rw rich run,
        ground arith,
        (
          [],
          keys,
          refl,
          tt,
          All-weaken (λ k. balance_of k < balance_of key + 1) (λ k. balance_of k ≤ balance_of key)
              keys (λ k h. omega arith) rest,
        ),
      )
      | inr (found, run, richer, (before, after, eq, poorer, rest)) ↦ inr (
        found,
        rw rich run,
        ground arith,
        (key ∷ before, after, ap (◌∷◌ key) eq, (omega arith, poorer), rest),
      )
    ]
    | inr poor ↦ elim (sponsor_loop_lem keys best least) [
      | inl (run, rest) ↦ inl (rw poor run, (ground arith, rest))
      | inr (found, run, richer, (before, after, eq, poorer, rest)) ↦ inr (
        found,
        rw poor run,
        richer,
        (key ∷ before, after, ap (◌∷◌ key) eq, (ground arith, poorer), rest),
      )
    ]
  ]

  All-is_seen :
      (P : ℕ → Type 0) (key : ℕ) (keys : List ℕ) → All P keys → is_seen key keys ≡ true → P key
  unfolding is_seen
  All-is_seen P key [] all h = cc
  All-is_seen P key (k ∷ ks) all h = elim (Bool-cases (k == key)) [
    | inl same ↦ subst P ((==_iff k key).0 same) all.0
    | inr other ↦ All-is_seen P key ks all.1 cc
  ]

  All-middle :
      (P : ℕ → Type 0) (before : List ℕ) (key : ℕ) (after : List ℕ)
      → All P before
      → P key
      → All P after
      → All P (before ++ (key ∷ after))
  All-middle P [] key after first here rest = (here, rest)
  All-middle P (k ∷ ks) key after first here rest =
      (first.0, All-middle P ks key after first.1 here rest)

  is_seen-middle :
      (before : List ℕ) (key : ℕ) (after : List ℕ) → is_seen key (before ++ (key ∷ after)) ≡ true
  unfolding is_seen
  is_seen-middle [] key after = rw (==_refl key) refl
  is_seen-middle (k ∷ ks) key after =
      is_seen_cons key k (ks ++ (key ∷ after)) (is_seen-middle ks key after)

  -- A sponsor is found if there is a candidate. It is a candidate, no candidate has a larger balance, and
  -- it is the first such, in the order in which the candidates first stand in the list.
  pub select_fee_sponsor_lem :
      (candidates : List ℕ)
      → ((candidates ≡ []) × (select_fee_sponsor balance_of candidates ≡ none))
        ⊎ ((sponsor : ℕ) × (select_fee_sponsor balance_of candidates ≡ some sponsor)
            × (is_seen sponsor candidates ≡ true)
            × ((key : ℕ) → is_seen key candidates ≡ true → balance_of key ≤ balance_of sponsor)
            × FirstRichest (unique_pubkeys candidates) sponsor)
  unfolding select_fee_sponsor
  select_fee_sponsor_lem candidates = elim (sponsor_loop_lem (unique_pubkeys candidates) none 0) [
    | inl (run, poor) ↦ inl (nothing candidates poor, run)
    | inr (sponsor, run, _, (before, after, eq, poorer, rest)) ↦
        let (_, _, keeps) = unique_pubkeys_lem candidates in
        inr (
          sponsor,
          run,
          sym (keeps sponsor) ∙ ap (is_seen sponsor) eq ∙ is_seen-middle before sponsor after,
          λ key h.
              All-is_seen (λ k. balance_of k ≤ balance_of sponsor) key (unique_pubkeys candidates)
                (subst (All (λ k. balance_of k ≤ balance_of sponsor)) (sym eq) (
                  All-middle (λ k. balance_of k ≤ balance_of sponsor) before sponsor after
                    (All-weaken (λ k. balance_of k < balance_of sponsor)
                      (λ k. balance_of k ≤ balance_of sponsor) before (λ k below. omega arith)
                      poorer)
                    (omega arith) rest))
                (keeps key ∙ h),
          (before, after, eq, poorer, rest),
        )
  ]
    where
      nothing : (keys : List ℕ) → All (λ k. balance_of k < 0) (unique_pubkeys keys) → keys ≡ []
      nothing [] poor = refl
      nothing (k ∷ ks) poor =
          let (_, _, keeps) = unique_pubkeys_lem (k ∷ ks) in
          absurd (
            omega (
              arith,
              All-is_seen (λ k'. balance_of k' < 0) k (unique_pubkeys (k ∷ ks)) poor
                  (keeps k ∙ is_seen_first k k ks (==_refl k)),
            ))
