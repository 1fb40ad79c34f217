-- ===== src/Keys/Unique.antt =====
-- What the removal of repeated keys keeps.
use mathlib.Core.Path.{subst}
use mathlib.Core.List.{Sublistᴰ}
use agon_protocol.Base.{
  ℕ, true, false, ◌==◌, inl, inr, List, [], ◌∷◌, Bool-cases, ◌≡◌, refl, sym, ap, ◌∙◌, arith, ==_iff,
  ==_refl,
}
use agon_protocol.Keys.{is_seen, unique_loop, unique_pubkeys}

-- No key stands twice.
abbrev pub NoRepeats : List ℕ → Type 0
NoRepeats [] = Unit
NoRepeats (k ∷ ks) = (is_seen k ks ≡ false) × NoRepeats ks

skips :
    (seen : List ℕ) (k : ℕ) (ks : List ℕ)
    → is_seen k seen ≡ true
    → unique_loop seen (k ∷ ks) ≡ unique_loop seen ks
unfolding unique_loop
skips seen k ks h = cc

takes :
    (seen : List ℕ) (k : ℕ) (ks : List ℕ)
    → is_seen k seen ≡ false
    → unique_loop seen (k ∷ ks) ≡ k ∷ unique_loop (k ∷ seen) ks
unfolding unique_loop
takes seen k ks h = cc

unique_loop-Sublistᴰ : (seen keys : List ℕ) → Sublistᴰ (unique_loop seen keys) keys
unfolding unique_loop
unique_loop-Sublistᴰ seen [] = Sublistᴰ.slnil
unique_loop-Sublistᴰ seen (k ∷ ks) = elim (Bool-cases (is_seen k seen)) [
  | inl known ↦
      subst (λ (xs : List ℕ). Sublistᴰ xs (k ∷ ks)) (sym (skips seen k ks known))
        (Sublistᴰ.cons (unique_loop-Sublistᴰ seen ks))
  | inr fresh ↦
      subst (λ (xs : List ℕ). Sublistᴰ xs (k ∷ ks)) (sym (takes seen k ks fresh))
        (Sublistᴰ.cons-cons refl (unique_loop-Sublistᴰ (k ∷ seen) ks))
]

is_seen_other :
    (key k : ℕ) (ks : List ℕ) → (k == key) ≡ false → is_seen key (k ∷ ks) ≡ is_seen key ks
unfolding is_seen
is_seen_other key k ks h = rw h refl

pub is_seen_first : (key k : ℕ) (ks : List ℕ) → (k == key) ≡ true → is_seen key (k ∷ ks) ≡ true
unfolding is_seen
is_seen_first key k ks h = rw h refl

pub is_seen_cons : (key k : ℕ) (ks : List ℕ) → is_seen key ks ≡ true → is_seen key (k ∷ ks) ≡ true
unfolding is_seen
is_seen_cons key k ks h = ground arith

-- A key that was seen before is not taken.
unique_loop_seen :
    (key : ℕ) (seen keys : List ℕ)
    → is_seen key seen ≡ true
    → is_seen key (unique_loop seen keys) ≡ false
unfolding unique_loop is_seen
unique_loop_seen key seen [] h = refl
unique_loop_seen key seen (k ∷ ks) h = elim (Bool-cases (is_seen k seen)) [
  | inl known ↦ rw (skips seen k ks known) (unique_loop_seen key seen ks h)
  | inr fresh ↦ elim (Bool-cases (k == key)) [
    | inl same ↦ let eq = (==_iff k key).0 same in cc
    | inr other ↦
        rw (takes seen k ks fresh, is_seen_other key k (unique_loop (k ∷ seen) ks) other)
          (unique_loop_seen key (k ∷ seen) ks (is_seen_cons key k seen h))
  ]
]

unique_loop-NoRepeats : (seen keys : List ℕ) → NoRepeats (unique_loop seen keys)
unfolding unique_loop
unique_loop-NoRepeats seen [] = tt
unique_loop-NoRepeats seen (k ∷ ks) = elim (Bool-cases (is_seen k seen)) [
  | inl known ↦ subst NoRepeats (sym (skips seen k ks known)) (unique_loop-NoRepeats seen ks)
  | inr fresh ↦ subst NoRepeats (sym (takes seen k ks fresh)) (
    unique_loop_seen k (k ∷ seen) ks (is_seen_first k k seen (==_refl k)),
    unique_loop-NoRepeats (k ∷ seen) ks,
  )
]

-- A key of the list is kept unless it was seen before.
unique_loop_keeps :
    (key : ℕ) (seen keys : List ℕ)
    → is_seen key seen ≡ false
    → is_seen key (unique_loop seen keys) ≡ is_seen key keys
unfolding unique_loop is_seen
unique_loop_keeps key seen [] h = refl
unique_loop_keeps key seen (k ∷ ks) h = elim (Bool-cases (is_seen k seen)) [
  | inl known ↦ elim (Bool-cases (k == key)) [
    | inl same ↦ let eq = (==_iff k key).0 same in cc
    | inr other ↦
        ap (is_seen key) (skips seen k ks known)
        ∙ unique_loop_keeps key seen ks h
        ∙ sym (is_seen_other key k ks other)
  ]
  | inr fresh ↦ elim (Bool-cases (k == key)) [
    | inl same ↦
        ap (is_seen key) (takes seen k ks fresh)
        ∙ is_seen_first key k (unique_loop (k ∷ seen) ks) same
        ∙ sym (is_seen_first key k ks same)
    | inr other ↦
        ap (is_seen key) (takes seen k ks fresh)
        ∙ is_seen_other key k (unique_loop (k ∷ seen) ks) other
        ∙ unique_loop_keeps key (k ∷ seen) ks (is_seen_other key k seen other ∙ h)
        ∙ sym (is_seen_other key k ks other)
  ]
]

-- The keys that are left stand in the order of the list, none of them twice, and they are exactly the
-- keys of the list.
pub unique_pubkeys_lem :
    (keys : List ℕ)
    → Sublistᴰ (unique_pubkeys keys) keys
      × NoRepeats (unique_pubkeys keys)
      × ((key : ℕ) → is_seen key (unique_pubkeys keys) ≡ is_seen key keys)
unfolding is_seen
unique_pubkeys_lem keys = (
  unique_loop-Sublistᴰ [] keys,
  unique_loop-NoRepeats [] keys,
  λ key. unique_loop_keeps key [] keys refl,
)
