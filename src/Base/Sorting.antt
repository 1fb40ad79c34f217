-- ===== src/Base/Sorting.antt =====
-- `Array.prototype.sort`: a stable sort, of a test that says when its first argument comes before
-- its second.
use mathlib.Core.Path.{◌≡◌, refl}
use mathlib.Core.Logic.{inl, inr}
use mathlib.Core.Bool.{Bool, true, false}
use mathlib.Core.List.{List, [], ◌∷◌, Permᴰ}
use mathlib.Core.List.Permᴰ
use agon_protocol.Base.Lists.{All}
use agon_protocol.Base.Test.{if◌then◌else◌, Bool-cases}

module _ {ℓ} {A : Type ℓ} (before : A → A → Bool) where
  -- Elements that compare equal keep their order.
  unfoldable pub insert : A → List A → List A
  insert e [] = e ∷ []
  insert e (x ∷ xs) = let rest = insert e xs in if before x e then x ∷ rest else e ∷ x ∷ xs

  unfoldable pub sort : List A → List A
  sort [] = []
  sort (x ∷ xs) = insert x (sort xs)

  insert-Permᴰ : (e : A) (xs : List A) → Permᴰ (insert e xs) (e ∷ xs)
  unfolding insert
  insert-Permᴰ e [] = Permᴰ.refl (e ∷ [])
  insert-Permᴰ e (x ∷ xs) = elim (Bool-cases (before x e)) [
    | inl first ↦
        rw first (Permᴰ.trans (Permᴰ.cons refl (insert-Permᴰ e xs)) (Permᴰ.swap refl refl))
    | inr later ↦ rw later (Permᴰ.refl (e ∷ x ∷ xs))
  ]

  pub sort-Permᴰ : (xs : List A) → Permᴰ (sort xs) xs
  unfolding sort
  sort-Permᴰ [] = Permᴰ.nil
  sort-Permᴰ (x ∷ xs) = Permᴰ.trans (insert-Permᴰ x (sort xs)) (Permᴰ.cons refl (sort-Permᴰ xs))

  -- Nothing stands behind an element that it comes before.
  abbrev pub Sorted : List A → Type ℓ
  Sorted [] = Unit {ℓ}
  Sorted (x ∷ xs) = All (λ y. before y x ≡ false) xs × Sorted xs

  -- A test that orders: it is not both ways, and what is not before is transitive.
  module _ (asym : (a b : A) → before a b ≡ true → before b a ≡ false)
      (chain : (a b c : A) → before b a ≡ false → before c b ≡ false → before c a ≡ false) where
    behind :
        (a b : A) (xs : List A)
        → before b a ≡ false
        → All (λ y. before y b ≡ false) xs
        → All (λ y. before y a ≡ false) xs
    behind a b [] h all = tt
    behind a b (x ∷ xs) h (first, all) = (chain a b x h first, behind a b xs h all)

    insert-All :
        (x e : A) (xs : List A)
        → before e x ≡ false
        → All (λ y. before y x ≡ false) xs
        → All (λ y. before y x ≡ false) (insert e xs)
    unfolding insert
    insert-All x e [] h all = (h, tt)
    insert-All x e (y ∷ ys) h (first, all) = elim (Bool-cases (before y e)) [
      | inl earlier ↦ rw earlier (first, insert-All x e ys h all)
      | inr later ↦ rw later (h, (first, all))
    ]

    insert-Sorted : (e : A) (xs : List A) → Sorted xs → Sorted (insert e xs)
    unfolding insert
    insert-Sorted e [] h = (tt, tt)
    insert-Sorted e (x ∷ xs) (all, sorted) = elim (Bool-cases (before x e)) [
      | inl earlier ↦
          rw earlier (insert-All x e xs (asym x e earlier) all, insert-Sorted e xs sorted)
      | inr later ↦ rw later ((later, behind e x xs later all), (all, sorted))
    ]

    pub sort-Sorted : (xs : List A) → Sorted (sort xs)
    unfolding sort
    sort-Sorted [] = tt
    sort-Sorted (x ∷ xs) = insert-Sorted x (sort xs) (sort-Sorted xs)
