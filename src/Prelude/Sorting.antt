-- ===== src/Prelude/Sorting.antt =====
-- `ORDER BY`, as a stable insertion sort by a total test.
use mathlib.Core.Path.{◌≡◌, refl}
use mathlib.Core.Logic.{◌⊎◌, inl, inr}
use mathlib.Core.Bool.{Bool}
use mathlib.Core.List.{List, [], ◌∷◌}
use native.Mathlib.Omega.{arith}
use xg_canvas.Prelude.Tests.{if◌then◌else◌}
use xg_canvas.Prelude.Lists.{In, length}
use Prim.Native.Nat.{◌+◌}

module _ {ℓ} {A : Type ℓ} where
  pub insert_by : (A → A → Bool) → A → List A → List A
  insert_by before x [] = x ∷ []
  insert_by before x (y ∷ ys) =
      let later = y ∷ insert_by before x ys in if before x y then x ∷ y ∷ ys else later

  unfoldable pub sort_by : (A → A → Bool) → List A → List A
  unfolding insert_by
  sort_by before [] = []
  sort_by before (x ∷ xs) = insert_by before x (sort_by before xs)

-- Sorting makes no entry up.
module _ {A : Type 0} (before : A → A → Bool) where
  In-insert_by : (a x : A) (ys : List A) → In a (insert_by before x ys) → (a ≡ x) ⊎ In a ys
  unfolding insert_by
  In-insert_by a x [] h = h
  In-insert_by a x (y ∷ ys) h = ground (arith, In-insert_by a x ys)

  pub In-sort_by : (a : A) (xs : List A) → In a (sort_by before xs) → In a xs
  unfolding sort_by
  In-sort_by a [] h = h
  In-sort_by a (x ∷ xs) h = elim (In-insert_by a x (sort_by before xs) h) [
    | inl e ↦ inl e
    | inr r ↦ inr (In-sort_by a xs r)
  ]

  In-insert_by_of : (a x : A) (ys : List A) → (a ≡ x) ⊎ In a ys → In a (insert_by before x ys)
  unfolding insert_by
  In-insert_by_of a x [] h = h
  In-insert_by_of a x (y ∷ ys) h = ground (arith, In-insert_by_of a x ys)

  -- Nor does it lose one.
  pub In-sort_by_of : (a : A) (xs : List A) → In a xs → In a (sort_by before xs)
  unfolding sort_by
  In-sort_by_of a [] h = h
  In-sort_by_of a (x ∷ xs) (inl e) = In-insert_by_of a x (sort_by before xs) (inl e)
  In-sort_by_of a (x ∷ xs) (inr i) =
      In-insert_by_of a x (sort_by before xs) (inr (In-sort_by_of a xs i))

  length-insert_by : (x : A) (ys : List A) → length (insert_by before x ys) ≡ length ys + 1
  unfolding insert_by
  length-insert_by x [] = refl
  length-insert_by x (y ∷ ys) = ground (arith, length-insert_by x ys)

  pub length-sort_by : (xs : List A) → length (sort_by before xs) ≡ length xs
  unfolding sort_by
  length-sort_by [] = refl
  length-sort_by (x ∷ xs) = omega (arith, length-insert_by x (sort_by before xs), length-sort_by xs)
