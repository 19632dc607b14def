-- ===== src/Prelude/Keys.antt =====
-- Lists of rows under a primary key.
use Prim.Native.Nat.{ℕ}
use mathlib.Core.Path.{◌≡◌, sym, ap, ◌∙◌}
use mathlib.Core.Logic.{◌≢◌, inl, inr}
use mathlib.Core.List.{List, [], ◌∷◌}
use xg_canvas.Prelude.Lists.{In, All, All-In}

module _ {A : Type 0} (key : A → ℕ) where
  abbrev pub DistinctBy : List A → Type 0
  DistinctBy [] = Unit
  DistinctBy (x ∷ xs) = All (λ y. key y ≢ key x) xs × DistinctBy xs

  -- Two rows under one key are one row.
  pub eq_of_key :
      (x y : A) (xs : List A) → DistinctBy xs → In x xs → In y xs → key x ≡ key y → x ≡ y
  eq_of_key x y [] d i j e = elim i [ ]
  eq_of_key x y (z ∷ zs) d (inl a) (inl b) e = a ∙ sym b
  eq_of_key x y (z ∷ zs) d (inl a) (inr j) e =
      absurd (All-In (λ v. key v ≢ key z) y zs d.0 j (sym e ∙ ap key a))
  eq_of_key x y (z ∷ zs) d (inr i) (inl b) e =
      absurd (All-In (λ v. key v ≢ key z) x zs d.0 i (e ∙ ap key b))
  eq_of_key x y (z ∷ zs) d (inr i) (inr j) e = eq_of_key x y zs d.1 i j e
