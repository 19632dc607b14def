-- ===== src/Prelude/Options.antt =====
-- Nullable values: `IS NULL`, `??` and `COALESCE`.
use mathlib.Core.Path.{◌≡◌, refl}
use mathlib.Core.Logic.{◌⊎◌, inl, inr}
use mathlib.Core.Bool.{Bool, true, false}
use mathlib.Core.Option.{Option, none, some}

module _ {ℓ} {A : Type ℓ} where
  abbrev pub is_some : Option A → Bool
  is_some none = false
  is_some (some a) = true

  abbrev pub is_none : Option A → Bool
  is_none none = true
  is_none (some a) = false

  -- `COALESCE(a, b)` of two nullable values.
  abbrev pub coalesce : Option A → Option A → Option A
  coalesce none b = b
  coalesce (some a) b = some a

  -- `o ?? d`.
  abbrev pub get_or : Option A → A → A
  get_or none d = d
  get_or (some a) d = a

  pub Option-cases : (o : Option A) → (o ≡ none) ⊎ ((a : A) × (o ≡ some a))
  Option-cases none = inl refl
  Option-cases (some a) = inr (a, refl)
