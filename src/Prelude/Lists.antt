-- ===== src/Prelude/Lists.antt =====
-- Lists measured by native numbers, Boolean searches, and predicates on all or some entries.
use Prim.Native.Nat.{ℕ, zero, suc, ◌+◌, ◌≤◌}
use mathlib.Core.Logic.{◌⊎◌, inl, inr}
use mathlib.Core.Path.{◌≡◌, refl, sym, subst, ap, ◌∙◌}
use mathlib.Core.Bool.{Bool, true, false, ◌&&◌, ◌||◌}
use mathlib.Core.Option.{Option, none, some}
use mathlib.Core.List.{List, [], ◌∷◌, ◌++◌}
use native.Mathlib.Omega.{arith}
use xg_canvas.Prelude.Tests.{if◌then◌else◌, Bool-cases}

module _ {ℓ} {A : Type ℓ} where
  abbrev pub length : List A → ℕ
  length [] = 0
  length (x ∷ xs) = suc (length xs)

  abbrev pub take : ℕ → List A → List A
  take zero xs = []
  take (suc n) [] = []
  take (suc n) (x ∷ xs) = x ∷ take n xs

  abbrev pub head? : List A → Option A
  head? [] = none
  head? (x ∷ xs) = some x

  -- `xs.some(p)`, `xs.every(p)`, `xs.filter(p)` and `xs.find(p)`.
  abbrev pub any : (A → Bool) → List A → Bool
  any p [] = false
  any p (x ∷ xs) = p x || any p xs

  abbrev pub every : (A → Bool) → List A → Bool
  every p [] = true
  every p (x ∷ xs) = p x && every p xs

  abbrev pub select : (A → Bool) → List A → List A
  select p [] = []
  select p (x ∷ xs) = let rest = select p xs in if p x then x ∷ rest else rest

  abbrev pub find? : (A → Bool) → List A → Option A
  find? p [] = none
  find? p (x ∷ xs) = let rest = find? p xs in if p x then some x else rest

  pub find?-holds : (p : A → Bool) (a : A) (xs : List A) → find? p xs ≡ some a → p a ≡ true
  find?-holds p a [] h = cc
  find?-holds p a (x ∷ xs) h = ground (arith, find?-holds p a xs)

  -- Every entry satisfies `P`, as a tuple that the tactics read.
  abbrev pub All {κ} : (A → Type κ) → List A → Type κ
  All P [] = Unit
  All P (x ∷ xs) = P x × All P xs

  pub length-append : (xs ys : List A) → length (xs ++ ys) ≡ length xs + length ys
  length-append [] ys = omega arith
  length-append (x ∷ xs) ys = omega (arith, length-append xs ys)

  pub length-take-le : (n : ℕ) (xs : List A) → length (take n xs) ≤ n
  length-take-le zero xs = omega arith
  length-take-le (suc n) [] = omega arith
  length-take-le (suc n) (x ∷ xs) = omega (arith, length-take-le n xs)

-- Membership and pointwise relations, by recursion, so that proofs can take them apart.
module _ {A : Type 0} where
  abbrev pub In : A → List A → Type 0
  In a [] = ⊥
  In a (x ∷ xs) = (a ≡ x) ⊎ In a xs

  abbrev pub Pointwise : (A → A → Type 0) → List A → List A → Type 0
  Pointwise R [] [] = Unit
  Pointwise R (x ∷ xs) (y ∷ ys) = R x y × Pointwise R xs ys
  Pointwise R _ _ = ⊥

  pub In-take : (n : ℕ) (a : A) (xs : List A) → In a (take n xs) → In a xs
  In-take zero a xs h = elim h [ ]
  In-take (suc n) a [] h = elim h [ ]
  In-take (suc n) a (x ∷ xs) (inl e) = inl e
  In-take (suc n) a (x ∷ xs) (inr h) = inr (In-take n a xs h)

  In-select_hit :
      (p : A → Bool) (a x : A) (xs ys : List A)
      → (In a ys → In a xs × (p a ≡ true))
      → p x ≡ true
      → In a (x ∷ ys)
      → In a (x ∷ xs) × (p a ≡ true)
  In-select_hit p a x xs ys rest e (inl q) = (inl q, rw q e)
  In-select_hit p a x xs ys rest e (inr r) = let (i, t) = rest r in (inr i, t)

  pub In-select : (p : A → Bool) (a : A) (xs : List A) → In a (select p xs) → In a xs × (p a ≡ true)
  In-select p a [] h = elim h [ ]
  In-select p a (x ∷ xs) h = elim (Bool-cases (p x)) [
    | inl e ↦ In-select_hit p a x xs (select p xs) (In-select p a xs) e (rw e at h)
    | inr e ↦ let (i, t) = In-select p a xs (rw e at h) in (inr i, t)
  ]

  pub In-select_of :
      (p : A → Bool) (a : A) (xs : List A) → In a xs → p a ≡ true → In a (select p xs)
  In-select_of p a [] i h = elim i [ ]
  In-select_of p a (x ∷ xs) (inl e) h = rw (sym (ap p e) ∙ h) (inl e)
  In-select_of p a (x ∷ xs) (inr i) h = ground (arith, In-select_of p a xs i h)

  pub take_all : (n : ℕ) (xs : List A) → length xs ≤ n → take n xs ≡ xs
  take_all zero [] h = refl
  take_all zero (x ∷ xs) h = absurd (omega arith)
  take_all (suc n) [] h = refl
  take_all (suc n) (x ∷ xs) h = ap (λ r. x ∷ r) (take_all n xs (omega (arith, h)))

  pub any-In : (p : A → Bool) (xs : List A) → any p xs ≡ true → (a : A) × In a xs × (p a ≡ true)
  any-In p [] h = cc
  any-In p (x ∷ xs) h = elim (Bool-cases (p x)) [
    | inl e ↦ (x, inl refl, e)
    | inr e ↦ let (a, i, t) = any-In p xs (rw e at h) in (a, inr i, t)
  ]

  pub find?-In : (p : A → Bool) (a : A) (xs : List A) → find? p xs ≡ some a → In a xs
  find?-In p a [] h = cc
  find?-In p a (x ∷ xs) h = ground (arith, find?-In p a xs)

  -- A predicate that each step keeps is kept along a pointwise relation.
  pub All-Pointwise :
      (P : A → Type 0) (xs ys : List A) → Pointwise (λ x y. P x → P y) xs ys → All P xs → All P ys
  All-Pointwise P [] [] r h = tt
  All-Pointwise P (x ∷ xs) (y ∷ ys) r h = (r.0 h.0, All-Pointwise P xs ys r.1 h.1)
  All-Pointwise P [] (y ∷ ys) r h = elim r [ ]
  All-Pointwise P (x ∷ xs) [] r h = elim r [ ]

  -- A relation that holds under `P` holds along the list where `P` does.
  pub Pointwise-All :
      (P : A → Type 0) (R : A → A → Type 0) (xs ys : List A)
      → Pointwise (λ x y. P x → R x y) xs ys
      → All P xs
      → Pointwise R xs ys
  Pointwise-All P R [] [] r h = tt
  Pointwise-All P R (x ∷ xs) (y ∷ ys) r h = (r.0 h.0, Pointwise-All P R xs ys r.1 h.1)
  Pointwise-All P R [] (y ∷ ys) r h = elim r [ ]
  Pointwise-All P R (x ∷ xs) [] r h = elim r [ ]

  pub All-In : (P : A → Type 0) (a : A) (xs : List A) → All P xs → In a xs → P a
  All-In P a [] h i = elim i [ ]
  All-In P a (x ∷ xs) h (inl e) = subst P (sym e) h.0
  All-In P a (x ∷ xs) h (inr i) = All-In P a xs h.1 i

  pub All-of_In : (P : A → Type 0) (xs : List A) → ((a : A) → In a xs → P a) → All P xs
  All-of_In P [] f = tt
  All-of_In P (x ∷ xs) f = (f x (inl refl), All-of_In P xs (λ a i. f a (inr i)))

  pub All-map : (P Q : A → Type 0) (xs : List A) → ((a : A) → P a → Q a) → All P xs → All Q xs
  All-map P Q [] f h = tt
  All-map P Q (x ∷ xs) f h = (f x h.0, All-map P Q xs f h.1)

  pub In-any : (p : A → Bool) (a : A) (xs : List A) → In a xs → p a ≡ true → any p xs ≡ true
  In-any p a [] i h = elim i [ ]
  In-any p a (x ∷ xs) (inl e) h = rw (sym e, h) refl
  In-any p a (x ∷ xs) (inr i) h = ground (arith, In-any p a xs i h)

  -- What a selection keeps.
  pub All-select :
      (P Q : A → Type 0) (q : A → Bool) (xs : List A)
      → ((a : A) → q a ≡ true → P a → Q a)
      → All P xs
      → All Q (select q xs)
  All-select P Q q [] f h = tt
  All-select P Q q (x ∷ xs) f h = elim (Bool-cases (q x)) [
    | inl e ↦ rw e (f x e h.0, All-select P Q q xs f h.1)
    | inr e ↦ rw e (All-select P Q q xs f h.1)
  ]

  pub any-select :
      (p q : A → Bool) (xs : List A)
      → ((a : A) → p a ≡ true → q a ≡ true)
      → any p xs ≡ true
      → any p (select q xs) ≡ true
  any-select p q [] f h = cc
  any-select p q (x ∷ xs) f h = ground (arith, f x, any-select p q xs f)

  pub none-select : (p q : A → Bool) (xs : List A) → any p xs ≡ false → any p (select q xs) ≡ false
  none-select p q [] h = refl
  none-select p q (x ∷ xs) h = ground (arith, none-select p q xs)
