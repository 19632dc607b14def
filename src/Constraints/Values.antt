-- ===== src/Constraints/Values.antt =====
-- JavaScript values as the constraint engine sees them, and what it asks of the run-time.
use xg_canvas.Prelude.{
  if◌then◌else◌, string_eq, nat_eq, ◌==◌, any, ℕ, String, Bool, true, false, not, ◌||◌, List, [],
  ◌∷◌,
}

-- Numbers are a parameter. An array or another object is a value of its own, never the same object
-- as another.
mutual
  pub data Value (Num : Type 0) : Type 0 where
    undefined : Value Num
    null : Value Num
    bool : Bool → Value Num
    num : Num → Value Num
    str : String → Value Num
    arr : Items Num → Value Num
    obj : Value Num

  pub data Items (Num : Type 0) : Type 0 where
    end : Items Num
    item : Value Num → Items Num → Items Num

-- The operators of the language: `===` and `includes` on numbers, `<` and `<=` on any two values,
-- the tests on numbers, the length of a text, the test of a pattern, and values in a template.
pub record Js (Num : Type 0) : Type 0 where
  pub eq_num : Num → Num → Bool
  pub same_num : Num → Num → Bool
  pub lt : Value Num → Value Num → Bool
  pub le : Value Num → Value Num → Bool
  pub is_nan : Num → Bool
  pub is_integer : Num → Bool
  pub text_length : String → ℕ
  -- the pattern, which `new RegExp` accepts, then the text
  pub matches : String → String → Bool
  pub num_text : Num → String
  pub value_text : Value Num → String
  pub nat_text : ℕ → String

module _ {Num : Type 0} where
  unfoldable pub elements : Items Num → List (Value Num)
  elements end = []
  elements (item v rest) = v ∷ elements rest

  -- `value === undefined || value === null`.
  abbrev pub is_nullish : Value Num → Bool
  is_nullish undefined = true
  is_nullish null = true
  is_nullish _ = false

  abbrev pub is_undefined : Value Num → Bool
  is_undefined undefined = true
  is_undefined _ = false

  -- `a ?? b`.
  abbrev pub or_else : Value Num → Value Num → Value Num
  or_else undefined b = b
  or_else null b = b
  or_else a b = a

  -- `===`, and the equality of `includes`.
  unfoldable pub strict_eq : Js Num → Value Num → Value Num → Bool
  strict_eq js undefined undefined = true
  strict_eq js null null = true
  strict_eq js (bool true) (bool b) = b
  strict_eq js (bool false) (bool b) = not b
  strict_eq js (num a) (num b) = js.eq_num a b
  strict_eq js (str a) (str b) = a == b
  strict_eq js _ _ = false

  unfoldable pub same_value : Js Num → Value Num → Value Num → Bool
  unfolding strict_eq
  same_value js (num a) (num b) = js.same_num a b
  same_value js a b = strict_eq js a b

  abbrev pub includes : Js Num → List (Value Num) → Value Num → Bool
  includes js vs v = any (λ w. same_value js w v) vs

  -- An object's own properties: a missing one reads as `undefined`.
  unfoldable pub get : String → List (String × Value Num) → Value Num
  get k [] = undefined
  get k ((j, v) ∷ rest) = if j == k then v else get k rest

  unfoldable pub has_key : String → List (String × Value Num) → Bool
  has_key k [] = false
  has_key k ((j, v) ∷ rest) = j == k || has_key k rest
