-- ===== src/Constraints/Condition.antt =====
-- Conditions on parameters (packages/constraint-engine/src/condition.ts).
use xg_canvas.Prelude.{string_eq, nat_eq, String, Bool, true, false, not, ◌&&◌, ◌||◌, List}
use xg_canvas.Constraints.Values.{
  Value, num, arr, Js, elements, strict_eq, same_value, includes, get,
}

pub data ComparisonOp : Type 0 where
  eq neq in_list not_in_list gt lt gte lte : ComparisonOp

mutual
  pub data ConditionExpr (Num : Type 0) : Type 0 where
    comparison : String → ComparisonOp → Value Num → ConditionExpr Num
    all_of : Conditions Num → ConditionExpr Num
    any_of : Conditions Num → ConditionExpr Num
    negation : ConditionExpr Num → ConditionExpr Num

  pub data Conditions (Num : Type 0) : Type 0 where
    no_more : Conditions Num
    also : ConditionExpr Num → Conditions Num → Conditions Num

module _ {Num : Type 0} (js : Js Num) where
  abbrev is_num : Value Num → Bool
  is_num (num n) = true
  is_num _ = false

  -- `Array.isArray(arr) && arr.includes(v)`, and its negation on arrays.
  abbrev in_array : Value Num → Value Num → Bool
  in_array (arr vs) v = includes js (elements vs) v
  in_array _ v = false

  abbrev not_in_array : Value Num → Value Num → Bool
  not_in_array (arr vs) v = not (includes js (elements vs) v)
  not_in_array _ v = false

  unfoldable pub evaluate_comparison : Value Num → ComparisonOp → Value Num → Bool
  unfolding elements same_value strict_eq
  evaluate_comparison field eq v = strict_eq js field v
  evaluate_comparison field neq v = not (strict_eq js field v)
  evaluate_comparison field in_list v = in_array v field
  evaluate_comparison field not_in_list v = not_in_array v field
  evaluate_comparison field gt v = is_num field && js.lt v field
  evaluate_comparison field lt v = is_num field && js.lt field v
  evaluate_comparison field gte v = is_num field && js.le v field
  evaluate_comparison field lte v = is_num field && js.le field v

  unfoldable mutual
    unfolding evaluate_comparison get

    pub evaluate_condition : ConditionExpr Num → List (String × Value Num) → Bool
    evaluate_condition (comparison field op v) values = evaluate_comparison (get field values) op v
    evaluate_condition (all_of cs) values = evaluate_and cs values
    evaluate_condition (any_of cs) values = evaluate_or cs values
    evaluate_condition (negation c) values = not (evaluate_condition c values)

    pub evaluate_and : Conditions Num → List (String × Value Num) → Bool
    evaluate_and no_more values = true
    evaluate_and (also c cs) values = evaluate_condition c values && evaluate_and cs values

    pub evaluate_or : Conditions Num → List (String × Value Num) → Bool
    evaluate_or no_more values = false
    evaluate_or (also c cs) values = evaluate_condition c values || evaluate_or cs values
