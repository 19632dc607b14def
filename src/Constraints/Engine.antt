-- ===== src/Constraints/Engine.antt =====
-- The state of every field under the constraints (packages/constraint-engine/src/engine.ts).
use xg_canvas.Prelude.{
  if◌then◌else◌, string_eq, nat_eq, ◌==◌, coalesce, any, every, select, String, Bool, true, false,
  not, ◌&&◌, ◌||◌, Option, none, some, List, [], ◌∷◌, map,
}
use xg_canvas.Constraints.Values.{
  Value, bool, num, str, arr, Js, elements, is_nullish, is_undefined, or_else, strict_eq,
  same_value, includes, get, has_key,
}
use xg_canvas.Constraints.Condition.{ConditionExpr, evaluate_condition}
use xg_canvas.Constraints.Schema.{
  ParamType, string, number, integer, boolean, enum, multi_enum, text, slider, EnumOption,
  ParamDefinition, ModelParamSchema, ConstraintAction, restrict_options, set_value, set_range,
  disable, show, hide, set_required, ParamConstraint, FieldState, FieldStates,
}

module _ {Num : Type 0} (js : Js Num) where
  abbrev is_numeric : ParamType → Bool
  is_numeric number = true
  is_numeric integer = true
  is_numeric slider = true
  is_numeric _ = false

  abbrev is_enum : ParamType → Bool
  is_enum enum = true
  is_enum multi_enum = true
  is_enum _ = false

  -- What the schema alone says of a field.
  unfoldable pub initial_state :
      ModelParamSchema Num → String → ParamDefinition Num → FieldState Num
  initial_state schema field def = record {
    visible = not def.ui_hidden;
    disabled = false;
    disabled_reason = none;
    required = any (λ r. r == field) schema.required;
    available_options = if is_enum def.type then def.enum_options else none;
    effective_min = if is_numeric def.type then def.min else none;
    effective_max = if is_numeric def.type then def.max else none;
  }

  unfoldable pub init_states :
      ModelParamSchema Num → List (String × ParamDefinition Num) → FieldStates Num
  init_states schema [] = []
  init_states schema ((field, def) ∷ rest) =
      (field, initial_state schema field def) ∷ init_states schema rest

  unfoldable pub init_field_states : ModelParamSchema Num → FieldStates Num
  unfolding init_states initial_state
  init_field_states schema = init_states schema schema.properties

  -- `states[target]` is set, if there is one.
  unfoldable pub update_state :
      String → (FieldState Num → FieldState Num) → FieldStates Num → FieldStates Num
  update_state target f [] = []
  update_state target f ((field, st) ∷ rest) =
      let others = update_state target f rest in
      if field == target then (field, f st) ∷ rest else (field, st) ∷ others

  abbrev pub find_definition :
      String → List (String × ParamDefinition Num) → Option (ParamDefinition Num)
  find_definition target [] = none
  find_definition target ((field, def) ∷ rest) =
      let others = find_definition target rest in if field == target then some def else others

  -- `def?.enum_options`, narrowed; nothing changes where the definition has no options.
  abbrev pub narrowed :
      List (Value Num) → Option (ParamDefinition Num) → FieldState Num → FieldState Num
  narrowed allowed none st = st
  narrowed allowed (some def) st = elim def.enum_options [
    | none ↦ st
    | some options ↦ record st {
      available_options = some (select (λ opt. includes js allowed opt.value) options);
    }
  ]

  -- `applyAction`.
  unfoldable pub apply_action :
      ModelParamSchema Num → ConstraintAction Num → FieldStates Num → FieldStates Num
  unfolding update_state
  apply_action schema (restrict_options target allowed) states =
      update_state target (narrowed allowed (find_definition target schema.properties)) states
  apply_action schema (set_value target v) states = states
  apply_action schema (set_range target lo hi) states =
      update_state target
        (λ st. record st {
          effective_min = coalesce lo st.effective_min;
          effective_max = coalesce hi st.effective_max;
        })
        states
  apply_action schema (disable target reason) states =
      update_state target (λ st. record st { disabled = true; disabled_reason = reason }) states
  apply_action schema (show target) states =
      update_state target (λ st. record st { visible = true }) states
  apply_action schema (hide target) states =
      update_state target (λ st. record st { visible = false }) states
  apply_action schema (set_required target required) states =
      update_state target (λ st. record st { required = required }) states

  unfoldable pub apply_actions :
      ModelParamSchema Num → List (ConstraintAction Num) → FieldStates Num → FieldStates Num
  apply_actions schema [] states = states
  apply_actions schema (action ∷ actions) states =
      apply_actions schema actions (apply_action schema action states)

  unfoldable pub apply_constraints :
      ModelParamSchema Num
      → List (String × Value Num)
      → List (ParamConstraint Num)
      → FieldStates Num
      → FieldStates Num
  unfolding apply_actions
  apply_constraints schema values [] states = states
  apply_constraints schema values (c ∷ cs) states = apply_constraints schema values cs (
      if evaluate_condition js c.condition values
      then apply_actions schema c.actions states
      else states)

  abbrev pub holds_visible : Option (ConditionExpr Num) → List (String × Value Num) → Bool
  holds_visible none values = true
  holds_visible (some c) values = evaluate_condition js c values

  -- The pass over `visible_when`.
  unfoldable pub apply_visibility :
      List (String × Value Num)
      → List (String × ParamDefinition Num)
      → FieldStates Num
      → FieldStates Num
  apply_visibility values [] states = states
  apply_visibility values ((field, def) ∷ rest) states = apply_visibility values rest (
      if holds_visible def.visible_when values
      then states
      else update_state field (λ st. record st { visible = false }) states)

  unfoldable pub evaluate_constraints :
      List (String × Value Num)
      → ModelParamSchema Num
      → List (ParamConstraint Num)
      → FieldStates Num
  unfolding apply_constraints apply_visibility init_field_states
  evaluate_constraints values schema constraints =
      apply_visibility values schema.properties
        (apply_constraints schema values constraints (init_field_states schema))

  -- The options of a field that a value may be, `validValues`.
  abbrev pub option_values : List (EnumOption Num) → List (Value Num)
  option_values options = map (λ opt. opt.value) options

  abbrev below_min : Option Num → Num → Bool
  below_min none v = false
  below_min (some lo) v = js.lt (num v) (num lo)

  abbrev above_max : Option Num → Num → Bool
  above_max none v = false
  above_max (some hi) v = js.lt (num hi) (num v)

  abbrev pub is_option : Option (List (EnumOption Num)) → Value Num → Bool
  is_option none v = true
  is_option (some options) v = any (λ opt. strict_eq js opt.value v) options

  abbrev are_options : Option (List (EnumOption Num)) → Value Num → Bool
  are_options (some options) (arr vs) =
      every (λ v. includes js (option_values options) v) (elements vs)
  are_options _ v = true

  abbrev is_within : Bool → ParamDefinition Num → Value Num → Bool
  is_within whole def (num v) =
      not (below_min def.min v) && not (above_max def.max v) && (not whole || js.is_integer v)
  is_within whole def _ = false

  abbrev is_bool : Value Num → Bool
  is_bool (bool b) = true
  is_bool _ = false

  abbrev is_str : Value Num → Bool
  is_str (str s) = true
  is_str _ = false

  abbrev value_fits : ParamType → ParamDefinition Num → Value Num → Bool
  value_fits enum def v = is_option def.enum_options v
  value_fits multi_enum def v = are_options def.enum_options v
  value_fits number def v = is_within false def v
  value_fits integer def v = is_within true def v
  value_fits slider def v = is_within false def v
  value_fits boolean def v = is_bool v
  value_fits string def v = is_str v
  value_fits text def v = is_str v
  value_fits _ def v = true

  -- `isValueValid`.
  unfoldable pub is_value_valid : Value Num → ParamDefinition Num → Bool
  unfolding strict_eq same_value elements
  is_value_valid v def = is_nullish v || value_fits def.type def v

  abbrev pub default_of : ModelParamSchema Num → String → ParamDefinition Num → Value Num
  default_of schema key def = or_else def.default (get key schema.defaults)

  -- The entry of `result` for one property, if it gets one.
  abbrev pub reconciled :
      ModelParamSchema Num
      → List (String × Value Num)
      → String
      → ParamDefinition Num
      → List (String × Value Num)
      → List (String × Value Num)
  reconciled schema saved key def rest =
      if has_key key saved
      then (
        key,
        if is_value_valid (get key saved) def then get key saved else default_of schema key def,
      )
        ∷ rest
      else if not (is_undefined (default_of schema key def))
      then (key, default_of schema key def) ∷ rest
      else rest

  unfoldable pub reconcile_all :
      ModelParamSchema Num
      → List (String × Value Num)
      → List (String × ParamDefinition Num)
      → List (String × Value Num)
  reconcile_all schema saved [] = []
  reconcile_all schema saved ((key, def) ∷ rest) =
      reconciled schema saved key def (reconcile_all schema saved rest)

  -- `reconcileParams`.
  unfoldable pub reconcile_params :
      List (String × Value Num) → ModelParamSchema Num → List (String × Value Num)
  unfolding reconcile_all
  reconcile_params saved schema = reconcile_all schema saved schema.properties
