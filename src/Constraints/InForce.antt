-- ===== src/Constraints/InForce.antt =====
-- What the constraints leave in force for one field, read off the actions whose conditions hold: for
-- each part of its state the last action that gives it counts
-- (packages/constraint-engine/src/engine.ts).
pub mod States
pub mod Fields
use xg_canvas.Prelude.{
  ltb, leb, nat_beq, nat_beq_iff, Eq, if◌then◌else◌, string_eq, nat_eq, ◌==◌, leb→le, Bool-cases,
  is_some, is_none, coalesce, get_or, Option-cases, length, take, head?, any, every, select, find?,
  find?-holds, All, length-append, length-take-le, In, Pointwise, In-take, In-select, In-select_of,
  take_all, any-In, find?-In, All-Pointwise, Pointwise-All, All-In, All-of_In, All-map, In-any,
  All-select, any-select, none-select, Uuid, Timestamp, Json, text_append, ErrorKind, bad_request,
  forbidden, not_found, conflict, internal, ApiError, Result, ok, err, throw_error, ◌>>=◌, ◌>>◌,
  require, require_some, require_some-ok, require-ok, bind-ok, ok-injective, require_test,
  DistinctBy, eq_of_key, sort_by, In-sort_by, In-sort_by_of, length-sort_by, ℕ, zero, suc, ◌+◌, ◌-◌,
  ◌*◌, ◌/◌, ◌%◌, ◌^◌, ◌≤◌, ◌<◌, min, max, String, slice, len, ◌≡◌, refl, sym, ap, ◌∙◌, subst,
  fun_ext, ◌≢◌, ◌↔◌, ◌⊎◌, inl, inr, Bool, true, false, not, ◌&&◌, ◌||◌, Option, none, some, List,
  [], ◌∷◌, ◌++◌, map, eq_iff, arith, starts_with,
}
use xg_canvas.Constraints.Values.{
  Value, undefined, null, bool, num, str, arr, obj, Items, end, item, Js, elements, is_nullish,
  is_undefined, or_else, strict_eq, same_value, includes, get, has_key,
}
use xg_canvas.Constraints.Schema.{
  ParamType, string, number, integer, boolean, enum, multi_enum, file, file_list, text, color,
  slider, aspect_ratio, EnumOption, ParamDefinition, ModelParamSchema, ConstraintAction,
  restrict_options, set_value, set_range, disable, show, hide, set_required, ParamConstraint,
  FieldState, FieldStates,
}
use xg_canvas.Constraints.Condition.{
  ComparisonOp, eq, neq, in_list, not_in_list, gt, lt, gte, lte, ConditionExpr, comparison, all_of,
  any_of, negation, Conditions, no_more, also, evaluate_comparison, evaluate_condition,
  evaluate_and, evaluate_or,
}
use xg_canvas.Constraints.Engine.{
  initial_state, init_field_states, update_state, find_definition, narrowed, apply_action,
  apply_actions, apply_constraints, apply_visibility, evaluate_constraints, option_values,
  is_option, is_value_valid, default_of, reconciled, reconcile_all, reconcile_params,
}
use xg_canvas.Constraints.Validate.{
  ValidationError, ValidationResult, message_of, error_if, resolved_value, resolve_params,
  text_errors, bound_errors, options_of, entry_errors, value_errors, validate_field_value, is_blank,
  field_errors, find_state, property_errors, all_errors, is_empty, validate_params,
}

-- The last value that an action gives.
abbrev pub last_given : {A B : Type 0} → (A → Option B) → List A → Option B
last_given f [] = none
last_given f (a ∷ as') = coalesce (last_given f as') (f a)

module _ {Num : Type 0} (js : Js Num) where
  -- The actions of the constraints that hold, in order.
  abbrev pub active_actions :
      List (String × Value Num) → List (ParamConstraint Num) → List (ConstraintAction Num)
  active_actions values [] = []
  active_actions values (c ∷ cs) =
      (if evaluate_condition js c.condition values then c.actions else [])
      ++ active_actions values cs

  abbrev pub shows : String → ConstraintAction Num → Option Bool
  shows field (show target) = if field == target then some true else none
  shows field (hide target) = if field == target then some false else none
  shows field _ = none

  abbrev pub requires : String → ConstraintAction Num → Option Bool
  requires field (set_required target b) = if field == target then some b else none
  requires field _ = none

  abbrev pub bounds_below : String → ConstraintAction Num → Option Num
  bounds_below field (set_range target lo hi) = if field == target then lo else none
  bounds_below field _ = none

  abbrev pub bounds_above : String → ConstraintAction Num → Option Num
  bounds_above field (set_range target lo hi) = if field == target then hi else none
  bounds_above field _ = none

  abbrev pub allows : String → ConstraintAction Num → Option (List (Value Num))
  allows field (restrict_options target allowed) = if field == target then some allowed else none
  allows field _ = none

  -- The options of a definition that an action allows, all without one.
  abbrev pub narrowed_to : Option (List (Value Num)) → List (EnumOption Num) → List (EnumOption Num)
  narrowed_to none options = options
  narrowed_to (some allowed) options = select (λ o. includes js allowed o.value) options

  abbrev pub options_in_force :
      Option (List (EnumOption Num)) → Option (List (Value Num)) → Option (List (EnumOption Num))
  options_in_force none allowed = none
  options_in_force (some options) allowed = some (narrowed_to allowed options)

  -- What a field must meet.
  pub record Force : Type 0 where
    pub visible : Bool
    pub required : Bool
    pub lowest : Option Num
    pub highest : Option Num
    pub options : Option (List (EnumOption Num))

  -- Read off the schema and the active actions.
  abbrev pub force_of :
      ModelParamSchema Num
      → List (String × Value Num)
      → List (ParamConstraint Num)
      → String
      → ParamDefinition Num
      → Force
  force_of schema values cs field def =
      let actions = active_actions values cs in
      record {
        visible =
            get_or (last_given (shows field) actions) (not def.ui_hidden)
            && (elim def.visible_when [ none ↦ true | some c ↦ evaluate_condition js c values ]);
        required =
            get_or (last_given (requires field) actions) (any (λ r. r == field) schema.required);
        lowest = coalesce (last_given (bounds_below field) actions) def.min;
        highest = coalesce (last_given (bounds_above field) actions) def.max;
        options = options_in_force def.enum_options (last_given (allows field) actions);
      }

  -- Read off a computed state, as the validation does.
  abbrev pub force_of_state : ParamDefinition Num → FieldState Num → Force
  force_of_state def st = record {
    visible = st.visible;
    required = st.required;
    lowest = coalesce st.effective_min def.min;
    highest = coalesce st.effective_max def.max;
    options = options_of js def st;
  }

  -- One action on the state of one field.
  abbrev pub act :
      Option (ParamDefinition Num) → String → ConstraintAction Num → FieldState Num → FieldState Num
  act def field (restrict_options target allowed) st =
      if field == target then narrowed js allowed def st else st
  act def field (set_value target v) st = st
  act def field (set_range target lo hi) st =
      if field == target
      then record st {
        effective_min = coalesce lo st.effective_min;
        effective_max = coalesce hi st.effective_max;
      }
      else st
  act def field (disable target reason) st =
      if field == target then record st { disabled = true; disabled_reason = reason } else st
  act def field (show target) st = if field == target then record st { visible = true } else st
  act def field (hide target) st = if field == target then record st { visible = false } else st
  act def field (set_required target b) st =
      if field == target then record st { required = b } else st

  abbrev pub act_all :
      Option (ParamDefinition Num)
      → String
      → List (ConstraintAction Num)
      → FieldState Num
      → FieldState Num
  act_all def field [] st = st
  act_all def field (a ∷ rest) st = act_all def field rest (act def field a st)

  -- The parts of the state after the actions.
  pub record Agrees (def : ParamDefinition Num) (field : String)
      (actions : List (ConstraintAction Num)) (st u : FieldState Num) : Type 0 where
    pub visible : u.visible ≡ get_or (last_given (shows field) actions) st.visible
    pub required : u.required ≡ get_or (last_given (requires field) actions) st.required
    pub lowest :
        u.effective_min ≡ coalesce (last_given (bounds_below field) actions) st.effective_min
    pub highest :
        u.effective_max ≡ coalesce (last_given (bounds_above field) actions) st.effective_max
    pub options : u.available_options ≡ (elim (last_given (allows field) actions) [
      | none ↦ st.available_options
      | some allowed ↦ elim def.enum_options [
        | none ↦ st.available_options
        | some os ↦ some (narrowed_to (some allowed) os)
      ]
    ])

  -- One more action before the others.
  step-Agrees :
      (def : ParamDefinition Num) (field : String) (a : ConstraintAction Num)
      (rest : List (ConstraintAction Num)) (st u : FieldState Num)
      → Agrees def field rest (act (some def) field a st) u
      → Agrees def field (a ∷ rest) st u
  step-Agrees def field (restrict_options target allowed) rest st u h =
      ground (arith, h.visible, h.required, h.lowest, h.highest, h.options)
  step-Agrees def field (set_value target v) rest st u h =
      ground (arith, h.visible, h.required, h.lowest, h.highest, h.options)
  step-Agrees def field (set_range target lo hi) rest st u h =
      ground (arith, h.visible, h.required, h.lowest, h.highest, h.options)
  step-Agrees def field (disable target reason) rest st u h =
      ground (arith, h.visible, h.required, h.lowest, h.highest, h.options)
  step-Agrees def field (show target) rest st u h =
      ground (arith, h.visible, h.required, h.lowest, h.highest, h.options)
  step-Agrees def field (hide target) rest st u h =
      ground (arith, h.visible, h.required, h.lowest, h.highest, h.options)
  step-Agrees def field (set_required target b) rest st u h =
      ground (arith, h.visible, h.required, h.lowest, h.highest, h.options)

  pub act_all-Agrees :
      (def : ParamDefinition Num) (field : String) (actions : List (ConstraintAction Num))
      (st : FieldState Num)
      → Agrees def field actions st (act_all (some def) field actions st)
  act_all-Agrees def field [] st = ground arith
  act_all-Agrees def field (a ∷ rest) st =
      step-Agrees def field a rest st (act_all (some def) field rest (act (some def) field a st))
        (act_all-Agrees def field rest (act (some def) field a st))
