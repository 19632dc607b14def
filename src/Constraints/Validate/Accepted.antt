-- ===== src/Constraints/Validate/Accepted.antt =====
-- Which parameters validateParams accepts (packages/constraint-engine/src/validate.ts).
use xg_canvas.Constraints.Validate.Given.{
  given_or_default, resolve_params-given_values, resolved-given,
}
use xg_canvas.Constraints.InForce.{force_of, force_of_state}
use xg_canvas.Constraints.InForce.Fields.{state_in_force}
use xg_canvas.Constraints.Reconcile.{DistinctNames}
use xg_canvas.Constraints.Values.{
  same_value, Value, bool, num, str, arr, Items, Js, elements, includes, get,
}
use xg_canvas.Constraints.Engine.{evaluate_constraints, option_values}
use xg_canvas.Prelude.{
  string_eq, nat_eq, every, In, String, ◌≡◌, refl, sym, ap, ◌∙◌, inl, inr, Bool, true, false, not,
  ◌&&◌, Option, none, some, List, [], ◌∷◌, ◌++◌, arith,
}
use xg_canvas.Prelude.{
  sym, string_eq, nat_eq, every, String, ◌≡◌, refl, ◌∙◌, Bool, true, false, not, ◌&&◌, Option, none,
  some, List, [], ◌∷◌, ◌++◌, arith,
}
use xg_canvas.Constraints.Values.{Items, Value, bool, num, str, arr, Js, elements, includes, get}
use xg_canvas.Constraints.Schema.{
  ParamConstraint, ModelParamSchema, aspect_ratio, color, ParamType, string, number, integer,
  boolean, enum, multi_enum, file, file_list, text, slider, EnumOption, ParamDefinition, FieldState,
}
use xg_canvas.Constraints.Engine.{evaluate_constraints, option_values}
use xg_canvas.Constraints.Validate.{
  resolve_params, property_errors, validate_field_value, all_errors, field_errors, validate_params,
  text_errors, value_errors, bound_errors, entry_errors, ValidationError, error_if, options_of,
  find_state, is_empty,
}
use xg_canvas.Constraints.Validate.Fitting.{
  in_range, is_offered, each_is_offered, fits_text, fits, passes, passes_at,
}

module _ {Num : Type 0} (js : Js Num) where
  is_empty-append :
      (xs ys : List ValidationError) → is_empty js (xs ++ ys) ≡ is_empty js xs && is_empty js ys
  is_empty-append [] ys = refl
  is_empty-append (x ∷ xs) ys = refl

  is_empty-error_if : (test : Bool) (e : ValidationError) → is_empty js (error_if test e) ≡ not test
  is_empty-error_if true e = refl
  is_empty-error_if false e = refl

  text-passes :
      (field : String) (def : ParamDefinition Num) (s : String)
      → is_empty js (text_errors js field def s) ≡ fits_text js def (str s)
  text-passes field def s = ground arith

  bounds-pass :
      (field : String) (def : ParamDefinition Num) (st : FieldState Num) (v : Num)
      → is_empty js (bound_errors js field def st v) ≡ in_range js (force_of_state js def st) v
  bounds-pass field def st v = ground arith

  offered-values :
      (options : List (EnumOption Num)) (v : Value Num)
      → includes js (option_values js options) v ≡ is_offered js (same_value js) (some options) v
  offered-values [] v = refl
  offered-values (o ∷ options) v = rw (offered-values options v) refl

  each_offered-none : (vs : List (Value Num)) → each_is_offered js none vs ≡ true
  each_offered-none [] = refl
  each_offered-none (v ∷ vs) = each_offered-none vs

  entries-pass :
      (field label : String) (options : List (EnumOption Num)) (vs : List (Value Num))
      → is_empty js (entry_errors js field label (option_values js options) vs)
        ≡ each_is_offered js (some options) vs
  entries-pass field label options [] = refl
  entries-pass field label options (v ∷ vs) =
      is_empty-append (error_if _ _) (entry_errors js field label (option_values js options) vs)
      ∙ rw
          (
            is_empty-error_if (not (includes js (option_values js options) v)) _,
            entries-pass field label options vs,
            offered-values options v,
          )
          (ground arith)

  multi-passes :
      (field label : String) (options : Option (List (EnumOption Num))) (vs : Items Num)
      → is_empty js (elim options [
        | none ↦ []
        | some os ↦ entry_errors js field label (option_values js os) (elements vs)
      ])
        ≡ each_is_offered js options (elements vs)
  multi-passes field label none vs = sym (each_offered-none (elements vs))
  multi-passes field label (some os) vs = entries-pass field label os (elements vs)

  value-passes :
      (kind : ParamType) (field : String) (def : ParamDefinition Num) (st : FieldState Num)
      (v : Value Num)
      → is_empty js (value_errors js kind field def st v)
        ≡ fits js kind def (force_of_state js def st) v
  unfolding value_errors
  value-passes string field def st (str s) = text-passes field def s
  value-passes string field def st v = refl
  value-passes text field def st (str s) = text-passes field def s
  value-passes text field def st v = refl
  value-passes number field def st (num n) = ground (arith, bounds-pass field def st n)
  value-passes number field def st v = refl
  value-passes slider field def st (num n) = ground (arith, bounds-pass field def st n)
  value-passes slider field def st v = refl
  value-passes integer field def st (num n) = ground (arith, bounds-pass field def st n)
  value-passes integer field def st v = refl
  value-passes boolean field def st (bool b) = refl
  value-passes boolean field def st v = refl
  value-passes enum field def st v = ground arith
  value-passes multi_enum field def st (arr vs) =
      multi-passes field def.label (options_of js def st) vs
  value-passes multi_enum field def st v = refl
  value-passes file field def st (str s) = refl
  value-passes file field def st v = refl
  value-passes file_list field def st (arr vs) = ground arith
  value-passes file_list field def st v = refl
  value-passes color field def st v = refl
  value-passes aspect_ratio field def st v = refl

  field-passes :
      (field : String) (v : Value Num) (def : ParamDefinition Num) (st : FieldState Num)
      → is_empty js (field_errors js field v def st) ≡ passes js def (force_of_state js def st) v
  unfolding field_errors validate_field_value
  field-passes field v def st = ground (arith, value-passes def.type field def st v)

  module _ (schema : ModelParamSchema Num) (params : List (String × Value Num))
      (cs : List (ParamConstraint Num)) (d : DistinctNames schema.properties) where
    abbrev resolved : List (String × Value Num)
    resolved = resolve_params js schema params schema.properties

    of_state :
        (field : String) (def : ParamDefinition Num) (o : Option (FieldState Num))
        (st : FieldState Num) (v : Value Num)
        → o ≡ some st
        → is_empty js (elim o [ none ↦ [] | some u ↦ field_errors js field v def u ])
          ≡ is_empty js (field_errors js field v def st)
    of_state field def o st v h =
        ap
          (λ (x : Option (FieldState Num)).
            is_empty js (elim x [ none ↦ [] | some u ↦ field_errors js field v def u ]))
          h

    property-passes :
        (field : String) (def : ParamDefinition Num)
        → In (field, def) schema.properties
        → is_empty js
            (property_errors js resolved (evaluate_constraints js resolved schema cs) field def)
          ≡ passes_at js schema params cs field def
    property-passes field def i =
        let (st, found, same) = state_in_force js schema resolved cs field def d i in
        let given = resolved-given js schema params field def schema.properties d i in
        of_state field def (find_state js field (evaluate_constraints js resolved schema cs)) st
          (get field resolved) found
        ∙ field-passes field (get field resolved) def st
        ∙ ap (λ f. passes js def f (get field resolved)) same
        ∙ ap (passes js def (force_of js schema resolved cs field def)) given
        ∙ ap
            (λ values.
              passes js def (force_of js schema values cs field def)
                (given_or_default js schema params field def))
            (resolve_params-given_values js schema params schema.properties)

    all-pass :
        (ps : List (String × ParamDefinition Num))
        → ((p : String × ParamDefinition Num) → In p ps → In p schema.properties)
        → is_empty js (all_errors js resolved (evaluate_constraints js resolved schema cs) ps)
          ≡ every (λ p. passes_at js schema params cs p.0 p.1) ps
    unfolding all_errors
    all-pass [] sub = refl
    all-pass ((field, def) ∷ ps) sub =
        is_empty-append
          (property_errors js resolved (evaluate_constraints js resolved schema cs) field def)
          (all_errors js resolved (evaluate_constraints js resolved schema cs) ps)
        ∙ rw
            (
              property-passes field def (sub (field, def) (inl refl)),
              all-pass ps (λ p i. sub p (inr i)),
            )
            refl

-- For a schema whose properties have different names, parameters are valid exactly if every property
-- passes: it is hidden, or it is not missing where it is required and its value, if there is one,
-- has the type of the field and keeps to the lengths, the pattern and the file count of its
-- definition and to the bounds and the options in force. The value is the given one, or the default
-- of the property, or that of the schema. In force for a field is, for each of the visibility, the
-- requirement, the two bounds and the options, what the last action on it says among the
-- constraints whose conditions hold, and what the schema says where there is none; a field whose own
-- condition fails is hidden.
pub validate_params-passes :
    {Num : Type 0} (js : Js Num) (params : List (String × Value Num))
    (schema : ModelParamSchema Num) (constraints : List (ParamConstraint Num))
    → DistinctNames schema.properties
    → (validate_params js params schema constraints).valid
      ≡ every (λ p. passes_at js schema params constraints p.0 p.1) schema.properties
unfolding validate_params
validate_params-passes js params schema constraints d =
    all-pass js schema params constraints d schema.properties (λ p i. i)
