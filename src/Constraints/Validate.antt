-- ===== src/Constraints/Validate.antt =====
-- The validation of parameters before a task is created (packages/constraint-engine/src/validate.ts).
pub mod Given
pub mod Fitting
pub mod Accepted
use xg_canvas.Prelude.{
  ltb, if◌then◌else◌, string_eq, nat_eq, ◌==◌, coalesce, length, text_append, ◌>>=◌, ◌>>◌, min, max,
  String, Bool, true, false, not, ◌&&◌, Option, none, some, List, [], ◌∷◌, ◌++◌,
}
use xg_canvas.Constraints.Values.{
  Value, null, bool, num, str, arr, obj, Js, elements, is_nullish, is_undefined, strict_eq,
  same_value, includes, get, has_key,
}
use xg_canvas.Constraints.Schema.{
  ParamType, string, number, integer, boolean, enum, multi_enum, file, file_list, text, slider,
  EnumOption, ParamDefinition, ModelParamSchema, ParamConstraint, FieldState, FieldStates,
}
use xg_canvas.Constraints.Engine.{evaluate_constraints, option_values, is_option}

pub record ValidationError : Type 0 where
  pub field : String
  pub message : String

pub record ValidationResult (Num : Type 0) : Type 0 where
  pub valid : Bool
  pub errors : List ValidationError
  pub resolved_params : List (String × Value Num)

abbrev pub message_of : String → String → String → ValidationError
message_of field label rest = record { field = field; message = text_append label rest }

-- `if (test) errors.push(error)`.
abbrev pub error_if : Bool → ValidationError → List ValidationError
error_if test e = if test then e ∷ [] else []

module _ {Num : Type 0} (js : Js Num) where
  -- The value of a property: the given one, or a default.
  abbrev pub resolved_value :
      ModelParamSchema Num → List (String × Value Num) → String → ParamDefinition Num → Value Num
  resolved_value schema params key def =
      if has_key key params && not (is_nullish (get key params))
      then get key params
      else if not (is_undefined def.default)
      then def.default
      else get key schema.defaults

  abbrev pub add_resolved :
      String → Value Num → List (String × Value Num) → List (String × Value Num)
  add_resolved key v rest = if is_undefined v then rest else (key, v) ∷ rest

  unfoldable pub resolve_params :
      ModelParamSchema Num
      → List (String × Value Num)
      → List (String × ParamDefinition Num)
      → List (String × Value Num)
  unfolding get has_key
  resolve_params schema params [] = []
  resolve_params schema params ((key, def) ∷ rest) =
      add_resolved key (resolved_value schema params key def) (resolve_params schema params rest)

  abbrev pub text_errors : String → ParamDefinition Num → String → List ValidationError
  text_errors field def v =
      elim def.min_length [
        | none ↦ []
        | some n ↦
            error_if (ltb (js.text_length v) n)
              (message_of field def.label (text_append " 至少 " (text_append (js.nat_text n) " 个字符")))
      ]
      ++ elim def.max_length [
        | none ↦ []
        | some n ↦
            error_if (ltb n (js.text_length v))
              (message_of field def.label (text_append " 最多 " (text_append (js.nat_text n) " 个字符")))
      ]
      ++ elim def.pattern [
        | none ↦ []
        | some r ↦
            error_if (not (r == "") && not (js.matches r v)) (message_of field def.label " 格式不正确")
      ]

  abbrev pub bound_errors :
      String → ParamDefinition Num → FieldState Num → Num → List ValidationError
  bound_errors field def st v =
      elim (coalesce st.effective_min def.min) [
        | none ↦ []
        | some lo ↦
            error_if (js.lt (num v) (num lo))
              (message_of field def.label (text_append " 不能小于 " (js.num_text lo)))
      ]
      ++ elim (coalesce st.effective_max def.max) [
        | none ↦ []
        | some hi ↦
            error_if (js.lt (num hi) (num v))
              (message_of field def.label (text_append " 不能大于 " (js.num_text hi)))
      ]

  abbrev number_errors :
      String → ParamDefinition Num → FieldState Num → Value Num → List ValidationError
  number_errors field def st (num v) =
      if js.is_nan v then message_of field def.label " 必须是数字" ∷ [] else bound_errors field def st v
  number_errors field def st _ = message_of field def.label " 必须是数字" ∷ []

  abbrev integer_errors :
      String → ParamDefinition Num → FieldState Num → Value Num → List ValidationError
  integer_errors field def st (num v) =
      if js.is_integer v
      then bound_errors field def st v
      else message_of field def.label " 必须是整数" ∷ []
  integer_errors field def st _ = message_of field def.label " 必须是整数" ∷ []

  abbrev string_errors : String → ParamDefinition Num → Value Num → List ValidationError
  string_errors field def (str v) = text_errors field def v
  string_errors field def _ = message_of field def.label " 必须是文本" ∷ []

  abbrev boolean_errors : String → ParamDefinition Num → Value Num → List ValidationError
  boolean_errors field def (bool b) = []
  boolean_errors field def _ = message_of field def.label " 必须是布尔值" ∷ []

  abbrev pub options_of : ParamDefinition Num → FieldState Num → Option (List (EnumOption Num))
  options_of def st = coalesce st.available_options def.enum_options

  -- One message for each entry that is no option.
  abbrev pub entry_errors :
      String → String → List (Value Num) → List (Value Num) → List ValidationError
  entry_errors field label options [] = []
  entry_errors field label options (v ∷ vs) =
      error_if (not (includes js options v))
        (message_of field label (text_append " 包含无效选项: " (js.value_text v)))
      ++ entry_errors field label options vs

  abbrev multi_errors :
      String → ParamDefinition Num → FieldState Num → Value Num → List ValidationError
  multi_errors field def st (arr vs) = elim (options_of def st) [
    | none ↦ []
    | some options ↦ entry_errors field def.label (option_values js options) (elements vs)
  ]
  multi_errors field def st _ = message_of field def.label " 必须是数组" ∷ []

  -- `typeof value` of an array, of another object and of null is "object".
  abbrev file_errors : String → ParamDefinition Num → Value Num → List ValidationError
  file_errors field def (str v) = []
  file_errors field def (arr vs) = []
  file_errors field def obj = []
  file_errors field def null = []
  file_errors field def _ = message_of field def.label " 文件格式无效" ∷ []

  abbrev file_list_errors : String → ParamDefinition Num → Value Num → List ValidationError
  file_list_errors field def (arr vs) = elim def.max_file_count [
    | none ↦ []
    | some n ↦
        error_if (ltb n (length (elements vs)))
          (message_of field def.label (text_append " 最多 " (text_append (js.nat_text n) " 个文件")))
  ]
  file_list_errors field def _ = message_of field def.label " 必须是文件列表" ∷ []

  unfoldable pub value_errors :
      ParamType → String → ParamDefinition Num → FieldState Num → Value Num → List ValidationError
  value_errors string field def st v = string_errors field def v
  value_errors text field def st v = string_errors field def v
  value_errors number field def st v = number_errors field def st v
  value_errors slider field def st v = number_errors field def st v
  value_errors integer field def st v = integer_errors field def st v
  value_errors boolean field def st v = boolean_errors field def v
  value_errors enum field def st v =
      error_if (not (is_option js (options_of def st) v)) (message_of field def.label " 的值不在可选范围内")
  value_errors multi_enum field def st v = multi_errors field def st v
  value_errors file field def st v = file_errors field def v
  value_errors file_list field def st v = file_list_errors field def v
  value_errors _ field def st v = []

  -- `validateFieldValue`.
  unfoldable pub validate_field_value :
      String → Value Num → ParamDefinition Num → FieldState Num → List ValidationError
  unfolding value_errors strict_eq same_value elements
  validate_field_value field v def st = value_errors def.type field def st v

  abbrev pub is_blank : Value Num → Bool
  is_blank (str s) = s == ""
  is_blank v = is_nullish v

  -- The checks of one property, in the order of the loop's `continue`s.
  unfoldable pub field_errors :
      String → Value Num → ParamDefinition Num → FieldState Num → List ValidationError
  unfolding validate_field_value
  field_errors field v def st =
      if not st.visible
      then []
      else if st.required && is_blank v
      then message_of field def.label " 为必填项" ∷ []
      else if is_nullish v
      then []
      else validate_field_value field v def st

  abbrev pub find_state : String → FieldStates Num → Option (FieldState Num)
  find_state field [] = none
  find_state field ((f, st) ∷ rest) =
      let others = find_state field rest in if f == field then some st else others

  abbrev pub property_errors :
      List (String × Value Num)
      → FieldStates Num
      → String
      → ParamDefinition Num
      → List ValidationError
  property_errors resolved states field def = elim (find_state field states) [
    | none ↦ []
    | some st ↦ field_errors field (get field resolved) def st
  ]

  unfoldable pub all_errors :
      List (String × Value Num)
      → FieldStates Num
      → List (String × ParamDefinition Num)
      → List ValidationError
  unfolding field_errors
  all_errors resolved states [] = []
  all_errors resolved states ((field, def) ∷ rest) =
      property_errors resolved states field def ++ all_errors resolved states rest

  abbrev pub is_empty : List ValidationError → Bool
  is_empty [] = true
  is_empty (e ∷ es) = false

  -- `validateParams`.
  unfoldable pub validate_params :
      List (String × Value Num)
      → ModelParamSchema Num
      → List (ParamConstraint Num)
      → ValidationResult Num
  unfolding all_errors resolve_params evaluate_constraints
  validate_params params schema constraints =
      let resolved = resolve_params schema params schema.properties in
      let states = evaluate_constraints js resolved schema constraints in
      let errors = all_errors resolved states schema.properties in
      record { valid = is_empty errors; errors = errors; resolved_params = resolved }
