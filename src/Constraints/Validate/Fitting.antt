-- ===== src/Constraints/Validate/Fitting.antt =====
-- What validateParams asks of a value, by the type of the field and by what is in force for it
-- (packages/constraint-engine/src/validate.ts).
use xg_canvas.Constraints.Validate.Given.{given_or_default, given_values}
use xg_canvas.Constraints.InForce.{Force, force_of}
use xg_canvas.Constraints.Values.{
  same_value, strict_eq, Value, undefined, null, bool, num, str, arr, Js, elements, is_nullish,
}
use xg_canvas.Prelude.{
  leb, string_eq, nat_eq, ◌==◌, length, any, every, ℕ, String, Bool, true, false, not, ◌&&◌, ◌||◌,
  Option, none, some, List,
}
use xg_canvas.Prelude.{
  leb, string_eq, nat_eq, ◌==◌, length, every, ℕ, String, Bool, true, false, not, ◌&&◌, ◌||◌,
  Option, none, some, List,
}
use xg_canvas.Constraints.Values.{Value, undefined, bool, num, str, arr, Js, elements, is_nullish}
use xg_canvas.Constraints.Schema.{
  ParamConstraint, ModelParamSchema, ParamType, string, number, integer, boolean, enum, multi_enum,
  file, file_list, text, slider, EnumOption, ParamDefinition,
}

module _ {Num : Type 0} (js : Js Num) where
  abbrev pub at_least : Option ℕ → ℕ → Bool
  at_least none n = true
  at_least (some lo) n = leb lo n

  abbrev pub at_most : Option ℕ → ℕ → Bool
  at_most none n = true
  at_most (some hi) n = leb n hi

  abbrev pub has_pattern : Option String → String → Bool
  has_pattern none s = true
  has_pattern (some r) s = r == "" || js.matches r s

  abbrev pub not_below : Option Num → Num → Bool
  not_below none v = true
  not_below (some lo) v = not (js.lt (num v) (num lo))

  abbrev pub not_above : Option Num → Num → Bool
  not_above none v = true
  not_above (some hi) v = not (js.lt (num hi) (num v))

  abbrev pub in_range : Force js → Num → Bool
  in_range f v = not_below f.lowest v && not_above f.highest v

  -- One of the options in force, if there are any, by the given test.
  abbrev pub is_offered :
      (Value Num → Value Num → Bool) → Option (List (EnumOption Num)) → Value Num → Bool
  is_offered same none v = true
  is_offered same (some options) v = any (λ o. same o.value v) options

  abbrev pub each_is_offered : Option (List (EnumOption Num)) → List (Value Num) → Bool
  each_is_offered options vs = every (is_offered (same_value js) options) vs

  -- A present value of the field's type within the bounds and the options that are in force.
  abbrev pub fits_text : ParamDefinition Num → Value Num → Bool
  fits_text def (str s) =
      at_least def.min_length (js.text_length s)
      && at_most def.max_length (js.text_length s)
      && has_pattern def.pattern s
  fits_text def _ = false

  abbrev pub fits_number : Force js → Value Num → Bool
  fits_number f (num v) = not (js.is_nan v) && in_range f v
  fits_number f _ = false

  abbrev pub fits_integer : Force js → Value Num → Bool
  fits_integer f (num v) = js.is_integer v && in_range f v
  fits_integer f _ = false

  abbrev pub fits_boolean : Value Num → Bool
  fits_boolean (bool b) = true
  fits_boolean _ = false

  abbrev pub fits_multi : Force js → Value Num → Bool
  fits_multi f (arr vs) = each_is_offered f.options (elements vs)
  fits_multi f _ = false

  abbrev pub fits_file : Value Num → Bool
  fits_file (bool b) = false
  fits_file (num n) = false
  fits_file undefined = false
  fits_file _ = true

  abbrev pub fits_file_list : ParamDefinition Num → Value Num → Bool
  fits_file_list def (arr vs) = at_most def.max_file_count (length (elements vs))
  fits_file_list def _ = false

  abbrev pub fits : ParamType → ParamDefinition Num → Force js → Value Num → Bool
  fits string def f v = fits_text def v
  fits text def f v = fits_text def v
  fits number def f v = fits_number f v
  fits slider def f v = fits_number f v
  fits integer def f v = fits_integer f v
  fits boolean def f v = fits_boolean v
  fits enum def f v = is_offered (strict_eq js) f.options v
  fits multi_enum def f v = fits_multi f v
  fits file def f v = fits_file v
  fits file_list def f v = fits_file_list def v
  fits _ def f v = true

  -- Nothing was entered.
  abbrev pub is_missing : Value Num → Bool
  is_missing undefined = true
  is_missing null = true
  is_missing (str s) = s == ""
  is_missing _ = false

  -- Hidden fields pass; a required one is not missing; a present value fits.
  abbrev pub passes : ParamDefinition Num → Force js → Value Num → Bool
  passes def f v =
      not f.visible || (not (f.required && is_missing v) && (is_nullish v || fits def.type def f v))

  abbrev pub passes_at :
      ModelParamSchema Num
      → List (String × Value Num)
      → List (ParamConstraint Num)
      → String
      → ParamDefinition Num
      → Bool
  passes_at schema params cs field def =
      passes def (force_of js schema (given_values js schema params schema.properties) cs field def)
        (given_or_default js schema params field def)
