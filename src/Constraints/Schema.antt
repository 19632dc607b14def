-- ===== src/Constraints/Schema.antt =====
-- Parameter schemas, constraints and the states of fields (packages/constraint-engine/src/types.ts).
use xg_canvas.Prelude.{string_eq, nat_eq, ℕ, String, Bool, Option, List}
use xg_canvas.Constraints.Values.{Value}
use xg_canvas.Constraints.Condition.{ConditionExpr}

pub data ParamType : Type 0 where
  string number integer boolean enum multi_enum file file_list text color slider aspect_ratio :
      ParamType

-- What the panel alone shows (descriptions, widths, tooltips) is left out.
pub record EnumOption (Num : Type 0) : Type 0 where
  pub value : Value Num
  pub label : String

pub record ParamDefinition (Num : Type 0) : Type 0 where
  pub type : ParamType
  pub label : String
  pub default : Value Num
  pub enum_options : Option (List (EnumOption Num))
  pub min : Option Num
  pub max : Option Num
  pub min_length : Option ℕ
  pub max_length : Option ℕ
  pub pattern : Option String
  pub max_file_count : Option ℕ
  pub ui_hidden : Bool
  pub visible_when : Option (ConditionExpr Num)

pub record ModelParamSchema (Num : Type 0) : Type 0 where
  pub properties : List (String × ParamDefinition Num)
  pub required : List String
  pub defaults : List (String × Value Num)

pub data ConstraintAction (Num : Type 0) : Type 0 where
  restrict_options : String → List (Value Num) → ConstraintAction Num
  set_value : String → Value Num → ConstraintAction Num
  set_range : String → Option Num → Option Num → ConstraintAction Num
  disable : String → Option String → ConstraintAction Num
  show : String → ConstraintAction Num
  hide : String → ConstraintAction Num
  set_required : String → Bool → ConstraintAction Num

pub record ParamConstraint (Num : Type 0) : Type 0 where
  pub id : String
  pub condition : ConditionExpr Num
  pub actions : List (ConstraintAction Num)

pub record FieldState (Num : Type 0) : Type 0 where
  pub visible : Bool
  pub disabled : Bool
  pub disabled_reason : Option String
  pub required : Bool
  pub available_options : Option (List (EnumOption Num))
  pub effective_min : Option Num
  pub effective_max : Option Num

abbrev pub FieldStates : Type 0 → Type 0
FieldStates Num = List (String × FieldState Num)
