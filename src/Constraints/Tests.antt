-- ===== src/Constraints/Tests.antt =====
-- Tests of the constraint engine, and its theorems at a small schema, with whole numbers.
use xg_canvas.Prelude.{
  ltb, leb, string_eq, nat_eq, ◌==◌, every, All, ℕ, String, len, ◌≡◌, refl, Bool, true, false, none,
  some, List, [], ◌∷◌,
}
use xg_canvas.Constraints.Values.{Value, undefined, num, str, Js, strict_eq, get, has_key}
use xg_canvas.Constraints.Condition.{eq, comparison, evaluate_comparison, evaluate_condition}
use xg_canvas.Constraints.Schema.{
  ParamType, integer, enum, text, EnumOption, ParamDefinition, ModelParamSchema, set_range,
  ParamConstraint,
}
use xg_canvas.Constraints.Engine.{
  init_field_states, update_state, apply_action, apply_actions, apply_constraints, apply_visibility,
  is_value_valid, default_of, reconcile_params,
}
use xg_canvas.Constraints.Reconcile.{DistinctNames, reconcile_params_stable}
use xg_canvas.Constraints.Validate.{validate_params}
use xg_canvas.Constraints.Validate.Fitting.{passes_at}
use xg_canvas.Constraints.Validate.Accepted.{validate_params-passes}

abbrev num_lt : Value ℕ → Value ℕ → Bool
num_lt (num a) (num b) = ltb a b
num_lt _ _ = false

abbrev num_le : Value ℕ → Value ℕ → Bool
num_le (num a) (num b) = leb a b
num_le _ _ = false

abbrev whole : Js ℕ
whole = record {
  eq_num = λ a b. a == b;
  same_num = λ a b. a == b;
  lt = num_lt;
  le = num_le;
  is_nan = λ n. false;
  is_integer = λ n. true;
  text_length = λ s. len s;
  matches = λ r s. true;
  num_text = λ n. "n";
  value_text = λ v. "v";
  nat_text = λ n. "n";
}

abbrev field : ParamType → Value ℕ → ParamDefinition ℕ
field kind default = record {
  type = kind;
  label = "field";
  default = default;
  enum_options = none;
  min = none;
  max = none;
  min_length = none;
  max_length = none;
  pattern = none;
  max_file_count = none;
  ui_hidden = false;
  visible_when = none;
}

abbrev option : String → EnumOption ℕ
option v = record { value = str v; label = v }

abbrev video : ModelParamSchema ℕ
video = record {
  properties =
      (
        "mode",
        record (field enum (str "fast")) {
          enum_options = some (option "fast" ∷ option "pro" ∷ []);
        },
      )
      ∷ ("seconds", record (field integer (num 5)) { min = some 1; max = some 10 })
      ∷ ("prompt", field text undefined)
      ∷ [];
  required = "prompt" ∷ [];
  defaults = [];
}

-- In the fast mode a clip lasts five seconds at most.
abbrev fast_is_short : ParamConstraint ℕ
fast_is_short = record {
  id = "fast_is_short";
  condition = comparison "mode" eq (str "fast");
  actions = set_range "seconds" none (some 5) ∷ [];
}

abbrev saved : List (String × Value ℕ)
saved = ("mode", str "old") ∷ ("seconds", num 8) ∷ []

abbrev asked : List (String × Value ℕ)
asked = ("seconds", num 8) ∷ ("prompt", str "a cat") ∷ []

removed_option_falls_back :
    reconcile_params whole saved video ≡ ("mode", str "fast") ∷ ("seconds", num 8) ∷ []
unfolding reconcile_params is_value_valid get has_key
removed_option_falls_back = refl

too_long_when_fast : (validate_params whole asked video (fast_is_short ∷ [])).valid ≡ false
unfolding validate_params init_field_states apply_constraints apply_actions apply_action
    update_state apply_visibility evaluate_condition evaluate_comparison strict_eq get has_key
too_long_when_fast = refl

long_enough_when_pro :
    (validate_params whole (("mode", str "pro") ∷ asked) video (fast_is_short ∷ [])).valid ≡ true
unfolding validate_params init_field_states apply_constraints apply_actions apply_action
    update_state apply_visibility evaluate_condition evaluate_comparison strict_eq get has_key
long_enough_when_pro = refl

video-DistinctNames : DistinctNames video.properties
video-DistinctNames = ((refl, (refl, tt)), ((refl, tt), (tt, tt)))

defaults_fit :
    All (λ p. is_value_valid whole (default_of whole video p.0 p.1) p.1 ≡ true) video.properties
unfolding is_value_valid get
defaults_fit = (refl, (refl, (refl, tt)))

reconcile_params_stable_example :
    All
      (λ p. is_value_valid whole (get p.0 (reconcile_params whole saved video)) p.1 ≡ true)
      video.properties
    × (reconcile_params whole (reconcile_params whole saved video) video
        ≡ reconcile_params whole saved video)
reconcile_params_stable_example =
    reconcile_params_stable whole saved video video-DistinctNames defaults_fit

validate_params-passes_example :
    (validate_params whole asked video (fast_is_short ∷ [])).valid
    ≡ every (λ p. passes_at whole video asked (fast_is_short ∷ []) p.0 p.1) video.properties
validate_params-passes_example =
    validate_params-passes whole asked video (fast_is_short ∷ []) video-DistinctNames
