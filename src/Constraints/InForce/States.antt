-- ===== src/Constraints/InForce/States.antt =====
-- The state of a field under the actions of the constraints
-- (packages/constraint-engine/src/engine.ts).
use xg_canvas.Prelude.{
  if◌then◌else◌, string_eq, nat_eq, ◌==◌, Bool-cases, String, ◌≡◌, refl, sym, ap, ◌∙◌, subst, inl,
  inr, true, false, Option, none, some, List, [], ◌∷◌, ◌++◌, eq_iff,
}
use xg_canvas.Constraints.Values.{Value, Js}
use xg_canvas.Constraints.Schema.{
  ParamDefinition, ModelParamSchema, ConstraintAction, restrict_options, set_value, set_range,
  disable, show, hide, set_required, ParamConstraint, FieldState, FieldStates,
}
use xg_canvas.Constraints.Condition.{evaluate_condition}
use xg_canvas.Constraints.Engine.{
  update_state, find_definition, narrowed, apply_action, apply_actions, apply_constraints,
}
use xg_canvas.Constraints.Validate.{find_state}
use xg_canvas.Constraints.InForce.{active_actions, act, act_all}

module _ {Num : Type 0} (js : Js Num) where
  abbrev pub map_state :
      (FieldState Num → FieldState Num) → Option (FieldState Num) → Option (FieldState Num)
  map_state f none = none
  map_state f (some st) = some (f st)

  pub map_same : (o : Option (FieldState Num)) → map_state (λ st. st) o ≡ o
  map_same none = refl
  map_same (some st) = refl

  other_target :
      (k field target : String)
      → (k == field) ≡ false
      → (k == target) ≡ true
      → (field == target) ≡ false
  other_target k field target q r = elim (Bool-cases (field == target)) [
    | inl e ↦ cc (q, (eq_iff k field).1 ((eq_iff k target).0 r ∙ sym ((eq_iff field target).0 e)))
    | inr e ↦ e
  ]

  pub find_state-update :
      (field target : String) (f : FieldState Num → FieldState Num) (states : FieldStates Num)
      → find_state js field (update_state js target f states)
        ≡ map_state (λ st. if field == target then f st else st) (find_state js field states)
  unfolding update_state
  find_state-update field target f [] = refl
  find_state-update field target f ((k, st) ∷ rest) = elim (Bool-cases (k == field)) [
    | inl q ↦ elim (Bool-cases (k == target)) [
      | inl r ↦ rw (q, r) (rw (q, subst (λ g. (g == target) ≡ true) ((eq_iff k field).0 q) r) refl)
      | inr r ↦ rw (q, r) (rw (q, subst (λ g. (g == target) ≡ false) ((eq_iff k field).0 q) r) refl)
    ]
    | inr q ↦ elim (Bool-cases (k == target)) [
      | inl r ↦
          rw (q, r)
            (rw (q, other_target k field target q r) (sym (map_same (find_state js field rest))))
      | inr r ↦ rw (q, r) (rw q (find_state-update field target f rest))
    ]
  ]

  module _ (schema : ModelParamSchema Num) (field : String) where
    unfoldable pub definition : Option (ParamDefinition Num)
    definition = find_definition js field schema.properties

    pub same_definition :
        (target : String)
        → (field == target) ≡ true
        → find_definition js target schema.properties ≡ definition
    unfolding definition
    same_definition target q =
        ap (λ t. find_definition js t schema.properties) (sym ((eq_iff field target).0 q))

    map_state-eq :
        (f g : FieldState Num → FieldState Num) (o : Option (FieldState Num))
        → ((st : FieldState Num) → f st ≡ g st)
        → map_state f o ≡ map_state g o
    map_state-eq f g none h = refl
    map_state-eq f g (some st) h = ap some (h st)

    narrowed_here :
        (target : String) (allowed : List (Value Num)) (st : FieldState Num)
        → (if field == target
            then narrowed js allowed (find_definition js target schema.properties) st
            else st)
          ≡ act js definition field (restrict_options target allowed) st
    narrowed_here target allowed st = elim (Bool-cases (field == target)) [
      | inl q ↦ rw (q, same_definition target q) refl
      | inr q ↦ rw q refl
    ]

    find_state-apply_action :
        (a : ConstraintAction Num) (states : FieldStates Num)
        → find_state js field (apply_action js schema a states)
          ≡ map_state (act js definition field a) (find_state js field states)
    unfolding apply_action
    find_state-apply_action (restrict_options target allowed) states =
        find_state-update field target _ states
        ∙ map_state-eq _ _ (find_state js field states) (narrowed_here target allowed)
    find_state-apply_action (set_value target v) states =
        sym (map_same (find_state js field states))
    find_state-apply_action (set_range target lo hi) states =
        find_state-update field target _ states
    find_state-apply_action (disable target reason) states = find_state-update field target _ states
    find_state-apply_action (show target) states = find_state-update field target _ states
    find_state-apply_action (hide target) states = find_state-update field target _ states
    find_state-apply_action (set_required target b) states = find_state-update field target _ states

    map_state-twice :
        (f g : FieldState Num → FieldState Num) (o : Option (FieldState Num))
        → map_state f (map_state g o) ≡ map_state (λ st. f (g st)) o
    map_state-twice f g none = refl
    map_state-twice f g (some st) = refl

    find_state-apply_actions :
        (actions : List (ConstraintAction Num)) (states : FieldStates Num)
        → find_state js field (apply_actions js schema actions states)
          ≡ map_state (act_all js definition field actions) (find_state js field states)
    unfolding apply_actions
    find_state-apply_actions [] states = sym (map_same (find_state js field states))
    find_state-apply_actions (a ∷ rest) states =
        find_state-apply_actions rest (apply_action js schema a states)
        ∙ ap (map_state (act_all js definition field rest)) (find_state-apply_action a states)
        ∙ map_state-twice (act_all js definition field rest) (act js definition field a)
            (find_state js field states)

    act_all-append :
        (xs ys : List (ConstraintAction Num)) (st : FieldState Num)
        → act_all js definition field ys (act_all js definition field xs st)
          ≡ act_all js definition field (xs ++ ys) st
    act_all-append [] ys st = refl
    act_all-append (x ∷ xs) ys st = act_all-append xs ys (act js definition field x st)

    pub find_state-apply_constraints :
        (values : List (String × Value Num)) (cs : List (ParamConstraint Num))
        (states : FieldStates Num)
        → find_state js field (apply_constraints js schema values cs states)
          ≡ map_state
              (act_all js definition field (active_actions js values cs))
              (find_state js field states)
    unfolding apply_constraints
    find_state-apply_constraints values [] states = sym (map_same (find_state js field states))
    find_state-apply_constraints values (c ∷ cs) states =
        elim (Bool-cases (evaluate_condition js c.condition values)) [
          | inl e ↦ rw e (
              find_state-apply_constraints values cs (apply_actions js schema c.actions states)
              ∙ ap (map_state (act_all js definition field (active_actions js values cs)))
                  (find_state-apply_actions c.actions states)
              ∙ map_state-twice _ _ (find_state js field states)
              ∙ map_state-eq _ _ (find_state js field states)
                  (act_all-append c.actions (active_actions js values cs)))
          | inr e ↦ rw e (find_state-apply_constraints values cs states)
        ]
