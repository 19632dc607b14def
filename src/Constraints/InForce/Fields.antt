-- ===== src/Constraints/InForce/Fields.antt =====
-- The state that evaluateConstraints gives a field is what is in force for it
-- (packages/constraint-engine/src/engine.ts).
use xg_canvas.Constraints.InForce.States.{
  map_state, map_same, find_state-update, definition, find_state-apply_constraints,
}
use xg_canvas.Constraints.Reconcile.{DistinctNames}
use xg_canvas.Prelude.{
  if◌then◌else◌, string_eq, nat_eq, ◌==◌, Bool-cases, All, In, All-In, String, ◌≡◌, refl, sym, ap,
  ◌∙◌, subst, inl, inr, Bool, false, some, List, [], ◌∷◌, eq_iff, arith,
}
use xg_canvas.Constraints.Values.{Value, Js}
use xg_canvas.Constraints.Schema.{
  ParamDefinition, ModelParamSchema, ParamConstraint, FieldState, FieldStates,
}
use xg_canvas.Constraints.Engine.{
  init_field_states, initial_state, evaluate_constraints, init_states, holds_visible,
  apply_visibility, update_state, find_definition,
}
use xg_canvas.Constraints.Validate.{find_state}
use xg_canvas.Constraints.InForce.{
  act_all-Agrees, force_of, force_of_state, Agrees, active_actions, act_all,
}

module _ {Num : Type 0} (js : Js Num) where
  unequal : (k field : String) → (k == field) ≡ false → (field == k) ≡ false
  unequal k field n = elim (Bool-cases (field == k)) [
    | inl e ↦ cc (n, (eq_iff k field).1 (sym ((eq_iff field k).0 e)))
    | inr e ↦ e
  ]

  pub unlike :
      (field : String) (def : ParamDefinition Num) (p : String × ParamDefinition Num)
      (ps : List (String × ParamDefinition Num))
      → All (λ q. (q.0 == p.0) ≡ false) ps
      → In (field, def) ps
      → (p.0 == field) ≡ false
  unlike field def p ps h i = elim (Bool-cases (p.0 == field)) [
    | inl e ↦ cc (
      All-In (λ q. (q.0 == p.0) ≡ false) (field, def) ps h i,
      (eq_iff field p.0).1 (sym ((eq_iff p.0 field).0 e)),
    )
    | inr e ↦ e
  ]

  find_state-init :
      (schema : ModelParamSchema Num) (field : String) (def : ParamDefinition Num)
      (ps : List (String × ParamDefinition Num))
      → DistinctNames ps
      → In (field, def) ps
      → (find_state js field (init_states js schema ps) ≡ some (initial_state js schema field def))
        × (find_definition js field ps ≡ some def)
  unfolding init_states
  find_state-init schema field def [] d i = elim i [ ]
  find_state-init schema field def (p ∷ ps) d (inl e) =
      let self = (eq_iff field field).1 refl in
      subst
        (λ (q : String × ParamDefinition Num).
          (find_state js field (init_states js schema (q ∷ ps))
            ≡ some (initial_state js schema field def))
          × (find_definition js field (q ∷ ps) ≡ some def))
        e (rw self refl, rw self refl)
  find_state-init schema field def (p ∷ ps) d (inr i) =
      let other = unlike field def p ps d.0 i in
      let (a, b) = find_state-init schema field def ps d.1 i in (rw other a, rw other b)

  -- The pass over `visible_when` hides the field where its condition fails.
  abbrev pub hidden_unless : Bool → FieldState Num → FieldState Num
  hidden_unless shown st = if shown then st else record st { visible = false }

  -- One round of the pass.
  abbrev unless_visible :
      List (String × Value Num) → String → ParamDefinition Num → FieldStates Num → FieldStates Num
  unless_visible values k def states =
      if holds_visible js def.visible_when values
      then states
      else update_state js k (λ st. record st { visible = false }) states

  unless_here :
      (values : List (String × Value Num)) (field k : String) (def : ParamDefinition Num)
      (states : FieldStates Num)
      → (k == field) ≡ false
      → find_state js field (unless_visible values k def states) ≡ find_state js field states
  unless_here values field k def states n =
      elim (Bool-cases (holds_visible js def.visible_when values)) [
        | inl e ↦ rw e refl
        | inr e ↦ rw e (
            find_state-update js field k (λ st. record st { visible = false }) states
            ∙ rw (unequal k field n) (map_same js (find_state js field states)))
      ]

  unless_itself :
      (values : List (String × Value Num)) (field : String) (def : ParamDefinition Num)
      (states : FieldStates Num)
      → find_state js field (unless_visible values field def states)
        ≡ map_state js
            (hidden_unless (holds_visible js def.visible_when values))
            (find_state js field states)
  unless_itself values field def states =
      elim (Bool-cases (holds_visible js def.visible_when values)) [
        | inl e ↦ rw e (sym (map_same js (find_state js field states)))
        | inr e ↦ rw e (
            find_state-update js field field (λ st. record st { visible = false }) states
            ∙ rw ((eq_iff field field).1 refl) refl)
      ]

  visibility_elsewhere :
      (values : List (String × Value Num)) (field : String)
      (ps : List (String × ParamDefinition Num)) (states : FieldStates Num)
      → All (λ q. (q.0 == field) ≡ false) ps
      → find_state js field (apply_visibility js values ps states) ≡ find_state js field states
  unfolding apply_visibility
  visibility_elsewhere values field [] states h = refl
  visibility_elsewhere values field ((k, def) ∷ ps) states h =
      visibility_elsewhere values field ps _ h.1 ∙ unless_here values field k def states h.0

  find_state-apply_visibility :
      (values : List (String × Value Num)) (field : String) (def : ParamDefinition Num)
      (ps : List (String × ParamDefinition Num)) (states : FieldStates Num)
      → DistinctNames ps
      → In (field, def) ps
      → find_state js field (apply_visibility js values ps states)
        ≡ map_state js
            (hidden_unless (holds_visible js def.visible_when values))
            (find_state js field states)
  unfolding apply_visibility
  find_state-apply_visibility values field def [] states d i = elim i [ ]
  find_state-apply_visibility values field def (p ∷ ps) states d (inl e) =
      subst
        (λ (q : String × ParamDefinition Num).
          find_state js field (apply_visibility js values (q ∷ ps) states)
          ≡ map_state js (hidden_unless (holds_visible js def.visible_when values))
              (find_state js field states))
        e
        (visibility_elsewhere values field ps (unless_visible values field def states) (
            subst (λ (q : String × ParamDefinition Num). All (λ r. (r.0 == q.0) ≡ false) ps) (sym e)
              d.0)
          ∙ unless_itself values field def states)
  find_state-apply_visibility values field def (p ∷ ps) states d (inr i) =
      find_state-apply_visibility values field def ps (unless_visible values p.0 p.1 states) d.1 i
      ∙ ap (map_state js (hidden_unless (holds_visible js def.visible_when values)))
          (unless_here values field p.0 p.1 states (unlike field def p ps d.0 i))

  -- The state of a field after evaluateConstraints, up to the pass over `visible_when`.
  find_state-evaluate :
      (schema : ModelParamSchema Num) (values : List (String × Value Num))
      (cs : List (ParamConstraint Num)) (field : String) (def : ParamDefinition Num)
      → DistinctNames schema.properties
      → In (field, def) schema.properties
      → find_state js field (evaluate_constraints js values schema cs)
        ≡ some (
            hidden_unless (holds_visible js def.visible_when values) (
              act_all js
                (some def)
                field
                (active_actions js values cs)
                (initial_state js schema field def)))
  unfolding evaluate_constraints init_field_states definition
  find_state-evaluate schema values cs field def d i =
      let (start, known) = find_state-init schema field def schema.properties d i in
      find_state-apply_visibility values field def schema.properties _ d i
      ∙ ap (map_state js (hidden_unless (holds_visible js def.visible_when values))) (
          rw (start, known) at
            (find_state-apply_constraints js schema field values cs
              (init_states js schema schema.properties)))

  force-Agrees :
      (schema : ModelParamSchema Num) (values : List (String × Value Num))
      (cs : List (ParamConstraint Num)) (field : String) (def : ParamDefinition Num)
      (u : FieldState Num)
      → Agrees js def field (active_actions js values cs) (initial_state js schema field def) u
      → force_of_state js def (hidden_unless (holds_visible js def.visible_when values) u)
        ≡ force_of js schema values cs field def
  unfolding initial_state
  force-Agrees schema values cs field def u h =
      ground (arith, h.visible, h.required, h.lowest, h.highest, h.options)

  -- A property has a state, and what the validation reads of it is what is in force.
  pub state_in_force :
      (schema : ModelParamSchema Num) (values : List (String × Value Num))
      (cs : List (ParamConstraint Num)) (field : String) (def : ParamDefinition Num)
      → DistinctNames schema.properties
      → In (field, def) schema.properties
      → (st : FieldState Num) × (find_state js field (evaluate_constraints js values schema cs)
          ≡ some st)
        × (force_of_state js def st ≡ force_of js schema values cs field def)
  state_in_force schema values cs field def d i =
      let u =
        act_all js (some def) field (active_actions js values cs)
          (initial_state js schema field def) in
      (
        hidden_unless (holds_visible js def.visible_when values) u,
        find_state-evaluate schema values cs field def d i,
        force-Agrees schema values cs field def u (
            act_all-Agrees js def field (active_actions js values cs)
              (initial_state js schema field def)),
      )
