-- ===== src/Constraints/Reconcile.antt =====
-- What reconcileParams gives (packages/constraint-engine/src/engine.ts).
use xg_canvas.Prelude.{
  if◌then◌else◌, string_eq, nat_eq, ◌==◌, Bool-cases, All, In, All-In, All-of_In, String, ◌≡◌, refl,
  sym, ap, ◌∙◌, subst, inl, inr, Bool, true, false, not, ◌&&◌, ◌||◌, List, [], ◌∷◌, eq_iff, arith,
}
use xg_canvas.Constraints.Values.{
  Value, undefined, null, bool, num, str, arr, obj, Js, is_undefined, get, has_key,
}
use xg_canvas.Constraints.Schema.{ParamDefinition, ModelParamSchema}
use xg_canvas.Constraints.Engine.{
  reconcile_params, is_value_valid, default_of, reconciled, reconcile_all,
}

-- The properties of an object have different names.
abbrev pub DistinctNames : {Num : Type 0} → List (String × ParamDefinition Num) → Type 0
DistinctNames [] = Unit
DistinctNames (p ∷ ps) = All (λ q. (q.0 == p.0) ≡ false) ps × DistinctNames ps

module _ {Num : Type 0} (js : Js Num) (schema : ModelParamSchema Num) where
  -- What the result holds at a property.
  abbrev pub kept_or_default : List (String × Value Num) → String → ParamDefinition Num → Value Num
  kept_or_default saved key def =
      if has_key key saved
      then (if is_value_valid js (get key saved) def
          then get key saved
          else default_of js schema key def)
      else default_of js schema key def

  undefined_of : (v : Value Num) → is_undefined v ≡ true → v ≡ undefined
  undefined_of undefined h = refl
  undefined_of null h = cc
  undefined_of (bool b) h = cc
  undefined_of (num n) h = cc
  undefined_of (str s) h = cc
  undefined_of (arr vs) h = cc
  undefined_of obj h = cc

  -- Whether the result has an entry for a property.
  abbrev pub gets_entry : List (String × Value Num) → String → ParamDefinition Num → Bool
  gets_entry saved key def = has_key key saved || not (is_undefined (default_of js schema key def))

  reconciled_entry :
      (saved : List (String × Value Num)) (key k : String) (def : ParamDefinition Num)
      (rest : List (String × Value Num))
      → (get key (reconciled js schema saved k def rest) ≡ (
          if k == key && gets_entry saved k def then kept_or_default saved k def else get key rest))
        × (has_key key (reconciled js schema saved k def rest)
            ≡ (k == key && gets_entry saved k def) || has_key key rest)
  unfolding get has_key
  reconciled_entry saved key k def rest = elim (Bool-cases (k == key)) [
    | inl q ↦ elim (Bool-cases (has_key k saved)) [
      | inl e ↦ (rw (e, q) refl, rw (e, q) refl)
      | inr e ↦ elim (Bool-cases (is_undefined (default_of js schema k def))) [
        | inl u ↦ (rw (e, u, q) refl, rw (e, u, q) refl)
        | inr u ↦ (rw (e, u, q) refl, rw (e, u, q) refl)
      ]
    ]
    | inr q ↦ elim (Bool-cases (has_key k saved)) [
      | inl e ↦ (rw (e, q) refl, rw (e, q) refl)
      | inr e ↦ elim (Bool-cases (is_undefined (default_of js schema k def))) [
        | inl u ↦ (rw (e, u, q) refl, rw (e, u, q) refl)
        | inr u ↦ (rw (e, u, q) refl, rw (e, u, q) refl)
      ]
    ]
  ]

  absent_empty :
      (key : String) → (get {Num = Num} key [] ≡ undefined) × (has_key {Num = Num} key [] ≡ false)
  unfolding get has_key
  absent_empty key = (refl, refl)

  absent :
      (saved : List (String × Value Num)) (key : String) (ps : List (String × ParamDefinition Num))
      → All (λ q. (q.0 == key) ≡ false) ps
      → (get key (reconcile_all js schema saved ps) ≡ undefined)
        × (has_key key (reconcile_all js schema saved ps) ≡ false)
  unfolding reconcile_all
  absent saved key [] h = absent_empty key
  absent saved key ((k, def) ∷ ps) h =
      let (g, m) = absent saved key ps h.1 in
      let (g', m') = reconciled_entry saved key k def (reconcile_all js schema saved ps) in
      (g' ∙ rw h.0 g, m' ∙ rw h.0 m)

  no_entry :
      (saved : List (String × Value Num)) (k : String) (def : ParamDefinition Num)
      → gets_entry saved k def ≡ false
      → kept_or_default saved k def ≡ undefined
  no_entry saved k def n =
      let lacks : has_key k saved ≡ false = ground arith in
      let none_given : is_undefined (default_of js schema k def) ≡ true = ground arith in
      rw lacks (undefined_of (default_of js schema k def) none_given)

  first_result :
      (saved : List (String × Value Num)) (k : String) (e : ParamDefinition Num)
      (ps : List (String × ParamDefinition Num))
      → DistinctNames ((k, e) ∷ ps)
      → (get k (reconcile_all js schema saved ((k, e) ∷ ps)) ≡ kept_or_default saved k e)
        × (has_key k (reconcile_all js schema saved ((k, e) ∷ ps)) ≡ gets_entry saved k e)
  unfolding reconcile_all
  first_result saved k e ps d =
      let (g, m) = absent saved k ps d.0 in
      let (g', m') = reconciled_entry saved k k e (reconcile_all js schema saved ps) in
      let itself = (eq_iff k k).1 refl in
      elim (Bool-cases (gets_entry saved k e)) [
        | inl h ↦ (g' ∙ rw (itself, h) refl, m' ∙ rw (itself, h) refl)
        | inr h ↦ (g' ∙ rw (itself, h) (g ∙ sym (no_entry saved k e h)), m' ∙ rw (itself, h) m)
      ]

  -- The result at a property of the schema.
  pub result_at :
      (saved : List (String × Value Num)) (key : String) (def : ParamDefinition Num)
      (ps : List (String × ParamDefinition Num))
      → DistinctNames ps
      → In (key, def) ps
      → (get key (reconcile_all js schema saved ps) ≡ kept_or_default saved key def)
        × (has_key key (reconcile_all js schema saved ps) ≡ gets_entry saved key def)
  unfolding reconcile_all
  result_at saved key def [] d i = elim i [ ]
  result_at saved key def ((k, e) ∷ ps) d (inr i) =
      let (g, m) = result_at saved key def ps d.1 i in
      let (g', m') = reconciled_entry saved key k e (reconcile_all js schema saved ps) in
      let other : (key == k) ≡ false = All-In (λ q. (q.0 == k) ≡ false) (key, def) ps d.0 i in
      let apart : (k == key) ≡ false = ground (arith, eq_iff key k, eq_iff k key) in
      (g' ∙ rw apart g, m' ∙ rw apart m)
  result_at saved key def ((k, e) ∷ ps) d (inl s) =
      subst
        (λ (p : String × ParamDefinition Num).
          (get p.0 (reconcile_all js schema saved ((k, e) ∷ ps)) ≡ kept_or_default saved p.0 p.1)
          × (has_key p.0 (reconcile_all js schema saved ((k, e) ∷ ps)) ≡ gets_entry saved p.0 p.1))
        (sym s) (first_result saved k e ps d)

  kept_or_default-is_value_valid :
      (saved : List (String × Value Num)) (key : String) (def : ParamDefinition Num)
      → is_value_valid js (default_of js schema key def) def ≡ true
      → is_value_valid js (kept_or_default saved key def) def ≡ true
  kept_or_default-is_value_valid saved key def h = elim (Bool-cases (has_key key saved)) [
    | inl e ↦ elim (Bool-cases (is_value_valid js (get key saved) def)) [
      | inl v ↦ rw (e, v) v
      | inr v ↦ rw (e, v) h
    ]
    | inr e ↦ rw e h
  ]

  entry_stable :
      (saved again : List (String × Value Num)) (key : String) (def : ParamDefinition Num)
      (rest : List (String × Value Num))
      → get key again ≡ kept_or_default saved key def
      → has_key key again ≡ gets_entry saved key def
      → reconciled js schema again key def rest ≡ reconciled js schema saved key def rest
  entry_stable saved again key def rest g m = elim (Bool-cases (has_key key saved)) [
    | inl e ↦
        let m' : has_key key again ≡ true = rw e at m in
        elim (Bool-cases (is_value_valid js (get key saved) def)) [
          | inl v ↦
              let g' : get key again ≡ get key saved = rw (e, v) at g in rw (m', g', e, v) refl
          | inr v ↦
              let g' : get key again ≡ default_of js schema key def = rw (e, v) at g in
              elim (Bool-cases (is_value_valid js (default_of js schema key def) def)) [
                | inl d ↦ rw (m', g', e, v, d) refl
                | inr d ↦ rw (m', g', e, v, d) refl
              ]
        ]
    | inr e ↦ elim (Bool-cases (is_undefined (default_of js schema key def))) [
      | inl u ↦ let m' : has_key key again ≡ false = rw (e, u) at m in rw (m', e, u) refl
      | inr u ↦
          let m' : has_key key again ≡ true = rw (e, u) at m in
          let g' : get key again ≡ default_of js schema key def = rw e at g in
          elim (Bool-cases (is_value_valid js (default_of js schema key def) def)) [
            | inl d ↦ rw (m', g', e, u, d) refl
            | inr d ↦ rw (m', g', e, u, d) refl
          ]
    ]
  ]

  all_stable :
      (saved : List (String × Value Num)) (ps : List (String × ParamDefinition Num))
      → DistinctNames schema.properties
      → ((p : String × ParamDefinition Num) → In p ps → In p schema.properties)
      → reconcile_all js schema (reconcile_all js schema saved schema.properties) ps
        ≡ reconcile_all js schema saved ps
  unfolding reconcile_all
  all_stable saved [] d sub = refl
  all_stable saved ((key, def) ∷ ps) d sub =
      let again = reconcile_all js schema saved schema.properties in
      let (g, m) = result_at saved key def schema.properties d (sub (key, def) (inl refl)) in
      ap (reconciled js schema again key def) (all_stable saved ps d (λ p i. sub p (inr i)))
      ∙ entry_stable saved again key def (reconcile_all js schema saved ps) g m

-- Where the names of the properties are distinct and each default fits its property, what
-- reconcileParams gives holds at every property a value that fits it, whatever was saved; and to
-- reconcile the result once more changes nothing.
pub reconcile_params_stable :
    {Num : Type 0} (js : Js Num) (saved : List (String × Value Num)) (schema : ModelParamSchema Num)
    → DistinctNames schema.properties
    → All (λ p. is_value_valid js (default_of js schema p.0 p.1) p.1 ≡ true) schema.properties
    → All
        (λ p. is_value_valid js (get p.0 (reconcile_params js saved schema)) p.1 ≡ true)
        schema.properties
      × (reconcile_params js (reconcile_params js saved schema) schema
          ≡ reconcile_params js saved schema)
unfolding reconcile_params
reconcile_params_stable js saved schema d h = (
  All-of_In _ schema.properties (λ p i.
      let (g, m) = result_at js schema saved p.0 p.1 schema.properties d i in
      rw g (
        kept_or_default-is_value_valid js schema saved p.0 p.1 (
          All-In (λ q. is_value_valid js (default_of js schema q.0 q.1) q.1 ≡ true) p
            schema.properties h i))),
  all_stable js schema saved schema.properties d (λ p i. i),
)
