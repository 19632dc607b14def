-- ===== src/Constraints/Validate/Given.antt =====
-- The value that a parameter is checked at (`resolveParams` of packages/constraint-engine/src/validate.ts).
use xg_canvas.Constraints.InForce.Fields.{unlike}
use xg_canvas.Constraints.Reconcile.{DistinctNames}
use xg_canvas.Constraints.Values.{
  Value, undefined, null, bool, num, str, arr, obj, Js, is_nullish, is_undefined, get, has_key,
}
use xg_canvas.Prelude.{
  select, map, if◌then◌else◌, string_eq, nat_eq, ◌==◌, Bool-cases, All, In, String, ◌≡◌, refl, sym,
  ◌∙◌, subst, inl, inr, true, false, not, List, [], ◌∷◌, eq_iff, arith,
}
use xg_canvas.Constraints.Schema.{ModelParamSchema, ParamDefinition}
use xg_canvas.Constraints.Validate.{add_resolved, resolved_value, resolve_params}

module _ {Num : Type 0} (js : Js Num) where
  -- The given value, or the default of the property, or the one of the schema.
  abbrev pub given_or_default :
      ModelParamSchema Num → List (String × Value Num) → String → ParamDefinition Num → Value Num
  given_or_default schema params field def =
      if not (is_nullish (get field params))
      then get field params
      else if is_undefined def.default
      then get field schema.defaults
      else def.default

  -- All of them, without those that are undefined.
  abbrev pub given_values :
      ModelParamSchema Num
      → List (String × Value Num)
      → List (String × ParamDefinition Num)
      → List (String × Value Num)
  given_values schema params ps =
      select (λ p. not (is_undefined p.1))
        (map (λ p. (p.0, given_or_default schema params p.0 p.1)) ps)

  added_other :
      (k field : String) (v : Value Num) (rest : List (String × Value Num))
      → (k == field) ≡ false
      → get field (add_resolved js k v rest) ≡ get field rest
  unfolding get
  added_other k field v rest n = elim (Bool-cases (is_undefined v)) [
    | inl u ↦ rw u refl
    | inr u ↦ rw (u, n) refl
  ]

  undefined_of : (v : Value Num) → is_undefined v ≡ true → undefined ≡ v
  undefined_of undefined h = refl
  undefined_of null h = cc
  undefined_of (bool b) h = cc
  undefined_of (num n) h = cc
  undefined_of (str s) h = cc
  undefined_of (arr vs) h = cc
  undefined_of obj h = cc

  added_self :
      (k : String) (v : Value Num) (rest : List (String × Value Num))
      → get k rest ≡ undefined
      → get k (add_resolved js k v rest) ≡ v
  unfolding get
  added_self k v rest h = elim (Bool-cases (is_undefined v)) [
    | inl u ↦ rw u (h ∙ undefined_of v u)
    | inr u ↦ rw (u, (eq_iff k k).1 refl) refl
  ]

  absent-undefined :
      (k : String) (vs : List (String × Value Num)) → has_key k vs ≡ false → get k vs ≡ undefined
  unfolding get has_key
  absent-undefined k [] h = refl
  absent-undefined k ((j, v) ∷ rest) h = ground (arith, absent-undefined k rest)

  given-resolved :
      (schema : ModelParamSchema Num) (params : List (String × Value Num)) (field : String)
      (def : ParamDefinition Num)
      → resolved_value js schema params field def ≡ given_or_default schema params field def
  given-resolved schema params field def = elim (Bool-cases (has_key field params)) [
    | inl e ↦ rw e (ground arith)
    | inr e ↦ rw (e, absent-undefined field params e) (ground arith)
  ]

  pub resolve_params-given_values :
      (schema : ModelParamSchema Num) (params : List (String × Value Num))
      (ps : List (String × ParamDefinition Num))
      → resolve_params js schema params ps ≡ given_values schema params ps
  unfolding resolve_params
  resolve_params-given_values schema params [] = refl
  resolve_params-given_values schema params ((k, def) ∷ ps) =
      rw (given-resolved schema params k def, resolve_params-given_values schema params ps)
        (ground arith)

  resolved-absent :
      (schema : ModelParamSchema Num) (params : List (String × Value Num)) (field : String)
      (ps : List (String × ParamDefinition Num))
      → All (λ q. (q.0 == field) ≡ false) ps
      → get field (resolve_params js schema params ps) ≡ undefined
  unfolding resolve_params get
  resolved-absent schema params field [] h = refl
  resolved-absent schema params field ((k, def) ∷ ps) h =
      added_other k field (resolved_value js schema params k def)
        (resolve_params js schema params ps) h.0
      ∙ resolved-absent schema params field ps h.1

  pub resolved-given :
      (schema : ModelParamSchema Num) (params : List (String × Value Num)) (field : String)
      (def : ParamDefinition Num) (ps : List (String × ParamDefinition Num))
      → DistinctNames ps
      → In (field, def) ps
      → get field (resolve_params js schema params ps) ≡ given_or_default schema params field def
  unfolding resolve_params
  resolved-given schema params field def [] d i = elim i [ ]
  resolved-given schema params field def (p ∷ ps) d (inl e) =
      subst
        (λ (q : String × ParamDefinition Num).
          get field (resolve_params js schema params (q ∷ ps))
          ≡ given_or_default schema params field def)
        e
        (added_self field (resolved_value js schema params field def)
            (resolve_params js schema params ps)
            (resolved-absent schema params field ps (
              subst (λ (q : String × ParamDefinition Num). All (λ r. (r.0 == q.0) ≡ false) ps)
                (sym e) d.0))
          ∙ given-resolved schema params field def)
  resolved-given schema params field def (p ∷ ps) d (inr i) =
      added_other p.0 field (resolved_value js schema params p.0 p.1)
        (resolve_params js schema params ps) (unlike js field def p ps d.0 i)
      ∙ resolved-given schema params field def ps d.1 i
