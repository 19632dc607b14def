-- ===== src/Canvas/Cycle/Acyclic.antt =====
-- assertNoCycle keeps the links of a canvas acyclic.
use xg_canvas.Prelude.{
  nat_beq_iff, string_eq, nat_eq, ◌==◌, Bool-cases, length, In, Uuid, ok, ◌+◌, ◌≡◌, refl, sym,
  subst, ◌↔◌, ◌⊎◌, inl, inr, Bool, true, false, Option, none, some, List, [], ◌∷◌,
}
use xg_canvas.Canvas.Cycle.{Link, add_links, search, cycle_result, assert_no_cycle}
use xg_canvas.Canvas.Cycle.Paths.{PathTo, arrived, along}
use xg_canvas.Canvas.Cycle.Answer.{search_answer}

result_ok : (r : Option Bool) → (cycle_result r ≡ ok tt) ↔ (r ≡ some false)
result_ok none = (λ h. cc, λ h. cc)
result_ok (some true) = (λ h. cc, λ h. cc)
result_ok (some false) = (λ h. refl, λ h. refl)

-- An edge is accepted exactly if no path of existing links leads from its target to its source; the
-- search always ends within its fuel.
pub assert_no_cycle_iff :
    (es : List Link) (source target : Uuid)
    → (assert_no_cycle es source target ≡ ok tt) ↔ (¬ PathTo es source target)
unfolding assert_no_cycle
assert_no_cycle_iff es source target = elim (Bool-cases (source == target)) [
  | inl q ↦ rw q (
    λ h. cc,
    λ n. absurd (n (subst (λ y. PathTo es source y) ((nat_beq_iff source target).0 q) arrived)),
  )
  | inr q ↦ rw q (
      let r = search (length es + 2) (add_links es []) source (target ∷ []) [] in
      let (a, b) = result_ok r in
      let (c, d) = search_answer es source target r refl in (λ h. c (a h), λ n. b (d n)))
]

-- No link closes a cycle.
abbrev pub IsAcyclic : List Link → Type 0
IsAcyclic es = (e : Link) → In e es → ¬ PathTo es e.source_node_id e.target_node_id

path_after : {es : List Link} {c b a : Uuid} → PathTo es b a → PathTo es c b → PathTo es c a
path_after arrived q = q
path_after (along e k p) q = along e k (path_after p q)

-- A path with the new link is an old one, or leads to its source and on from its target.
split_path :
    (es : List Link) (x : Link) (b : Uuid) {a : Uuid}
    → PathTo (x ∷ es) b a
    → PathTo es b a ⊎ (PathTo es x.source_node_id a × PathTo es b x.target_node_id)
split_path es x b arrived = inl arrived
split_path es x b (along e (inl q) p) = elim (split_path es x b p) [
  | inl r ↦ inr (
    subst (λ (y : Link). PathTo es x.source_node_id y.source_node_id) (sym q) arrived,
    subst (λ (y : Link). PathTo es b y.target_node_id) q r,
  )
  | inr r ↦
      inr (subst (λ (y : Link). PathTo es x.source_node_id y.source_node_id) (sym q) arrived, r.1)
]
split_path es x b (along e (inr k) p) = elim (split_path es x b p) [
  | inl r ↦ inl (along e k r)
  | inr r ↦ inr (along e k r.0, r.1)
]

-- An accepted edge keeps an acyclic canvas acyclic.
pub assert_no_cycle-IsAcyclic :
    (es : List Link) (x : Link)
    → IsAcyclic es
    → assert_no_cycle es x.source_node_id x.target_node_id ≡ ok tt
    → IsAcyclic (x ∷ es)
assert_no_cycle-IsAcyclic es x acyclic h e k p =
    let free = (assert_no_cycle_iff es x.source_node_id x.target_node_id).0 h in
    elim k [
      | inl q ↦
          elim (split_path es x x.source_node_id
            (subst (λ (y : Link). PathTo (x ∷ es) y.source_node_id y.target_node_id) q p)) [
              | inl r ↦ free r
              | inr r ↦ free r.1
            ]
      | inr i ↦ elim (split_path es x e.source_node_id p) [
        | inl r ↦ acyclic e i r
        | inr r ↦ free (path_after r.1 (along e i r.0))
      ]
    ]
