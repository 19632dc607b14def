-- ===== src/Canvas/Cycle/Paths.antt =====
-- Paths along the links of a canvas, and what the adjacency map holds.
use xg_canvas.Prelude.{
  suc, false, some, ℕ, nat_beq_iff, if◌then◌else◌, string_eq, nat_eq, ◌==◌, Bool-cases, In, Uuid,
  ◌≡◌, refl, sym, ap, ◌∙◌, subst, ◌⊎◌, inl, inr, true, false, List, [], ◌∷◌, ◌++◌, arith,
}
use xg_canvas.Canvas.Cycle.{
  search, is_seen, push_all, Link, Adjacency, add_link, add_links, targets_of,
}

-- A path of any length.
pub data PathTo (es : List Link) (b : Uuid) : Uuid → Type 0 where
  arrived : PathTo es b b
  along : (e : Link) → In e es → PathTo es b e.target_node_id → PathTo es b e.source_node_id

-- The targets of the links that leave a node.
unfoldable pub successors : Uuid → List Link → List Uuid
successors cur [] = []
successors cur (e ∷ es) =
    let rest = successors cur es in
    if e.source_node_id == cur then e.target_node_id ∷ rest else rest

append_nil : (xs : List Uuid) → xs ++ [] ≡ xs
append_nil [] = refl
append_nil (x ∷ xs) = ap (λ r. x ∷ r) (append_nil xs)

append_assoc : (xs ys zs : List Uuid) → (xs ++ ys) ++ zs ≡ xs ++ (ys ++ zs)
append_assoc [] ys zs = refl
append_assoc (x ∷ xs) ys zs = ap (λ r. x ∷ r) (append_assoc xs ys zs)

abbrev added : Uuid → Link → List Uuid
added cur e = if e.source_node_id == cur then e.target_node_id ∷ [] else []

same_test : (a b c : Uuid) → (a == b) ≡ true → (b == c) ≡ (a == c)
same_test a b c h = ground arith

other_test : (a b c : Uuid) → (a == b) ≡ false → (a == c) ≡ true → (b == c) ≡ false
other_test a b c h k = ground arith

targets_of-add_link :
    (cur : Uuid) (e : Link) (adj : Adjacency)
    → targets_of cur (add_link e adj) ≡ targets_of cur adj ++ added cur e
unfolding targets_of add_link
targets_of-add_link cur e [] = ground arith
targets_of-add_link cur e ((s, ts) ∷ adj) = elim (Bool-cases (s == e.source_node_id)) [
  | inl q ↦ elim (Bool-cases (s == cur)) [
    | inl p ↦ rw (q, same_test s e.source_node_id cur q, p) refl
    | inr p ↦ rw (q, same_test s e.source_node_id cur q, p) (sym (append_nil (targets_of cur adj)))
  ]
  | inr q ↦ elim (Bool-cases (s == cur)) [
    | inl p ↦ rw (q, p, other_test s e.source_node_id cur q p) (sym (append_nil ts))
    | inr p ↦ rw (q, p) (targets_of-add_link cur e adj)
  ]
]

added-successors :
    (cur : Uuid) (e : Link) (es : List Link)
    → added cur e ++ successors cur es ≡ successors cur (e ∷ es)
unfolding successors
added-successors cur e es = ground arith

targets_of-add_links :
    (cur : Uuid) (es : List Link) (adj : Adjacency)
    → targets_of cur (add_links es adj) ≡ targets_of cur adj ++ successors cur es
unfolding add_links successors
targets_of-add_links cur [] adj = sym (append_nil (targets_of cur adj))
targets_of-add_links cur (e ∷ es) adj =
    targets_of-add_links cur es (add_link e adj)
    ∙ ap (λ r. r ++ successors cur es) (targets_of-add_link cur e adj)
    ∙ append_assoc (targets_of cur adj) (added cur e) (successors cur es)
    ∙ ap (λ r. targets_of cur adj ++ r) (added-successors cur e es)

-- The map holds the successors.
pub targets_of-all :
    (cur : Uuid) (es : List Link) → targets_of cur (add_links es []) ≡ successors cur es
unfolding targets_of
targets_of-all cur es = targets_of-add_links cur es []

successors_hit :
    (cur t : Uuid) (e : Link) (ts : List Uuid)
    → In t (e.target_node_id ∷ ts)
    → e.source_node_id ≡ cur
    → ((e.source_node_id ≡ cur) × (t ≡ e.target_node_id)) ⊎ In t ts
successors_hit cur t e ts (inl p) q = inl (q, p)
successors_hit cur t e ts (inr i) q = inr i

successors-In_cons :
    (cur t : Uuid) (e : Link) (es : List Link)
    → In t (successors cur (e ∷ es))
    → ((e.source_node_id ≡ cur) × (t ≡ e.target_node_id)) ⊎ In t (successors cur es)
unfolding successors
successors-In_cons cur t e es h = elim (Bool-cases (e.source_node_id == cur)) [
  | inl q ↦
      successors_hit cur t e (successors cur es) (rw q at h)
        ((nat_beq_iff e.source_node_id cur).0 q)
  | inr q ↦ inr (rw q at h)
]

pub successors-In :
    (cur t : Uuid) (es : List Link)
    → In t (successors cur es)
    → (e : Link) × In e es × (e.source_node_id ≡ cur) × (e.target_node_id ≡ t)
unfolding successors
successors-In cur t [] h = elim h [ ]
successors-In cur t (e ∷ es) h = elim (successors-In_cons cur t e es h) [
  | inl p ↦ (e, inl refl, p.0, sym p.1)
  | inr i ↦ let (x, j, a, b) = successors-In cur t es i in (x, inr j, a, b)
]

In-successors_here :
    (e x : Link) (es : List Link)
    → e ≡ x
    → In e.target_node_id (successors e.source_node_id (x ∷ es))
unfolding successors
In-successors_here e x es q =
    subst (λ (y : Link). In y.target_node_id (successors y.source_node_id (x ∷ es))) (sym q)
      (rw ((nat_beq_iff x.source_node_id x.source_node_id).1 refl) (inl refl))

pub In-successors :
    (e : Link) (es : List Link) → In e es → In e.target_node_id (successors e.source_node_id es)
unfolding successors
In-successors e [] h = elim h [ ]
In-successors e (x ∷ es) (inl q) = In-successors_here e x es q
In-successors e (x ∷ es) (inr i) = ground (arith, In-successors e es i)

-- The three rounds of the loop.
module _ (n : ℕ) (adj : Adjacency) (source cur : Uuid) (stack seen : List Uuid) where
  pub search_hit : (cur == source) ≡ true → search (suc n) adj source (cur ∷ stack) seen ≡ some true
  unfolding search
  search_hit q = rw (q, search) refl

  pub search_again :
      (cur == source) ≡ false
      → is_seen cur seen ≡ true
      → search (suc n) adj source (cur ∷ stack) seen ≡ search n adj source stack seen
  unfolding search
  search_again q s = rw (q, s, search) refl

  pub search_next :
      (cur == source) ≡ false
      → is_seen cur seen ≡ false
      → search (suc n) adj source (cur ∷ stack) seen
        ≡ search n adj source (push_all (targets_of cur adj) stack) (cur ∷ seen)
  unfolding search
  search_next q s = rw (q, s, search) refl
