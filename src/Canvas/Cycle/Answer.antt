-- ===== src/Canvas/Cycle/Answer.antt =====
-- What the cycle search answers.
use xg_canvas.Prelude.{
  nat_beq_iff, string_eq, nat_eq, ◌==◌, Bool-cases, is_some, length, In, any-In, Uuid, ℕ, zero, suc,
  ◌+◌, ◌≡◌, refl, sym, ◌∙◌, subst, ◌≢◌, ◌↔◌, ◌⊎◌, inl, inr, Bool, true, false, Option, none, some,
  List, [], ◌∷◌, arith,
}
use xg_canvas.Canvas.Cycle.{Link, add_links, push_all, is_seen, search}
use xg_canvas.Canvas.Cycle.Paths.{
  search_hit, search_again, search_next, PathTo, arrived, along, successors, targets_of-all,
  successors-In, In-successors,
}
use xg_canvas.Canvas.Cycle.Fuel.{search-enough}

In-push_all : (x : Uuid) (ts stack : List Uuid) → In x (push_all ts stack) → In x ts ⊎ In x stack
unfolding push_all
In-push_all x [] stack h = inr h
In-push_all x (t ∷ ts) stack h = elim (In-push_all x ts (t ∷ stack) h) [
  | inl i ↦ inl (inr i)
  | inr i ↦ elim i [ inl e ↦ inl (inl e) | inr j ↦ inr j ]
]

push_all-In : (x : Uuid) (ts stack : List Uuid) → In x ts ⊎ In x stack → In x (push_all ts stack)
unfolding push_all
push_all-In x [] stack (inl h) = elim h [ ]
push_all-In x [] stack (inr h) = h
push_all-In x (t ∷ ts) stack (inl (inl e)) = push_all-In x ts (t ∷ stack) (inr (inl e))
push_all-In x (t ∷ ts) stack (inl (inr i)) = push_all-In x ts (t ∷ stack) (inl i)
push_all-In x (t ∷ ts) stack (inr i) = push_all-In x ts (t ∷ stack) (inr (inr i))

is_seen-In : (cur : Uuid) (seen : List Uuid) → is_seen cur seen ≡ true → In cur seen
is_seen-In cur seen h =
    let (a, i, e) = any-In (λ s. s == cur) seen h in
    subst (λ x. In x seen) ((nat_beq_iff a cur).0 e) i

true_not_false : some true ≢ some false
true_not_false e = cc

no_answer : {r : Option Bool} → is_some r ≡ true → r ≡ none → ⊥
no_answer h e = cc (rw e at h)

module _ (es : List Link) (source : Uuid) where
  abbrev SomePath : List Uuid → Type 0
  SomePath stack = (x : Uuid) × In x stack × PathTo es source x

  expanded-path :
      (cur : Uuid) (stack : List Uuid)
      → SomePath (push_all (successors cur es) stack)
      → SomePath (cur ∷ stack)
  expanded-path cur stack (x, i, p) = elim (In-push_all x (successors cur es) stack i) [
    | inl j ↦
        let (e, k, a, b) = successors-In cur x es j in
        (
          cur,
          inl refl,
          subst (λ y. PathTo es source y) a (along e k (subst (λ y. PathTo es source y) (sym b) p)),
        )
    | inr j ↦ (x, inr j, p)
  ]

  found : (target : Uuid) → SomePath (target ∷ []) → PathTo es source target
  found target (x, inl e, p) = subst (λ y. PathTo es source y) e p
  found target (x, inr i, p) = elim i [ ]

  -- A found cycle is one.
  search-true :
      (n : ℕ) (stack seen : List Uuid)
      → search n (add_links es []) source stack seen ≡ some true
      → SomePath stack
  unfolding search
  search-true zero stack seen h = cc
  search-true (suc n) [] seen h = cc
  search-true (suc n) (cur ∷ stack) seen h = elim (Bool-cases (cur == source)) [
    | inl q ↦ (
      cur,
      inl refl,
      subst (λ y. PathTo es source y) (sym ((nat_beq_iff cur source).0 q)) arrived,
    )
    | inr q ↦ elim (Bool-cases (is_seen cur seen)) [
      | inl s ↦
          let (x, i, p) =
            search-true n stack seen
              (rw (search_again n (add_links es []) source cur stack seen q s) at h) in
          (x, inr i, p)
      | inr s ↦ expanded-path cur stack (
          search-true n (push_all (successors cur es) stack) (cur ∷ seen) (
            rw (search_next n (add_links es []) source cur stack seen q s, targets_of-all cur es) at
              h))
    ]
  ]

  -- The links from a set lead into it or onto a list.
  abbrev LeadsInto : List Uuid → List Uuid → Type 0
  LeadsInto seen stack =
      (e : Link)
      → In e es
      → In e.source_node_id seen
      → In e.target_node_id seen ⊎ In e.target_node_id stack

  -- A set that holds the stack and what is seen, from which no link leads out, without the source.
  record Closed (stack seen : List Uuid) : Type 0 where
    all : List Uuid
    of_stack : (x : Uuid) → In x stack → In x all
    of_seen : (x : Uuid) → In x seen → In x all
    leads : (e : Link) → In e es → In e.source_node_id all → In e.target_node_id all
    off : (x : Uuid) → In x all → x ≢ source

  leads_nil :
      (seen : List Uuid)
      → LeadsInto seen []
      → (e : Link) → In e es
      → In e.source_node_id seen
      → In e.target_node_id seen
  leads_nil seen inv e k i = elim (inv e k i) [ inl j ↦ j | inr j ↦ elim j [ ] ]

  leads_seen :
      (cur : Uuid) (stack seen : List Uuid)
      → In cur seen
      → LeadsInto seen (cur ∷ stack)
      → LeadsInto seen stack
  leads_seen cur stack seen s inv e k i = elim (inv e k i) [
    | inl j ↦ inl j
    | inr j ↦ elim j [ inl q ↦ inl (subst (λ y. In y seen) (sym q) s) | inr l ↦ inr l ]
  ]

  leads_expanded :
      (cur : Uuid) (stack seen : List Uuid)
      → LeadsInto seen (cur ∷ stack)
      → LeadsInto (cur ∷ seen) (push_all (successors cur es) stack)
  leads_expanded cur stack seen inv e k (inl q) = inr (
      push_all-In e.target_node_id (successors cur es) stack
        (inl (subst (λ y. In e.target_node_id (successors y es)) q (In-successors e es k))))
  leads_expanded cur stack seen inv e k (inr i) = elim (inv e k i) [
    | inl j ↦ inl (inr j)
    | inr j ↦ elim j [
      | inl q ↦ inl (inl q)
      | inr l ↦ inr (push_all-In e.target_node_id (successors cur es) stack (inr l))
    ]
  ]

  off_expanded :
      (cur : Uuid) (seen : List Uuid)
      → (cur == source) ≡ false
      → ((x : Uuid) → In x seen → x ≢ source)
      → (x : Uuid) → In x (cur ∷ seen)
      → x ≢ source
  off_expanded cur seen q off x (inl e) = ground (arith, e, q)
  off_expanded cur seen q off x (inr i) = off x i

  of_popped :
      (cur : Uuid) (stack seen : List Uuid)
      → In cur seen
      → Closed stack seen
      → Closed (cur ∷ stack) seen
  of_popped cur stack seen s c = record {
    all = c.all;
    of_stack = λ x i. elim i [
      | inl e ↦ c.of_seen x (subst (λ y. In y seen) (sym e) s)
      | inr j ↦ c.of_stack x j
    ];
    of_seen = c.of_seen;
    leads = c.leads;
    off = c.off;
  }

  of_expanded :
      (cur : Uuid) (stack seen : List Uuid)
      → Closed (push_all (successors cur es) stack) (cur ∷ seen)
      → Closed (cur ∷ stack) seen
  of_expanded cur stack seen c = record {
    all = c.all;
    of_stack = λ x i. elim i [
      | inl e ↦ c.of_seen x (inl e)
      | inr j ↦ c.of_stack x (push_all-In x (successors cur es) stack (inr j))
    ];
    of_seen = λ x i. c.of_seen x (inr i);
    leads = c.leads;
    off = c.off;
  }

  search-false :
      (n : ℕ) (stack seen : List Uuid)
      → LeadsInto seen stack
      → ((x : Uuid) → In x seen → x ≢ source)
      → search n (add_links es []) source stack seen ≡ some false
      → Closed stack seen
  unfolding search
  search-false zero stack seen inv off h = cc
  search-false (suc n) [] seen inv off h = record {
    all = seen;
    of_stack = λ x i. elim i [ ];
    of_seen = λ x i. i;
    leads = leads_nil seen inv;
    off = off;
  }
  search-false (suc n) (cur ∷ stack) seen inv off h = elim (Bool-cases (cur == source)) [
    | inl q ↦
        absurd (true_not_false (sym (search_hit n (add_links es []) source cur stack seen q) ∙ h))
    | inr q ↦ elim (Bool-cases (is_seen cur seen)) [
      | inl s ↦ of_popped cur stack seen (is_seen-In cur seen s) (
          search-false n stack seen (leads_seen cur stack seen (is_seen-In cur seen s) inv) off
            (rw (search_again n (add_links es []) source cur stack seen q s) at h))
      | inr s ↦ of_expanded cur stack seen (
          search-false n (push_all (successors cur es) stack) (cur ∷ seen)
            (leads_expanded cur stack seen inv) (off_expanded cur seen q off)
            (rw (search_next n (add_links es []) source cur stack seen q s, targets_of-all cur es)
              at h))
    ]
  ]

  -- From a closed set no path leads to the source.
  no_path :
      (stack seen : List Uuid)
      → (c : Closed stack seen) → (x : Uuid) → In x c.all
      → ¬ PathTo es source x
  no_path stack seen c x i arrived = c.off source i refl
  no_path stack seen c x i (along e k p) = no_path stack seen c e.target_node_id (c.leads e k i) p

  pub search_answer :
      (target : Uuid) (r : Option Bool)
      → search (length es + 2) (add_links es []) source (target ∷ []) [] ≡ r
      → (r ≡ some false) ↔ (¬ PathTo es source target)
  search_answer target none h = absurd (no_answer (search-enough es source target) h)
  search_answer target (some true) h = (
    λ e. cc,
    λ none_leads.
        absurd (none_leads (found target (search-true (length es + 2) (target ∷ []) [] h))),
  )
  search_answer target (some false) h = (
    λ e.
        (let c =
            search-false (length es + 2) (target ∷ []) [] (λ e k i. elim i [ ]) (λ x i. elim i [ ])
              h in
          no_path (target ∷ []) [] c target (c.of_stack target (inl refl))),
    λ none_leads. refl,
  )
