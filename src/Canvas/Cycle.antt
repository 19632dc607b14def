-- ===== src/Canvas/Cycle.antt =====
-- The search for a cycle (`assertNoCycle` of apps/canvas-api/src/canvas/connection-validator.ts).
-- The `while` loop runs on fuel; two more than the number of edges is enough, since each round pops
-- one entry and each edge is pushed once at most.
pub mod Paths
pub mod Fuel
pub mod Answer
pub mod Acyclic
use xg_canvas.Prelude.{
  if◌then◌else◌, string_eq, nat_eq, ◌==◌, length, any, Uuid, conflict, internal, Result, ok,
  throw_error, ◌>>=◌, ◌>>◌, ℕ, zero, suc, ◌+◌, Bool, true, false, Option, none, some, List, [], ◌∷◌,
  ◌++◌,
}

pub record Link : Type 0 where
  pub source_node_id : Uuid
  pub target_node_id : Uuid

abbrev pub Adjacency : Type 0
Adjacency = List (Uuid × List Uuid)

-- One round of the loop that fills `adj`.
unfoldable pub add_link : Link → Adjacency → Adjacency
add_link e [] = (e.source_node_id, e.target_node_id ∷ []) ∷ []
add_link e ((s, ts) ∷ adj) =
    let rest = add_link e adj in
    if s == e.source_node_id then (s, ts ++ (e.target_node_id ∷ [])) ∷ adj else (s, ts) ∷ rest

unfoldable pub add_links : List Link → Adjacency → Adjacency
add_links [] adj = adj
add_links (e ∷ es) adj = add_links es (add_link e adj)

-- `adj.get(cur) ?? []`.
unfoldable pub targets_of : Uuid → Adjacency → List Uuid
targets_of cur [] = []
targets_of cur ((s, ts) ∷ adj) = if s == cur then ts else targets_of cur adj

-- The stack has its top first.
unfoldable pub push_all : List Uuid → List Uuid → List Uuid
push_all [] stack = stack
push_all (t ∷ ts) stack = push_all ts (t ∷ stack)

abbrev pub is_seen : Uuid → List Uuid → Bool
is_seen cur seen = any (λ s. s == cur) seen

-- The `while` loop: whether `source` is reached, or `none` out of fuel.
unfoldable pub search : ℕ → Adjacency → Uuid → List Uuid → List Uuid → Option Bool
search zero adj source stack seen = none
search (suc n) adj source [] seen = some false
search (suc n) adj source (cur ∷ stack) seen = elim (cur == source) [
  | true ↦ some true
  | false ↦ elim (is_seen cur seen) [
    | true ↦ search n adj source stack seen
    | false ↦ search n adj source (push_all (targets_of cur adj) stack) (cur ∷ seen)
  ]
]

abbrev pub cycle_result : Option Bool → Result (Unit {0})
cycle_result (some false) = ok tt
cycle_result (some true) = throw_error conflict "CYCLE" "不能创建环路连线（会形成循环依赖）"
cycle_result none = throw_error internal "OUT_OF_FUEL" ""

unfoldable pub assert_no_cycle : List Link → Uuid → Uuid → Result (Unit {0})
assert_no_cycle existing source_id target_id =
    if source_id == target_id
    then throw_error conflict "CYCLE" "不能把节点连到自己"
    else cycle_result
        (search (length existing + 2) (add_links existing []) source_id (target_id ∷ []) [])
