-- ===== src/Canvas/Cycle/Fuel.antt =====
-- The loop of the cycle search ends: every round lowers the number of entries on the stack and of
-- links whose source is not seen.
use xg_canvas.Prelude.{
  nat_beq_iff, if◌then◌else◌, string_eq, nat_eq, ◌==◌, Bool-cases, is_some, length, Uuid, ℕ, zero,
  suc, ◌+◌, ◌<◌, ◌≡◌, refl, ap, inl, inr, true, false, List, [], ◌∷◌, arith,
}
use xg_canvas.Canvas.Cycle.{Link, add_links, push_all, is_seen, search}
use xg_canvas.Canvas.Cycle.Paths.{search_hit, search_again, search_next, successors, targets_of-all}

-- The links that the search has not followed.
unfoldable pub unfollowed : List Uuid → List Link → ℕ
unfollowed seen [] = 0
unfollowed seen (e ∷ es) =
    let rest = unfollowed seen es in if is_seen e.source_node_id seen then rest else suc rest

unfollowed_nil : (es : List Link) → unfollowed [] es ≡ length es
unfolding unfollowed
unfollowed_nil [] = refl
unfollowed_nil (e ∷ es) = ap (λ n. suc n) (unfollowed_nil es)

is_seen-same : (a b : Uuid) (seen : List Uuid) → (a == b) ≡ true → is_seen a seen ≡ is_seen b seen
is_seen-same a b seen h = ap (λ x. is_seen x seen) ((nat_beq_iff a b).0 h)

unfollowed_step :
    (cur : Uuid) (seen : List Uuid) (es : List Link)
    → is_seen cur seen ≡ false
    → unfollowed (cur ∷ seen) es + length (successors cur es) ≡ unfollowed seen es
unfolding unfollowed successors
unfollowed_step cur seen [] h = omega arith
unfollowed_step cur seen (e ∷ es) h =
    ground (arith, h, unfollowed_step cur seen es h, is_seen-same e.source_node_id cur seen)

length-push_all : (ts stack : List Uuid) → length (push_all ts stack) ≡ length ts + length stack
unfolding push_all
length-push_all [] stack = omega arith
length-push_all (t ∷ ts) stack = ground (arith, length-push_all ts (t ∷ stack))

module _ (es : List Link) (source : Uuid) where
  search-some :
      (n : ℕ) (stack seen : List Uuid)
      → length stack + unfollowed seen es < n
      → is_some (search n (add_links es []) source stack seen) ≡ true
  unfolding search
  search-some zero stack seen h = absurd (omega arith)
  search-some (suc n) [] seen h = refl
  search-some (suc n) (cur ∷ stack) seen h = elim (Bool-cases (cur == source)) [
    | inl q ↦ rw (search_hit n (add_links es []) source cur stack seen q) refl
    | inr q ↦ elim (Bool-cases (is_seen cur seen)) [
      | inl s ↦
          rw (search_again n (add_links es []) source cur stack seen q s)
            (search-some n stack seen (omega arith))
      | inr s ↦
          rw (search_next n (add_links es []) source cur stack seen q s, targets_of-all cur es)
            (search-some n (push_all (successors cur es) stack) (cur ∷ seen) (
              omega
                (arith, unfollowed_step cur seen es s, length-push_all (successors cur es) stack)))
    ]
  ]

  pub search-enough :
      (target : Uuid)
      → is_some (search (length es + 2) (add_links es []) source (target ∷ []) []) ≡ true
  search-enough target =
      search-some (length es + 2) (target ∷ []) [] (omega (arith, unfollowed_nil es))
