-- ===== src/Authz/Cache.antt =====
-- The cache of permissions agrees with the database, and what an invalidation leaves of it
-- (apps/canvas-api/src/authz/authz.service.ts).
use xg_canvas.Prelude.{
  string_eq, nat_eq, ◌==◌, Bool-cases, any, All, All-of_In, All-select, any-select, Uuid, String,
  ◌≡◌, refl, sym, ◌∙◌, subst, inl, inr, true, false, not, ◌&&◌, List, [], ◌∷◌, arith,
}
use xg_canvas.Authz.Types.{CapsEntry, CapsKey, caps_key_beq, TrackedKey, AuthzState}
use xg_canvas.Authz.Resolve.{invalidate_all, computed, is_tracked, invalidate}

-- Every entry holds what `f` gives for its key, and the user's set names the key.
abbrev pub IsCached : (CapsKey → List String) → AuthzState → Type 0
IsCached f s =
    All (λ e. (e.caps ≡ f e.key) × (is_tracked s.tracked e.key.user_id e.key ≡ true)) s.caps

abbrev pub IsCoherent : AuthzState → Type 0
IsCoherent s = IsCached (computed s.role_permissions s.bindings) s

-- No entry belongs to one of the users.
abbrev pub HasNoEntry : List Uuid → AuthzState → Type 0
HasNoEntry users s = All (λ e. any (λ v. v == e.key.user_id) users ≡ false) s.caps

tracked_elsewhere :
    (user : Uuid) (k : CapsKey) (ts : List TrackedKey)
    → is_tracked ts k.user_id k ≡ true
    → is_tracked ts user k ≡ false
    → (k.user_id == user) ≡ false
tracked_elsewhere user k ts h n = elim (Bool-cases (k.user_id == user)) [
  | inl e ↦ absurd (clash ((nat_eq.beq_iff k.user_id user).0 e))
  | inr e ↦ e
]
  where
    clash : k.user_id ≡ user → ⊥
    clash e = cc (subst (λ u. is_tracked ts u k ≡ true) e h)

module _ (f : CapsKey → List String) (user : Uuid) (s : AuthzState) where
  pub invalidate-IsCached : IsCached f s → IsCached f (invalidate user s)
  unfolding invalidate
  invalidate-IsCached h =
      All-select _ _ (λ e. not (is_tracked s.tracked user e.key)) s.caps
        (λ e q p. (
          p.0,
          any-select (λ t. t.user_id == e.key.user_id && caps_key_beq t.key e.key)
              (λ t. not (t.user_id == user)) s.tracked
              (λ t m. ground (arith, tracked_elsewhere user e.key s.tracked p.1)) p.1,
        ))
        h

  pub invalidate-HasNoEntry : IsCached f s → HasNoEntry (user ∷ []) (invalidate user s)
  unfolding invalidate
  invalidate-HasNoEntry h =
      All-select _ _ (λ e. not (is_tracked s.tracked user e.key)) s.caps
        (λ e q p. ground (arith, tracked_elsewhere user e.key s.tracked p.1)) h

invalidate-keeps_HasNoEntry :
    (users : List Uuid) (user : Uuid) (s : AuthzState)
    → HasNoEntry users s
    → HasNoEntry users (invalidate user s)
unfolding invalidate
invalidate-keeps_HasNoEntry users user s h =
    All-select _ _ (λ e. not (is_tracked s.tracked user e.key)) s.caps (λ e q p. p) h

HasNoEntry-cons :
    (user : Uuid) (users : List Uuid) (s : AuthzState)
    → HasNoEntry (user ∷ []) s
    → HasNoEntry users s
    → HasNoEntry (user ∷ users) s
HasNoEntry-cons user users s = both s.caps
  where
    both :
        (es : List CapsEntry)
        → All (λ e. any (λ v. v == e.key.user_id) (user ∷ []) ≡ false) es
        → All (λ e. any (λ v. v == e.key.user_id) users ≡ false) es
        → All (λ e. any (λ v. v == e.key.user_id) (user ∷ users) ≡ false) es
    both [] h k = tt
    both (e ∷ es) h k = (ground (arith, h.0, k.0), both es h.1 k.1)

invalidate_all-HasNoEntry_kept :
    (done : List Uuid) (users : List Uuid) (s : AuthzState)
    → HasNoEntry done s
    → HasNoEntry done (invalidate_all users s)
unfolding invalidate_all
invalidate_all-HasNoEntry_kept done [] s h = h
invalidate_all-HasNoEntry_kept done (u ∷ users) s h =
    invalidate_all-HasNoEntry_kept done users (invalidate u s)
      (invalidate-keeps_HasNoEntry done u s h)

-- After an invalidation the rest of the cache is as it was, and the users have no entry.
pub invalidate_all-IsCached :
    (f : CapsKey → List String) (users : List Uuid) (s : AuthzState)
    → IsCached f s
    → IsCached f (invalidate_all users s) × HasNoEntry users (invalidate_all users s)
unfolding invalidate_all
invalidate_all-IsCached f [] s h = (h, All-of_In _ s.caps (λ e i. refl))
invalidate_all-IsCached f (u ∷ users) s h =
    let (c, n) = invalidate_all-IsCached f users (invalidate u s) (invalidate-IsCached f u s h) in
    (
      c,
      HasNoEntry-cons u users (invalidate_all users (invalidate u s))
          (invalidate_all-HasNoEntry_kept (u ∷ []) users (invalidate u s)
            (invalidate-HasNoEntry f u s h))
          n,
    )

-- A change of the database that only these users see leaves a cache without them in agreement.
pub IsCached-moved :
    (f g : CapsKey → List String) (users : List Uuid) (s : AuthzState)
    → ((k : CapsKey) → any (λ v. v == k.user_id) users ≡ false → g k ≡ f k)
    → IsCached f s × HasNoEntry users s
    → IsCached g s
IsCached-moved f g users s same h = moved s.caps h.0 h.1
  where
    moved :
        (es : List CapsEntry)
        → All (λ e. (e.caps ≡ f e.key) × (is_tracked s.tracked e.key.user_id e.key ≡ true)) es
        → All (λ e. any (λ v. v == e.key.user_id) users ≡ false) es
        → All (λ e. (e.caps ≡ g e.key) × (is_tracked s.tracked e.key.user_id e.key ≡ true)) es
    moved [] c n = tt
    moved (e ∷ es) c n = ((c.0.0 ∙ sym (same e.key n.0), c.0.1), moved es c.1 n.1)
