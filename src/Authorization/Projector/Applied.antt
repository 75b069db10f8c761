-- ===== src/Authorization/Projector/Applied.antt =====
-- The decisions that `applyEffectiveActionDecisions` makes, and the lists that it fills.
use be_mycourse.Shared.{
  ◌≡◌, refl, sym, ◌∙◌, ap, Bool, true, false, ◌&&◌, ◌||◌, Option, List, [], ◌∷◌, ◌++◌, Text,
  contains, contains-append, contains-sort, any, text_eq, text_eq→eq, if◌then◌else◌, arith, ok,
}
use be_mycourse.Shared.Map.{lookup, get, insert, get-insert}
use be_mycourse.Shared.Every.{All, All-mono, contains-All}
use be_mycourse.Shared.Int.{ℤ}
use be_mycourse.Authorization.Domain.{Effect, Resource, Grant, GrantQuery, Decision, Error, allowed}
use be_mycourse.Authorization.Conditions.{Runtime}
use be_mycourse.Authorization.Registry.{Registry}
use be_mycourse.Authorization.Authorizer.{decide_prepared, decide_listed}
use be_mycourse.Authorization.Authorizer.Verdict.{decide_prepared-perm, decide_prepared-no_error}
use be_mycourse.Authorization.Grants.{trim_resource}
use be_mycourse.Authorization.Store.{
  Store, list_active, merge_grants, direct_grants, role_expanded_grants, in_filter,
}
use be_mycourse.Authorization.Store.Scope.{IsInScope, list_active-IsInScope}
use be_mycourse.Authorization.Store.Batch.{list_active-single}
use be_mycourse.Authorization.Projector.{
  PendingAction, empty_effective_actions, decision_key, group_grants_by_decision, apply_from,
  sort_each,
}
use be_mycourse.Authorization.Projector.Grouping.{is_nul_free, get-group_grants_by_decision}
use be_mycourse.Authorization.Projector.Pending.{item_allowed}
use be_mycourse.Authorization.Projector.Queried.{IsQueried}

pub contains-get-sort_each :
    (a u : Text) (m : List (Text × List Text))
    → contains a (get (sort_each m) u) ≡ contains a (get m u)
unfolding sort_each get lookup
contains-get-sort_each a u [] = refl
contains-get-sort_each a u ((v, l) ∷ m) =
    ground (arith, contains-sort a l, contains-get-sort_each a u m)

pub contains-empty_effective_actions :
    (a u : Text) (us : List Text) → contains a (get (empty_effective_actions us) u) ≡ false
unfolding empty_effective_actions contains
contains-empty_effective_actions a u [] = unfold get lookup in refl
contains-empty_effective_actions a u (v ∷ us) =
    rw (get-insert v u [] (empty_effective_actions us))
      (ground (arith, contains-empty_effective_actions a u us))

module _ (rt : Runtime) (groups : List (Text × List Grant)) (now : ℤ) where
  abbrev pub decided : PendingAction → Bool
  decided i =
      allowed (decide_prepared rt i.prepared (get groups (decision_key i.user_id i.action)) now).0

  -- The loop never fails, and adds to a user's list the actions of their allowed items.
  pub apply_from-any :
      (a u : Text) (result result' : List (Text × List Text)) (items : List PendingAction)
      → apply_from rt groups now result items ≡ ok result'
      → contains a (get result' u) ≡ (
          contains a (get result u)
          || any (λ i. text_eq u i.user_id && (text_eq a i.action && decided i)) items)
  unfolding apply_from any contains
  apply_from-any a u result result' [] h = ground arith
  apply_from-any a u result result' (i ∷ is) h =
      let gs = get groups (decision_key i.user_id i.action) in
      let next =
        if decided i
        then insert i.user_id (get result i.user_id ++ (i.action ∷ [])) result
        else result in
      let rest : apply_from rt groups now next is ≡ ok result' =
        ground (arith, decide_prepared-no_error rt i.prepared now gs) in
      apply_from-any a u next result' is rest
      ∙ ground (
        arith,
        get-insert i.user_id u (get result i.user_id ++ (i.action ∷ [])) result,
        contains-append a (get result i.user_id) (i.action ∷ []),
        text_eq→eq u i.user_id,
      )

module _ (rt : Runtime) (st : Store) (registry : Registry) (now : ℤ) (users actions : List Text)
    (resource : Resource) (trimmed : trim_resource resource ≡ resource)
    (nul_free : All (λ u. is_nul_free u ≡ true) users) where
  abbrev pub listed : List Grant
  listed =
      let q : GrantQuery = record {
        principal_user_ids = users;
        action_names = actions;
        resource = resource;
        effects = Effect.allow ∷ Effect.deny ∷ [];
      } in
      merge_grants (direct_grants st q now) (role_expanded_grants st q)

  in_filter-contains :
      (us : List Text) (u v : Text)
      → contains u us ≡ true
      → in_filter us v ≡ true
      → contains v us ≡ true
  in_filter-contains [] u v h k = unfold contains in cc
  in_filter-contains (x ∷ us) u v h k = k

  -- No user id among the listed grants holds a NUL byte.
  listed-nul_free :
      (u : Text)
      → contains u users ≡ true
      → All (λ g. is_nul_free g.principal_user_id ≡ true) listed
  listed-nul_free u h =
      let q : GrantQuery = record {
        principal_user_ids = users;
        action_names = actions;
        resource = resource;
        effects = Effect.allow ∷ Effect.deny ∷ [];
      } in
      All-mono (IsInScope q now) (λ g. is_nul_free g.principal_user_id ≡ true)
        (λ g scope.
          contains-All (λ u. is_nul_free u ≡ true) g.principal_user_id users nul_free
            (in_filter-contains users u g.principal_user_id h scope.principal))
        listed (unfold list_active in list_active-IsInScope st q now)

  -- The decision on a pending item is the one that its own query would give.
  pub decided-item_allowed :
      (i : PendingAction)
      → IsQueried registry users actions resource trimmed i
      → decided rt (group_grants_by_decision listed) now i
        ≡ item_allowed rt registry (list_active st) now resource i
  unfolding decide_prepared decide_listed merge_grants list_active
  decided-item_allowed i q =
      let u = i.user_id in
      let a = i.action in
      ap (λ gs. allowed (decide_prepared rt i.prepared gs now).0)
        (get-group_grants_by_decision listed u a
          (contains-All (λ v. is_nul_free v ≡ true) u users nul_free q.user_in)
          (listed-nul_free u q.user_in))
      ∙ ap (λ (d : Decision × Option Error). allowed d.0)
          (decide_prepared-perm rt i.prepared now (
            list_active-single users actions resource (Effect.allow ∷ Effect.deny ∷ []) u a
              q.user_in q.action_in st now))
      ∙ ap (λ (r : GrantQuery). allowed (decide_listed rt i.prepared (list_active st r now) now).0)
          (sym q.query)
