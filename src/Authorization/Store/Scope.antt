-- ===== src/Authorization/Store/Scope.antt =====
-- Which grants `ListActive` can return for a resource.
use be_mycourse.Shared.{
  ◌≡◌, refl, Bool, true, false, ◌&&◌, ◌||◌, List, [], ◌∷◌, map, is_empty, keep, text_eq, arith,
  Bool-cases, inl, inr, ok, err, Result,
}
use be_mycourse.Shared.Every.{All, All-append}
use be_mycourse.Shared.Perms.{All-sort_by, All-keep}
use be_mycourse.Shared.Int.{ℤ}
use be_mycourse.Authorization.Domain.{
  Effect, Error, Grant, GrantQuery, RoleActionDefinition, active_at, wildcard_resource_id,
}
use be_mycourse.Authorization.Store.{
  Store, RoleBindingRow, in_filter, is_filter, matches_query, is_current, matches_binding, covers,
  role_grant, expand, role_expanded_grants, direct_grants, merge_grants, list_active,
}

abbrev is_allowing : Effect → Bool
is_allowing Effect.allow = true
is_allowing Effect.deny = false
is_allowing (Effect.other t) = false

-- An ALLOW with no conditions.
abbrev is_role_allow : Grant → Bool
is_role_allow g = is_allowing g.effect && is_empty g.conditions

-- The grant is active, of the asked type and principals, and for the asked resource or, if a
-- wildcard role binding gave it, an unconditional ALLOW for every resource of that type.
pub record IsInScope (q : GrantQuery) (now : ℤ) (g : Grant) : Type 0 where
  pub active : active_at g now ≡ true
  pub typed : is_filter q.resource.kind g.resource_type ≡ true
  pub principal : in_filter q.principal_user_ids g.principal_user_id ≡ true
  pub action : in_filter q.action_names g.action_name ≡ true
  pub resource :
      (is_filter q.resource.id g.resource_id
        || (text_eq g.resource_id wildcard_resource_id && is_role_allow g))
      ≡ true

direct_grants-IsInScope :
    (st : Store) (q : GrantQuery) (now : ℤ) → All (IsInScope q now) (direct_grants st q now)
unfolding direct_grants
direct_grants-IsInScope st q now =
    All-keep (IsInScope q now) (λ g. is_current g now && matches_query q g) in_scope st.grants
  where
    in_scope : (g : Grant) → (is_current g now && matches_query q g) ≡ true → IsInScope q now g
    in_scope g h = record {
      active = unfold active_at is_current in ground arith;
      typed = unfold matches_query in ground arith;
      principal = unfold matches_query in ground arith;
      action = unfold matches_query in ground arith;
      resource = unfold matches_query in ground arith;
    }

role_grant-IsInScope :
    (q : GrantQuery) (now : ℤ) (b : RoleBindingRow) (a : RoleActionDefinition)
    → matches_binding q b ≡ true
    → covers q b a ≡ true
    → IsInScope q now (role_grant b a)
unfolding matches_binding covers role_grant active_at
role_grant-IsInScope q now b a h k = record {
  active = refl;
  typed = ground arith;
  principal = ground arith;
  action = ground arith;
  resource = ground arith;
}

role_grants-IsInScope :
    (q : GrantQuery) (now : ℤ) (b : RoleBindingRow) (as' : List RoleActionDefinition)
    → matches_binding q b ≡ true
    → All (IsInScope q now) (map (role_grant b) (keep (covers q b) as'))
unfolding keep
role_grants-IsInScope q now b [] h = tt
role_grants-IsInScope q now b (a ∷ as') h = elim (Bool-cases (covers q b a)) [
  | inl c ↦ rw (c, keep) (role_grant-IsInScope q now b a h c, role_grants-IsInScope q now b as' h)
  | inr c ↦ rw (c, keep) (role_grants-IsInScope q now b as' h)
]

expand-IsInScope :
    (q : GrantQuery) (now : ℤ) (as' : List RoleActionDefinition) (bs : List RoleBindingRow)
    → All (IsInScope q now) (expand q as' bs)
unfolding expand
expand-IsInScope q now as' [] = tt
expand-IsInScope q now as' (b ∷ bs) = elim (Bool-cases (matches_binding q b)) [
  | inl m ↦
      rw (m, expand)
        (All-append (IsInScope q now) (map (role_grant b) (keep (covers q b) as')) (expand q as' bs)
          (role_grants-IsInScope q now b as' m) (expand-IsInScope q now as' bs))
  | inr m ↦ rw (m, expand) (expand-IsInScope q now as' bs)
]

abbrev pub AllListed : (Grant → Type 0) → Result Error (List Grant) → Type 0
AllListed P (ok gs) = All P gs
AllListed P (err e) = Unit {0}

-- Every grant that `ListActive` returns is active, of the asked type, principals and actions, and
-- for the asked resource, or else an unconditional ALLOW of a wildcard binding of that type.
pub list_active-IsInScope :
    (st : Store) (q : GrantQuery) (now : ℤ) → AllListed (IsInScope q now) (list_active st q now)
unfolding list_active merge_grants role_expanded_grants
list_active-IsInScope st q now =
    let P = IsInScope q now in
    All-sort_by P _ _ (
      All-sort_by P _ _ (
        All-sort_by P _ _ (
          All-sort_by P _ _ (
            All-append P (direct_grants st q now) (expand q st.role_actions st.role_bindings)
              (direct_grants-IsInScope st q now)
              (expand-IsInScope q now st.role_actions st.role_bindings)))))
