-- ===== src/Authorization/Store/Batch.antt =====
-- One query for many principals and actions holds, for each pair, the grants of the pair's own
-- query.
use be_mycourse.Shared.{
  ◌≡◌, refl, subst, ◌∙◌, ap, ap₂, Bool, true, false, ◌&&◌, List, [], ◌∷◌, ◌++◌, map, Text, contains,
  keep, keep-append, keep-keep, keep-ext, keep-map, keep-none, text_eq, text_eq→eq, arith,
  Bool-cases, inl, inr, Perm,
}
use mathlib.Core.List.Perm
use be_mycourse.Shared.Perms.{sort_by-perm, keep-perm}
use be_mycourse.Shared.Int.{ℤ}
use be_mycourse.Authorization.Domain.{Effect, Resource, Grant, GrantQuery, RoleActionDefinition}
use be_mycourse.Authorization.Store.{
  Store, RoleBindingRow, in_filter, matches_query, is_current, matches_binding, covers, role_grant,
  expand, role_expanded_grants, direct_grants, merge_grants,
}

pub merge_grants-perm : (xs ys : List Grant) → Perm (merge_grants xs ys) (xs ++ ys)
unfolding merge_grants
merge_grants-perm xs ys =
    Perm.trans (sort_by-perm _ _)
      (Perm.trans (sort_by-perm _ _) (Perm.trans (sort_by-perm _ _) (sort_by-perm _ (xs ++ ys))))

-- The grants of one principal for one action.
abbrev pub is_for : Text → Text → Grant → Bool
is_for u a g = text_eq g.principal_user_id u && text_eq g.action_name a

module _ (users names : List Text) (resource : Resource) (effects : List Effect) (u a : Text)
    (user_in : contains u users ≡ true) (name_in : contains a names ≡ true) where
  abbrev pub batch : GrantQuery
  batch = record {
    principal_user_ids = users;
    action_names = names;
    resource = resource;
    effects = effects;
  }

  abbrev pub single : GrantQuery
  single = record {
    principal_user_ids = u ∷ [];
    action_names = a ∷ [];
    resource = resource;
    effects = effects;
  }

  -- A filter by the set, then by one member, is the filter by that member.
  in_filter-one :
      (values : List Text) (v c : Text)
      → contains v values ≡ true
      → (in_filter values c && text_eq c v) ≡ text_eq c v
  in_filter-one values v c h = ground (arith, text_eq→eq c v)

  in_filter-single : (v c : Text) → in_filter (v ∷ []) c ≡ text_eq c v
  unfolding contains
  in_filter-single v c = ground arith

  direct_grants-single :
      (st : Store) (now : ℤ)
      → keep (is_for u a) (direct_grants st batch now) ≡ direct_grants st single now
  unfolding direct_grants
  direct_grants-single st now =
      keep-keep (is_for u a) (λ g. is_current g now && matches_query batch g) st.grants
      ∙ keep-ext (λ g. (is_current g now && matches_query batch g) && is_for u a g)
          (λ g. is_current g now && matches_query single g) same st.grants
    where
      same :
          (g : Grant)
          → ((is_current g now && matches_query batch g) && is_for u a g)
            ≡ (is_current g now && matches_query single g)
      same g =
          unfold matches_query in
          ground (
            arith,
            in_filter-one users u g.principal_user_id user_in,
            in_filter-one names a g.action_name name_in,
            in_filter-single u g.principal_user_id,
            in_filter-single a g.action_name,
          )

  role_grants-single :
      (b : RoleBindingRow) (as' : List RoleActionDefinition)
      → text_eq b.principal_user_id u ≡ true
      → keep (is_for u a) (map (role_grant b) (keep (covers batch b) as'))
        ≡ map (role_grant b) (keep (covers single b) as')
  role_grants-single b as' h =
      keep-map (is_for u a) (role_grant b) (keep (covers batch b) as')
      ∙ ap (map (role_grant b)) (
          keep-keep (λ x. is_for u a (role_grant b x)) (covers batch b) as'
          ∙ keep-ext (λ x. covers batch b x && is_for u a (role_grant b x)) (covers single b) same
              as')
    where
      same :
          (x : RoleActionDefinition)
          → (covers batch b x && is_for u a (role_grant b x)) ≡ covers single b x
      same x =
          unfold covers role_grant in
          ground
            (arith, in_filter-one names a x.action_name name_in, in_filter-single a x.action_name)

  role_grants-other :
      (b : RoleBindingRow) (as' : List RoleActionDefinition)
      → text_eq b.principal_user_id u ≡ false
      → keep (is_for u a) (map (role_grant b) (keep (covers batch b) as')) ≡ []
  role_grants-other b as' h =
      keep-map (is_for u a) (role_grant b) (keep (covers batch b) as')
      ∙ ap (map (role_grant b)) (
          keep-none (λ x. is_for u a (role_grant b x)) (λ x. unfold role_grant in ground arith)
            (keep (covers batch b) as'))

  matches_binding-same :
      (b : RoleBindingRow)
      → text_eq b.principal_user_id u ≡ true
      → matches_binding batch b ≡ matches_binding single b
  unfolding matches_binding
  matches_binding-same b h = ground (
    arith,
    in_filter-one users u b.principal_user_id user_in,
    in_filter-single u b.principal_user_id,
  )

  matches_binding-other :
      (b : RoleBindingRow)
      → text_eq b.principal_user_id u ≡ false
      → matches_binding single b ≡ false
  unfolding matches_binding
  matches_binding-other b h = ground (arith, in_filter-single u b.principal_user_id)

  expand-single :
      (as' : List RoleActionDefinition) (bs : List RoleBindingRow)
      → keep (is_for u a) (expand batch as' bs) ≡ expand single as' bs
  unfolding expand
  expand-single as' [] = unfold keep in refl
  expand-single as' (b ∷ bs) = elim (Bool-cases (text_eq b.principal_user_id u)) [
    | inl h ↦ ground (
      arith,
      matches_binding-same b h,
      role_grants-single b as' h,
      expand-single as' bs,
      keep-append (is_for u a) (map (role_grant b) (keep (covers batch b) as'))
          (expand batch as' bs),
    )
    | inr h ↦ ground (
      arith,
      matches_binding-other b h,
      role_grants-other b as' h,
      expand-single as' bs,
      keep-append (is_for u a) (map (role_grant b) (keep (covers batch b) as'))
          (expand batch as' bs),
    )
  ]

  -- Of the grants that the batch query lists, those of the pair are the grants that the pair's own
  -- query lists.
  pub list_active-single :
      (st : Store) (now : ℤ)
      → Perm
          (keep
            (is_for u a)
            (merge_grants (direct_grants st batch now) (role_expanded_grants st batch)))
          (merge_grants (direct_grants st single now) (role_expanded_grants st single))
  unfolding role_expanded_grants
  list_active-single st now =
      let ds = direct_grants st batch now in
      let es = expand batch st.role_actions st.role_bindings in
      let parts : keep (is_for u a) (ds ++ es)
          ≡ direct_grants st single now ++ expand single st.role_actions st.role_bindings =
        keep-append (is_for u a) ds es
        ∙ ap₂ ◌++◌ (direct_grants-single st now) (expand-single st.role_actions st.role_bindings) in
      Perm.trans
        (subst (Perm (keep (is_for u a) (merge_grants ds es))) parts
          (keep-perm (is_for u a) (merge_grants-perm ds es)))
        (Perm.symm (
          merge_grants-perm (direct_grants st single now)
            (expand single st.role_actions st.role_bindings)))
