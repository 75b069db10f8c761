-- ===== src/Authorization/Store.antt =====
-- internal/authorization/infra/gorm_repository.go: the three tables as lists of rows, each SQL
-- statement as the change or the selection that it states. A row of grants is its `rowToGrant`;
-- JSON coding of conditions, uuid generation and failures of the database stay outside (the ids of
-- new rows are an argument).
pub mod Writes
pub mod Scope
pub mod Batch
use be_mycourse.Shared.{
  ◌==◌, Bool, true, false, ◌&&◌, ◌||◌, not, Option, none, some, List, [], ◌∷◌, ◌++◌, map, Text,
  codes, text_eq, text_ltb, contains, is_empty, keep, sort, sort_by, insert_by, any, if◌then◌else◌,
  Result, ok, err,
}
use be_mycourse.Shared.Int.{ℤ, pos, negsuc, ltz, lez}
use be_mycourse.Authorization.Domain.{
  Effect, Resource, Grant, GrantQuery, GrantReplacement, RoleActionDefinition, RoleBindingQuery,
  RoleBinding, ActionDefinition, Error, action_catalog_conflict, wildcard_resource_id, is_nil,
  nil_or_after,
}

pub record RoleBindingRow : Type 0 where
  pub id : Text
  pub principal_user_id : Text
  pub role_name : Text
  pub resource_type : Text
  pub resource_id : Text
  pub granted_by_user_id : Text
  pub created_at : ℤ
  pub revoked_at : Option ℤ

pub record Store : Type 0 where
  pub actions : List ActionDefinition
  pub grants : List Grant
  pub role_actions : List RoleActionDefinition
  pub role_bindings : List RoleBindingRow

abbrev pub effect_text : Effect → Text
effect_text Effect.allow = codes "ALLOW"
effect_text Effect.deny = codes "DENY"
effect_text (Effect.other t) = t

-- `column IN ?` and `column = ?`, both left out for an empty filter.
abbrev pub in_filter : List Text → Text → Bool
in_filter values column = is_empty values || contains column values

abbrev pub is_filter : Text → Text → Bool
is_filter value column = is_empty value || text_eq column value

-- `applyGrantQuery`
unfoldable pub matches_query : GrantQuery → Grant → Bool
matches_query q g =
    in_filter q.principal_user_ids g.principal_user_id
    && in_filter q.action_names g.action_name
    && is_filter q.resource.kind g.resource_type
    && is_filter q.resource.id g.resource_id
    && in_filter (map effect_text q.effects) (effect_text g.effect)

-- `valid_from IS NULL OR valid_from <= ?`
abbrev nil_or_by : Option ℤ → ℤ → Bool
nil_or_by none now = true
nil_or_by (some t) now = lez t now

unfoldable pub is_current : Grant → ℤ → Bool
is_current g now =
    is_nil g.revoked_at && nil_or_by g.valid_from now && nil_or_after g.expires_at now

-- `roleBindingResourceClause`
abbrev pub resource_clause : Text → Text → Bool
resource_clause wanted column = text_eq column wanted || text_eq column wildcard_resource_id

unfoldable pub matches_binding : GrantQuery → RoleBindingRow → Bool
matches_binding q b =
    is_nil b.revoked_at
    && in_filter q.principal_user_ids b.principal_user_id
    && is_filter q.resource.kind b.resource_type
    && (is_empty q.resource.id || resource_clause q.resource.id b.resource_id)

-- The JOIN condition, with the filter on the action.
unfoldable pub covers : GrantQuery → RoleBindingRow → RoleActionDefinition → Bool
covers q b a =
    text_eq a.role_name b.role_name
    && text_eq a.resource_type b.resource_type
    && in_filter q.action_names a.action_name

unfoldable pub role_grant : RoleBindingRow → RoleActionDefinition → Grant
role_grant b a = record {
  id = codes "role:" ++ (b.id ++ (codes ":" ++ a.action_name));
  principal_user_id = b.principal_user_id;
  action_name = a.action_name;
  resource_type = b.resource_type;
  resource_id = b.resource_id;
  effect = Effect.allow;
  conditions = [];
  valid_from = none;
  expires_at = none;
  granted_by_user_id = b.granted_by_user_id;
  created_at = b.created_at;
  revoked_at = none;
}

unfoldable pub expand : GrantQuery → List RoleActionDefinition → List RoleBindingRow → List Grant
unfolding matches_binding covers role_grant keep
expand q role_actions [] = []
expand q role_actions (b ∷ bs) =
    let here = map (role_grant b) (keep (covers q b) role_actions) in
    let rest = expand q role_actions bs in if matches_binding q b then here ++ rest else rest

unfoldable pub role_expanded_grants : Store → GrantQuery → List Grant
unfolding expand
role_expanded_grants st q = expand q st.role_actions st.role_bindings

unfoldable pub direct_grants : Store → GrantQuery → ℤ → List Grant
unfolding matches_query is_current keep
direct_grants st q now = keep (λ g. is_current g now && matches_query q g) st.grants

-- The order of `mergeGrants`: principal, action, effect, id. It absorbs the queries' own orders.
unfoldable pub merge_grants : List Grant → List Grant → List Grant
unfolding sort_by
merge_grants direct expanded =
    sort_by (λ g. g.principal_user_id)
      (sort_by (λ g. g.action_name)
        (sort_by (λ g. effect_text g.effect) (sort_by (λ g. g.id) (direct ++ expanded))))

unfoldable pub list_active : Store → GrantQuery → ℤ → Result Error (List Grant)
unfolding direct_grants role_expanded_grants merge_grants
list_active st q now = ok (merge_grants (direct_grants st q now) (role_expanded_grants st q))

-- `validatePersistedActionRows`: the map from names to resource types keeps the last action.
expected_resource : Text → List ActionDefinition → Option Text
expected_resource name [] = none
expected_resource name (a ∷ as') = elim (expected_resource name as') [
  | some t ↦ some t
  | none ↦ if text_eq name a.name then some a.resource_type else none
]

conflicts : List ActionDefinition → ActionDefinition → Bool
unfolding expected_resource
conflicts new row = elim (expected_resource row.name new) [
  | none ↦ false
  | some t ↦ not (text_eq t row.resource_type)
]

same_key : ActionDefinition → ActionDefinition → Bool
same_key a b = text_eq a.name b.name && text_eq a.resource_type b.resource_type

-- INSERT … ON CONFLICT (action_name, resource_type) DO UPDATE.
upsert_action : ActionDefinition → List ActionDefinition → List ActionDefinition
unfolding same_key
upsert_action a [] = a ∷ []
upsert_action a (b ∷ bs) = if same_key a b then a ∷ bs else b ∷ upsert_action a bs

upsert_all : List ActionDefinition → List ActionDefinition → List ActionDefinition
unfolding upsert_action
upsert_all [] rows = rows
upsert_all (a ∷ as') rows = upsert_all as' (upsert_action a rows)

unfoldable pub upsert_actions : Store → List ActionDefinition → Result Error Store
unfolding conflicts upsert_all any
upsert_actions st new =
    if any (conflicts new) st.actions
    then err action_catalog_conflict
    else ok (record st { actions = upsert_all new st.actions })

same_tuple : RoleActionDefinition → RoleActionDefinition → Bool
same_tuple a b =
    text_eq a.role_name b.role_name
    && text_eq a.resource_type b.resource_type
    && text_eq a.action_name b.action_name

-- INSERT … ON CONFLICT DO NOTHING, row after row.
unfoldable pub sync_role_actions :
    List RoleActionDefinition → List RoleActionDefinition → List RoleActionDefinition
unfolding same_tuple any
sync_role_actions [] rows = rows
sync_role_actions (a ∷ as') rows =
    sync_role_actions as' (if any (same_tuple a) rows then rows else rows ++ (a ∷ []))

abbrev is_zero : ℤ → Bool
is_zero (pos n) = n == 0
is_zero (negsuc n) = false

-- The id and the clock are used where the grant has none.
unfoldable pub create : Store → Text → ℤ → Grant → Store × Grant
create st id now g =
    let row = record g {
      id = if is_empty g.id then id else g.id;
      created_at = if is_zero g.created_at then now else g.created_at;
    } in
    (record st { grants = st.grants ++ (row ∷ []) }, row)

-- UPDATE … SET revoked_at WHERE revoked_at IS NULL AND the query.
unfoldable pub revoke_row : GrantQuery → ℤ → Grant → Grant
unfolding matches_query
revoke_row q now g =
    if is_nil g.revoked_at && matches_query q g then record g { revoked_at = some now } else g

unfoldable pub revoke : Store → GrantQuery → ℤ → Store
unfolding revoke_row
revoke st q now = record st { grants = map (revoke_row q now) st.grants }

unique_from : List Text → List Text
unfolding contains
unique_from [] = []
unique_from (v ∷ vs) =
    let rest = unique_from vs in
    if is_empty v then rest else if contains v rest then rest else v ∷ rest

unfoldable pub unique_sorted : List Text → List Text
unfolding unique_from sort
unique_sorted vs = sort (unique_from vs)

-- The rows that `replacementRows` builds, with the generated ids.
replacement_row : GrantReplacement → (Text → Text → Text) → ℤ → Text → Text → Grant
replacement_row r new_id now principal action = record {
  id = new_id principal action;
  principal_user_id = principal;
  action_name = action;
  resource_type = r.resource.kind;
  resource_id = r.resource.id;
  effect = r.effect;
  conditions = r.conditions;
  valid_from = r.valid_from;
  expires_at = r.expires_at;
  granted_by_user_id = r.granted_by_user_id;
  created_at = now;
  revoked_at = none;
}

rows_for : GrantReplacement → (Text → Text → Text) → ℤ → List Text → List Text → List Grant
unfolding replacement_row
rows_for r new_id now [] actions = []
rows_for r new_id now (p ∷ ps) actions =
    map (replacement_row r new_id now p) actions ++ rows_for r new_id now ps actions

unfoldable pub replacement_rows : GrantReplacement → (Text → Text → Text) → ℤ → List Grant
unfolding rows_for unique_sorted
replacement_rows r new_id now =
    rows_for r new_id now (unique_sorted r.principal_user_ids) (unique_sorted r.actions)

abbrev pub replaced_query : GrantReplacement → GrantQuery
replaced_query r = record {
  principal_user_ids = r.principal_user_ids;
  action_names = r.managed_actions;
  resource = r.resource;
  effects = r.effect ∷ [];
}

unfoldable pub replace_many : Store → GrantReplacement → (Text → Text → Text) → ℤ → Store
unfolding revoke replacement_rows
replace_many st r new_id now =
    let revoked = revoke st (replaced_query r) now in
    record revoked { grants = revoked.grants ++ replacement_rows r new_id now }

unfoldable pub assign_role_bindings :
    Store → (Text → Text) → List Text → Text → Resource → Text → ℤ → Store
assign_role_bindings st new_id principals role resource granted_by now = record st {
  role_bindings = st.role_bindings ++ map row principals;
}
  where
    row : Text → RoleBindingRow
    row p = record {
      id = new_id p;
      principal_user_id = p;
      role_name = role;
      resource_type = resource.kind;
      resource_id = resource.id;
      granted_by_user_id = granted_by;
      created_at = now;
      revoked_at = none;
    }

-- A revocation of one resource does not reach a wildcard binding.
unfoldable pub revokes_binding : RoleBindingQuery → RoleBindingRow → Bool
revokes_binding q b =
    is_nil b.revoked_at
    && in_filter q.principal_user_ids b.principal_user_id
    && is_filter q.role_name b.role_name
    && is_filter q.resource.kind b.resource_type
    && is_filter q.resource.id b.resource_id

unfoldable pub revoke_role_bindings : Store → RoleBindingQuery → ℤ → Store
unfolding revokes_binding
revoke_role_bindings st q now = record st {
  role_bindings =
      map (λ b. if revokes_binding q b then record b { revoked_at = some now } else b)
        st.role_bindings;
}

unfoldable pub lists_binding : RoleBindingQuery → RoleBindingRow → Bool
lists_binding q b =
    is_nil b.revoked_at
    && in_filter q.principal_user_ids b.principal_user_id
    && is_filter q.role_name b.role_name
    && is_filter q.resource.kind b.resource_type
    && (is_empty q.resource.id || resource_clause q.resource.id b.resource_id)
