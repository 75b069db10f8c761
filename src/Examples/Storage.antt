-- ===== src/Examples/Storage.antt =====
-- The store on the shared data.
use be_mycourse.Shared.{
  ◌≡◌, refl, true, none, List, [], ◌∷◌, ◌++◌, Text, Perm, text_eq, contains, codes, keep,
}
use be_mycourse.Shared.Int.{pos}
use be_mycourse.Authorization.Domain.{Effect, GrantQuery, GrantReplacement}
use be_mycourse.Authorization.Store.{
  list_active, revoke, replace_many, merge_grants, direct_grants, role_expanded_grants,
}
use be_mycourse.Authorization.Store.Writes.{
  IsSelected, Revoked, revoke_lem, Replaced, replace_many_lem,
}
use be_mycourse.Authorization.Store.Scope.{IsInScope, AllListed, list_active-IsInScope}
use be_mycourse.Authorization.Store.Batch.{is_for, list_active-single}
use be_mycourse.Examples.Data.{store, view, edit, course}

abbrev effects : List Effect
effects = Effect.allow ∷ Effect.deny ∷ []

abbrev query : List Text → List Text → GrantQuery
query users actions = record {
  principal_user_ids = users;
  action_names = actions;
  resource = course;
  effects = effects;
}

abbrev users : List Text
users = codes "u2" ∷ codes "u3" ∷ []

abbrev names : List Text
names = view ∷ edit ∷ []

list_active-IsInScope_example :
    AllListed
      (IsInScope (query users names) (pos 100))
      (list_active store (query users names) (pos 100))
list_active-IsInScope_example = list_active-IsInScope store (query users names) (pos 100)

u2_in : contains (codes "u2") users ≡ true
unfolding contains text_eq
u2_in = refl

edit_in : contains edit names ≡ true
unfolding contains text_eq
edit_in = refl

list_active-single_example :
    Perm
      (keep (is_for (codes "u2") edit) (
        merge_grants
          (direct_grants store (query users names) (pos 100))
          (role_expanded_grants store (query users names))))
      (merge_grants
        (direct_grants store (query (codes "u2" ∷ []) (edit ∷ [])) (pos 100))
        (role_expanded_grants store (query (codes "u2" ∷ []) (edit ∷ []))))
list_active-single_example =
    list_active-single users names course effects (codes "u2") edit u2_in edit_in store (pos 100)

revoke_lem_example :
    Revoked
      (IsSelected (query users names))
      (pos 100)
      store.grants
      (revoke store (query users names) (pos 100)).grants
    × ((revoke store (query users names) (pos 100)).actions ≡ store.actions)
    × ((revoke store (query users names) (pos 100)).role_actions ≡ store.role_actions)
    × ((revoke store (query users names) (pos 100)).role_bindings ≡ store.role_bindings)
revoke_lem_example = revoke_lem store (query users names) (pos 100)

-- The editor may view, and no longer edits by a grant of their own.
abbrev replacement : GrantReplacement
replacement = record {
  principal_user_ids = codes "u2" ∷ [];
  managed_actions = names;
  actions = view ∷ [];
  resource = course;
  effect = Effect.allow;
  conditions = [];
  valid_from = none;
  expires_at = none;
  granted_by_user_id = codes "u1";
}

abbrev new_id : Text → Text → Text
new_id p a = p ++ a

replace_many_lem_example :
    Replaced replacement new_id (pos 100) store (replace_many store replacement new_id (pos 100))
replace_many_lem_example = replace_many_lem store replacement new_id (pos 100)
