-- ===== src/Examples/Data.antt =====
-- The registry, the store and the requests that the examples share: a course `c1` of which `u1` is
-- the owner, an editor `u2`, and a denial in force for `u3`.
use be_mycourse.Shared.{
  ℕ, ◌≡◌, refl, Bool, true, false, none, some, List, [], ◌∷◌, ◌==◌, trim, text_eq, Text, codes, map,
  Result, ok,
}
use be_mycourse.Shared.Int.{ℤ, pos, negsuc}
use be_mycourse.Authorization.Domain.{
  Effect, PrincipalType, Principal, Resource, EvaluationContext, course_facts, Grant, GrantQuery,
  ActionDefinition, AuthorizationRequest, Error,
}
use be_mycourse.Authorization.Conditions.{Runtime}
use be_mycourse.Authorization.Registry.{Registry, new_registry}
use be_mycourse.Authorization.Store.{Store, list_active}
use be_mycourse.Authorization.Projector.{EffectiveActionsRequest}
use be_mycourse.Course.{
  course_policy_provider, course_actions, role_actions, course_read, course_update, course_delete,
}

-- Floats as naturals, and no text that is a time.
abbrev pub runtime : Runtime
runtime = record {
  float_of_int = λ n. whole n;
  widen = λ x. x;
  near = λ a b. a == b;
  int_of_float = pos;
  parse_rfc3339 = λ t. none;
}
  where
    whole : ℤ → ℕ
    whole (pos n) = n
    whole (negsuc n) = 0

abbrev pub registry : Registry
registry = record {
  providers = (codes "course", course_policy_provider) ∷ [];
  actions = map (λ (a : ActionDefinition). (a.name, a)) course_actions;
}

pub registry-new : new_registry (some course_policy_provider ∷ []) ≡ ok registry
unfolding new_registry trim text_eq
registry-new = refl

abbrev pub course : Resource
course = record { kind = codes "course"; id = codes "c1" }

abbrev pub user : Text → Principal
user id = record {
  kind = PrincipalType.user;
  id = id;
  global_permissions = course_read ∷ course_update ∷ course_delete ∷ [];
}

abbrev pub facts : Bool → EvaluationContext
facts is_owner = record { attributes = []; domain_facts = course_facts is_owner }

abbrev pub edit : Text
edit = codes "course_draft:edit"

abbrev pub view : Text
view = codes "course_detail:view"

abbrev pub grant_of : Text → Text → Effect → Grant
grant_of user action effect = record {
  id = user;
  principal_user_id = user;
  action_name = action;
  resource_type = codes "course";
  resource_id = codes "c1";
  effect = effect;
  conditions = [];
  valid_from = none;
  expires_at = some (pos 1000);
  granted_by_user_id = codes "u1";
  created_at = pos 1;
  revoked_at = none;
}

abbrev pub denial : Grant
denial = grant_of (codes "u3") view Effect.deny

abbrev pub editor_grant : Grant
editor_grant = grant_of (codes "u2") edit Effect.allow

abbrev pub store : Store
store = record {
  actions = course_actions;
  grants = denial ∷ editor_grant ∷ [];
  role_actions = role_actions;
  role_bindings =
      record {
        id = codes "b1";
        principal_user_id = codes "u2";
        role_name = codes "EDITOR";
        resource_type = codes "course";
        resource_id = codes "c1";
        granted_by_user_id = codes "u1";
        created_at = pos 1;
        revoked_at = none;
      }
      ∷ [];
}

abbrev pub listing : GrantQuery → ℤ → Result Error (List Grant)
listing = list_active store

abbrev pub edit_request : AuthorizationRequest
edit_request = record {
  principal = user (codes " u2");
  action = edit;
  resource = course;
  context = facts false;
}

abbrev pub effective_request : EffectiveActionsRequest
effective_request = record {
  resource = course;
  action_names = view ∷ edit ∷ [];
  subjects =
      record { user_id = codes "u2"; context = facts false }
      ∷ record { user_id = codes "u1 "; context = facts true }
      ∷ [];
}

abbrev pub resolve : List Text → Result Error (List (Text × Principal))
resolve us = ok (map (λ u. (u, user u)) us)
