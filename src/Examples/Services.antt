-- ===== src/Examples/Services.antt =====
-- The services on the shared data. The repository keeps a count of its writes.
use be_mycourse.Shared.{
  ℕ, ◌≡◌, refl, ◌+◌, ◌⊎◌, ◌↔◌, true, false, none, some, [], ◌∷◌, trim, text_eq, text_ltb, contains,
  is_empty, codes, ok,
}
use be_mycourse.Shared.Int.{pos}
use be_mycourse.Authorization.Domain.{Effect, course_facts, RoleBindingCommand}
use be_mycourse.Authorization.Registry.{provider}
use be_mycourse.Authorization.Grants.{
  GrantRepository, grant, GrantCommand, ReplaceGrantsCommand, require_manager, trim_resource,
}
use be_mycourse.Authorization.Grants.Guarded.{grants, step}
use be_mycourse.Authorization.RoleBindings
use be_mycourse.Authorization.RoleBindings.{
  RoleBindingRepository, normalize_command, require_role_binding_manager,
}
use be_mycourse.Authorization.RoleBindings.Mirror.{
  require_role_binding_manager-require_manager, role_bindings_guarded, after, IsManaged,
}
use be_mycourse.Course.{course_policy_provider, can_manage_facts}
use be_mycourse.Course.Ownership.{step_course}
use be_mycourse.Examples.Data.{registry, user, facts, course, edit, view}

abbrev repository : GrantRepository ℕ
repository = record {
  upsert_actions = λ s actions. ok s;
  create = λ s g. ok (s + 1, g);
  revoke = λ s q now. ok (s + 1);
  replace_many = λ s r now. ok (s + 1);
}

abbrev bindings : RoleBindingRepository ℕ
bindings = record {
  assign_role_bindings = λ s us role r by now. ok (s + 1);
  revoke_role_bindings = λ s q now. ok (s + 1);
  list_role_bindings = λ s q. ok [];
}

abbrev command : GrantCommand
command = record {
  issuer = user (codes "u1");
  target_principal_id = codes "u2";
  action = edit;
  resource = course;
  effect = Effect.allow;
  conditions = [];
  valid_from = none;
  expires_at = some (pos 500);
  context = facts true;
}

-- The owner's call writes.
step_written : step repository registry (pos 100) 0 (grants command) ≡ 1
unfolding step grant trim contains text_eq text_ltb can_manage_facts
step_written = refl

abbrev many : ReplaceGrantsCommand
many = record {
  issuer = user (codes "u1");
  target_principal_ids = codes "u2" ∷ codes "u3" ∷ [];
  actions = view ∷ edit ∷ [];
  resource = course;
  effect = Effect.allow;
  conditions = [];
  valid_from = none;
  expires_at = none;
  context = facts true;
}

course_provided : provider registry (trim_resource course).kind ≡ some course_policy_provider
unfolding provider trim_resource trim text_eq
course_provided = refl

step_course_example :
    (step repository registry (pos 100) 0 (grants command) ≡ 0)
    ⊎ ((facts true).domain_facts ≡ course_facts true)
step_course_example = step_course repository registry (pos 100) 0 (grants command) course_provided

require_role_binding_manager-require_manager_example :
    (require_role_binding_manager registry (user (codes "u1")) (codes "u2" ∷ []) course (facts true)
      ≡ ok tt)
    ↔ (require_manager registry (user (codes "u1")) (codes "u2" ∷ []) course (facts true) ≡ ok tt)
require_role_binding_manager-require_manager_example =
    require_role_binding_manager-require_manager registry (user (codes "u1")) (codes "u2" ∷ [])
      course (facts true)

abbrev binding_command : RoleBindingCommand
binding_command = record {
  issuer = user (codes "u1");
  principal_user_ids = codes "u2" ∷ [];
  role_name = codes "EDITOR";
  resource = course;
  context = facts true;
}

role_bindings_guarded_example :
    ((after bindings registry
          (pos 100)
          0
          (RoleBindings.assign bindings registry (pos 100) 0 binding_command)
        ≡ 0)
      ⊎ (IsManaged bindings registry (pos 100) (normalize_command binding_command)
          × (is_empty (normalize_command binding_command).role_name ≡ false)))
    × ((after bindings registry
            (pos 100)
            0
            (RoleBindings.revoke bindings registry (pos 100) 0 binding_command)
          ≡ 0)
        ⊎ IsManaged bindings registry (pos 100) (normalize_command binding_command))
role_bindings_guarded_example = role_bindings_guarded bindings registry (pos 100) 0 binding_command
