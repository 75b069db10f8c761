-- ===== src/Authorization/Domain.antt =====
-- internal/authorization/domain/authorization.go and shared/requestprincipal: the data that the
-- decision engine reads. A Go string type with constants is a data type with a constructor for
-- each constant and `other` for every other text; a pointer is an Option, a set is a list of its
-- members, int64 seconds are integers.
use be_mycourse.Shared.{
  ◌≡◌, refl, ℕ, Bool, true, false, ◌&&◌, not, Option, none, some, List, Text, codes, Result,
}
use be_mycourse.Shared.Int.{ℤ, ltz}

pub data Effect : Type 0 where
  allow deny : Effect
  other : Text → Effect

pub data PrincipalType : Type 0 where
  user : PrincipalType
  other : Text → PrincipalType

pub record Principal : Type 0 where
  pub kind : PrincipalType
  pub id : Text
  pub global_permissions : List Text

pub record ActionDefinition : Type 0 where
  pub name : Text
  pub resource_type : Text
  pub boundary_permission : Text
  pub description : Text
  pub grantable : Bool

pub record Resource : Type 0 where
  pub kind : Text
  pub id : Text

abbrev pub wildcard_resource_id : Text
wildcard_resource_id = codes "*"

-- A value of type `any`, as the conditions look at it: the ten integer kinds, a float by its bits,
-- a time by its Unix seconds.
pub data Value : Type 0 where
  str : Text → Value
  boolean : Bool → Value
  integer : ℤ → Value
  float32 : ℕ → Value
  float64 : ℕ → Value
  time : ℤ → Value
  opaque_value : Value

-- The dynamic types of `DomainFacts any`: nil, the Course facts with `IsOwner`, and all others.
pub data DomainFacts : Type 0 where
  no_facts : DomainFacts
  course_facts : Bool → DomainFacts
  other_facts : Text → DomainFacts

pub record EvaluationContext : Type 0 where
  pub attributes : List (Text × Value)
  pub domain_facts : DomainFacts

pub record AuthorizationRequest : Type 0 where
  pub principal : Principal
  pub action : Text
  pub resource : Resource
  pub context : EvaluationContext

-- `unset` is the empty string, `custom` any text that is none of the constants.
pub data DecisionReason : Type 0 where
  invalid_principal unknown_action resource_type_mismatch missing_global_permission : DecisionReason
  provider_deny explicit_deny provider_allow grant_allow implicit_deny : DecisionReason
  evaluation_error unset : DecisionReason
  custom : Text → DecisionReason

pub record Decision : Type 0 where
  pub effect : Effect
  pub reason : DecisionReason
  pub matched_grant_ids : List Text

abbrev pub is_allow : Effect → Bool
is_allow allow = true
is_allow deny = false
is_allow (other t) = false

unfoldable pub allowed : Decision → Bool
allowed d = is_allow d.effect

pub data PolicyEffect : Type 0 where
  neutral allow deny : PolicyEffect
  other : Text → PolicyEffect

pub record PolicyDecision : Type 0 where
  pub effect : PolicyEffect
  pub reason : DecisionReason

pub record GrantManagementRequest : Type 0 where
  pub issuer : Principal
  pub target_principal_ids : List Text
  pub resource : Resource
  pub context : EvaluationContext

-- The sentinel errors; `external` is an error of a provider or of the database.
pub data Error : Type 0 where
  invalid_provider duplicate_provider duplicate_action action_catalog_conflict : Error
  unknown_action invalid_grant invalid_role_binding grant_management_forbidden : Error
  invalid_policy_context : Error
  external : Text → Error

-- The interface that a resource type implements.
pub record PolicyProvider : Type 0 where
  pub resource_type : Text
  pub actions : List ActionDefinition
  pub evaluate : AuthorizationRequest → Result Error PolicyDecision
  pub can_manage_grants : GrantManagementRequest → Result Error Bool

pub data ConditionOperator : Type 0 where
  string_equals bool_equals numeric_equals date_before date_after : ConditionOperator
  unsupported : Text → ConditionOperator

pub record Condition : Type 0 where
  pub operator : ConditionOperator
  pub key : Text
  pub values : List Value

pub record Grant : Type 0 where
  pub id : Text
  pub principal_user_id : Text
  pub action_name : Text
  pub resource_type : Text
  pub resource_id : Text
  pub effect : Effect
  pub conditions : List Condition
  pub valid_from : Option ℤ
  pub expires_at : Option ℤ
  pub granted_by_user_id : Text
  pub created_at : ℤ
  pub revoked_at : Option ℤ

abbrev pub is_nil {ℓ} : {A : Type ℓ} → Option A → Bool
is_nil none = true
is_nil (some a) = false

pub is_nil→none {ℓ} : {A : Type ℓ} (o : Option A) → is_nil o ≡ true → o ≡ none
is_nil→none none h = refl
is_nil→none (some a) h = cc

-- `p != nil && *p > now`, and `p == nil || *p > now`.
abbrev pub is_after : Option ℤ → ℤ → Bool
is_after none now = false
is_after (some t) now = ltz now t

abbrev pub nil_or_after : Option ℤ → ℤ → Bool
nil_or_after none now = true
nil_or_after (some t) now = ltz now t

unfoldable pub active_at : Grant → ℤ → Bool
active_at g now =
    is_nil g.revoked_at && not (is_after g.valid_from now) && nil_or_after g.expires_at now

pub record GrantQuery : Type 0 where
  pub principal_user_ids : List Text
  pub action_names : List Text
  pub resource : Resource
  pub effects : List Effect

pub record GrantReplacement : Type 0 where
  pub principal_user_ids : List Text
  pub managed_actions : List Text
  pub actions : List Text
  pub resource : Resource
  pub effect : Effect
  pub conditions : List Condition
  pub valid_from : Option ℤ
  pub expires_at : Option ℤ
  pub granted_by_user_id : Text

pub record RoleActionDefinition : Type 0 where
  pub role_name : Text
  pub resource_type : Text
  pub action_name : Text

-- RoleBindingAssignment and RoleBindingRevocation have the same fields.
pub record RoleBindingCommand : Type 0 where
  pub issuer : Principal
  pub principal_user_ids : List Text
  pub role_name : Text
  pub resource : Resource
  pub context : EvaluationContext

pub record RoleBindingQuery : Type 0 where
  pub principal_user_ids : List Text
  pub role_name : Text
  pub resource : Resource

pub record RoleBinding : Type 0 where
  pub id : Text
  pub principal_user_id : Text
  pub role_name : Text
  pub resource : Resource
  pub granted_by_user_id : Text
  pub created_at : ℤ
