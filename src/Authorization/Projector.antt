-- ===== src/Authorization/Projector.antt =====
-- internal/authorization/application/effective_action_projector.go. The resolver of principals is
-- an argument, like the repository and the clock.
pub mod Grouping
pub mod Pending
pub mod Queried
pub mod Applied
pub mod Agreement
pub mod Effective
use be_mycourse.Shared.{
  ℕ, Bool, true, false, ◌&&◌, ◌||◌, not, Option, none, some, List, [], ◌∷◌, ◌++◌, map, Text, trim,
  is_empty, contains, sort, sort_by, text_eq, if◌then◌else◌, Result, ok, err, ◌>>=◌,
}
use be_mycourse.Shared.Map.{lookup, insert, get}
use be_mycourse.Shared.Int.{ℤ}
use be_mycourse.Authorization.Domain.{
  Effect, PrincipalType, Principal, Resource, EvaluationContext, AuthorizationRequest, Decision,
  Grant, GrantQuery, Error, allowed,
}
use be_mycourse.Authorization.Conditions.{Runtime}
use be_mycourse.Authorization.Registry.{Registry}
use be_mycourse.Authorization.Authorizer.{
  PreparedAuthorization, Preparation, stopped, prepared, prepare, decide_prepared,
}
use be_mycourse.Authorization.Names.{unique_non_empty}
use be_mycourse.Authorization.Grants.{trim_resource}

pub record Subject : Type 0 where
  pub user_id : Text
  pub context : EvaluationContext

pub record EffectiveActionsRequest : Type 0 where
  pub resource : Resource
  pub action_names : List Text
  pub subjects : List Subject

pub record PendingAction : Type 0 where
  pub user_id : Text
  pub action : Text
  pub prepared : PreparedAuthorization

-- The loop of `normalizeEffectiveActionSubjects`: the first subject of each trimmed user id.
unfoldable pub subjects_from : List Text → List Subject → List Subject
subjects_from seen [] = []
subjects_from seen (s ∷ ss) =
    let id = trim s.user_id in
    let skip = subjects_from seen ss in
    let rest = subjects_from (id ∷ seen) ss in
    if is_empty id
    then skip
    else if contains id seen
    then skip
    else record s { user_id = id } ∷ rest

unfoldable pub normalize_subjects : List Subject → List Subject
unfolding subjects_from sort_by
normalize_subjects ss = sort_by (λ s. s.user_id) (subjects_from [] ss)

unfoldable pub empty_effective_actions : List Text → List (Text × List Text)
unfolding insert
empty_effective_actions [] = []
empty_effective_actions (u ∷ us) = insert u [] (empty_effective_actions us)

-- The zero value of `Principal`, for a user that was not resolved.
abbrev pub principal_of : List (Text × Principal) → Text → Principal
principal_of principals u = elim (lookup u principals) [
  | some p ↦ p
  | none ↦ record { kind = PrincipalType.other []; id = []; global_permissions = [] }
]

abbrev pub request_for : Resource → Principal → Subject → Text → AuthorizationRequest
request_for resource principal s action = record {
  principal = principal;
  action = action;
  resource = resource;
  context = s.context;
}

-- The inner loop of `prepareEffectiveActions`.
unfoldable pub prepare_subject :
    Registry → Resource → Principal → Subject → List Text → Result Error (List PendingAction)
unfolding prepare
prepare_subject registry resource principal s [] = ok []
prepare_subject registry resource principal s (a ∷ as') =
    elim (prepare registry (request_for resource principal s a)) [
      | stopped d (some e) ↦ err e
      | stopped d none ↦ prepare_subject registry resource principal s as'
      | prepared p ↦ prepare_subject registry resource principal s as' >>= λ rest.
          ok (record { user_id = s.user_id; action = a; prepared = p } ∷ rest)
    ]

unfoldable pub prepare_effective_actions :
    Registry
    → Resource
    → List Text
    → List (Text × Principal)
    → List Subject
    → Result Error (List PendingAction)
unfolding prepare_subject lookup
prepare_effective_actions registry resource actions principals [] = ok []
prepare_effective_actions registry resource actions principals (s ∷ ss) =
    prepare_subject registry resource (principal_of principals s.user_id) s actions >>= λ here.
    prepare_effective_actions registry resource actions principals ss >>= λ rest. ok (here ++ rest)

-- `principalID + "\x00" + action`
unfoldable pub decision_key : Text → Text → Text
decision_key principal_id action = principal_id ++ (0 ∷ action)

unfoldable pub group_from : List (Text × List Grant) → List Grant → List (Text × List Grant)
unfolding insert get decision_key
group_from result [] = result
group_from result (g ∷ gs) =
    let key = decision_key g.principal_user_id g.action_name in
    group_from (insert key (get result key ++ (g ∷ [])) result) gs

unfoldable pub group_grants_by_decision : List Grant → List (Text × List Grant)
unfolding group_from
group_grants_by_decision gs = group_from [] gs

unfoldable pub sort_each : List (Text × List Text) → List (Text × List Text)
unfolding sort
sort_each [] = []
sort_each ((u, actions) ∷ m) = (u, sort actions) ∷ sort_each m

module _ (rt : Runtime) where
  -- The loop of `applyEffectiveActionDecisions`.
  unfoldable pub apply_from :
      List (Text × List Grant)
      → ℤ
      → List (Text × List Text)
      → List PendingAction
      → Result Error (List (Text × List Text))
  unfolding decide_prepared decision_key get insert allowed
  apply_from groups now result [] = ok result
  apply_from groups now result (item ∷ items) =
      let decision =
        decide_prepared rt item.prepared (get groups (decision_key item.user_id item.action)) now in
      elim decision.1 [
        | some e ↦ err e
        | none ↦
            apply_from groups now
              (if allowed decision.0
                then insert item.user_id (get result item.user_id ++ (item.action ∷ [])) result
                else result)
              items
      ]

  unfoldable pub apply_effective_action_decisions :
      List (Text × List Text)
      → List PendingAction
      → List Grant
      → ℤ
      → Result Error (List (Text × List Text))
  unfolding group_grants_by_decision apply_from sort_each
  apply_effective_action_decisions result pending gs now =
      apply_from (group_grants_by_decision gs) now result pending >>= λ m. ok (sort_each m)

  unfoldable pub project :
      Registry
      → (GrantQuery → ℤ → Result Error (List Grant))
      → (List Text → Result Error (List (Text × Principal)))
      → ℤ
      → EffectiveActionsRequest
      → Result Error (List (Text × List Text))
  unfolding trim_resource unique_non_empty normalize_subjects empty_effective_actions
      prepare_effective_actions apply_effective_action_decisions
  project registry list_active resolve now request =
      let resource = trim_resource request.resource in
      let actions = unique_non_empty request.action_names in
      let subjects = normalize_subjects request.subjects in
      let users = map (λ s. s.user_id) subjects in
      let result = empty_effective_actions users in
      if is_empty users || is_empty actions
      then ok result
      else (resolve users >>= λ principals.
          prepare_effective_actions registry resource actions principals subjects >>= λ pending.
          if is_empty pending
          then ok result
          else (list_active
                (record {
                  principal_user_ids = users;
                  action_names = actions;
                  resource = resource;
                  effects = Effect.allow ∷ Effect.deny ∷ [];
                })
                now
              >>= λ gs. apply_effective_action_decisions result pending gs now))
