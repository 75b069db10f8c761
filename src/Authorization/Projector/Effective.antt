-- ===== src/Authorization/Projector/Effective.antt =====
-- `Project` from the request to the lists of effective actions.
use be_mycourse.Shared.{
  ◌≡◌, refl, sym, ◌∙◌, Bool, true, false, ◌&&◌, ◌||◌, List, [], ◌∷◌, map, Text, contains, is_empty,
  any, text_eq, arith, Bool-cases, inl, inr, ok, Result, trim, subst,
}
use be_mycourse.Shared.Map.{get}
use be_mycourse.Shared.Every.{All-zip, All-contains}
use be_mycourse.Shared.Int.{ℤ}
use be_mycourse.Authorization.Domain.{Principal, Grant, GrantQuery, Error}
use be_mycourse.Authorization.Conditions.{Runtime}
use be_mycourse.Authorization.Registry.{Registry}
use be_mycourse.Authorization.Grants.{trim_resource}
use be_mycourse.Authorization.Names.{unique_non_empty}
use be_mycourse.Authorization.Names.Laws.{unique_non_empty-All}
use be_mycourse.Authorization.Store.{Store, list_active}
use be_mycourse.Authorization.Projector.{
  Subject, EffectiveActionsRequest, normalize_subjects, empty_effective_actions, principal_of,
  project,
}
use be_mycourse.Authorization.Projector.Applied.{contains-empty_effective_actions}
use be_mycourse.Authorization.Projector.Pending.{is_authorized}
use be_mycourse.Authorization.Projector.Agreement.{
  IsSound, normalize_subjects-trimmed, trim_resource_idem, listed_actions-authorized,
}

abbrev user_ids : EffectiveActionsRequest → List Text
user_ids request = map (λ s. s.user_id) (normalize_subjects request.subjects)

-- Some subject of the request has the user's id, and `Authorize` allows it the action, which is
-- asked for.
abbrev pub may :
    Runtime
    → Registry
    → (GrantQuery → ℤ → Result Error (List Grant))
    → ℤ
    → List (Text × Principal)
    → EffectiveActionsRequest
    → Text
    → Text
    → Bool
may rt registry list_active now principals request u a =
    any
      (λ s.
        text_eq u s.user_id
        && (contains a (unique_non_empty request.action_names)
            && is_authorized rt registry list_active now (trim_resource request.resource)
                (principal_of principals s.user_id) s a))
      (normalize_subjects request.subjects)

module _ (rt : Runtime) (registry : Registry) (st : Store) (now : ℤ)
    (principals : List (Text × Principal)) (request : EffectiveActionsRequest) (u a : Text) where
  unasked :
      (subjects : List Subject) (actions : List Text)
      → (is_empty (map (λ s. s.user_id) subjects) || is_empty actions) ≡ true
      → any
          (λ s.
            text_eq u s.user_id
            && (contains a actions
                && is_authorized rt registry
                    (list_active st)
                    now
                    (trim_resource request.resource)
                    (principal_of principals s.user_id)
                    s
                    a))
          subjects
        ≡ false
  unfolding any contains
  unasked [] actions h = refl
  unasked (s ∷ ss) (x ∷ as') h = absurd (ground arith)
  unasked (s ∷ ss) [] h = none_of (s ∷ ss)
    where
      may_none : Subject → Bool
      may_none s =
          text_eq u s.user_id
          && (contains a []
              && is_authorized rt registry (list_active st) now (trim_resource request.resource)
                  (principal_of principals s.user_id) s a)

      none_of : (ss : List Subject) → any may_none ss ≡ false
      none_of [] = refl
      none_of (s ∷ ss) = ground (arith, none_of ss)

-- For a sound request, whose principals the resolver finds, the actions that `Project` lists for a
-- user, when it succeeds, are the asked actions for which `Authorize` allows one of the user's
-- subjects, on the same store, registry and clock.
pub project-authorize :
    (rt : Runtime) (registry : Registry) (st : Store) (now : ℤ)
    (resolve : List Text → Result Error (List (Text × Principal)))
    (request : EffectiveActionsRequest) (principals : List (Text × Principal))
    (result : List (Text × List Text)) (u a : Text)
    → IsSound resolve request
    → resolve (user_ids request) ≡ ok principals
    → project rt registry (list_active st) resolve now request ≡ ok result
    → contains a (get result u) ≡ may rt registry (list_active st) now principals request u a
unfolding project list_active
project-authorize rt registry st now resolve request principals result u a sound found h =
    let actions = unique_non_empty request.action_names in
    let subjects = normalize_subjects request.subjects in
    let users = user_ids request in
    let resource = trim_resource request.resource in
    elim (Bool-cases (is_empty users || is_empty actions)) [
      | inl e ↦
          let same : empty_effective_actions users ≡ result = ground arith in
          subst
            (λ r.
              contains a (get r u) ≡ may rt registry (list_active st) now principals request u a)
            same
            (contains-empty_effective_actions a u users
              ∙ sym (unasked rt registry st now principals request u a subjects actions e))
      | inr e ↦
          listed_actions-authorized rt st registry now actions resource subjects
            (trim_resource_idem request.resource)
            (All-zip (λ b. contains b actions ≡ true) (λ b. trim b ≡ b) actions
              (All-contains actions) (unique_non_empty-All request.action_names))
            (normalize_subjects-trimmed request.subjects) sound.nul_free principals result u a
            (sound.resolved users principals found) (ground arith)
    ]
