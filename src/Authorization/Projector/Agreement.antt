-- ===== src/Authorization/Projector/Agreement.antt =====
-- `Project` answers, for every user and action, what `Authorize` answers.
use be_mycourse.Shared.{
  ◌≡◌, refl, sym, subst, ◌∙◌, ap, Bool, true, false, ◌&&◌, ◌||◌, List, [], ◌∷◌, map, Text, contains,
  is_empty, trim, trim-trim, any, text_eq, if◌then◌else◌, arith, Bool-cases, Result-cases, inl, inr,
  ok, Result, ◌>>=◌,
}
use be_mycourse.Shared.Map.{get}
use be_mycourse.Shared.Every.{All, All-mono, All-zip, keys-All, any-ext}
use be_mycourse.Shared.Perms.{All-sort_by}
use be_mycourse.Shared.Int.{ℤ}
use be_mycourse.Authorization.Domain.{Effect, Principal, Resource, Error}
use be_mycourse.Authorization.Conditions.{Runtime}
use be_mycourse.Authorization.Registry.{Registry}
use be_mycourse.Authorization.Grants.{trim_resource}
use be_mycourse.Authorization.Store.{Store, list_active}
use be_mycourse.Authorization.Projector.{
  Subject, EffectiveActionsRequest, PendingAction, subjects_from, normalize_subjects,
  empty_effective_actions, principal_of, prepare_effective_actions, group_grants_by_decision,
  apply_from, sort_each, apply_effective_action_decisions,
}
use be_mycourse.Authorization.Projector.Grouping.{is_nul_free}
use be_mycourse.Authorization.Projector.Pending.{
  item_for, is_authorized, prepare_effective_actions-any,
}
use be_mycourse.Authorization.Projector.Queried.{
  IsResolved, IsQueried, prepare_effective_actions-All,
}
use be_mycourse.Authorization.Projector.Applied.{
  contains-get-sort_each, contains-empty_effective_actions, decided, apply_from-any, listed,
  decided-item_allowed,
}

-- What is asked of the inputs: no user id holds a NUL byte, and the resolver gives a user's
-- principal the id that was asked for.
pub record IsSound (resolve : List Text → Result Error (List (Text × Principal)))
    (request : EffectiveActionsRequest) : Type 0 where
  pub nul_free :
      All (λ u. is_nul_free u ≡ true) (map (λ s. s.user_id) (normalize_subjects request.subjects))
  pub resolved :
      (us : List Text) (principals : List (Text × Principal))
      → resolve us ≡ ok principals
      → IsResolved principals

subjects_from-trimmed :
    (seen : List Text) (ss : List Subject)
    → All (λ s. trim s.user_id ≡ s.user_id) (subjects_from seen ss)
unfolding subjects_from
subjects_from-trimmed seen [] = tt
subjects_from-trimmed seen (s ∷ ss) = ground (
  arith,
  subjects_from-trimmed seen ss,
  subjects_from-trimmed (trim s.user_id ∷ seen) ss,
  trim-trim s.user_id,
)

pub normalize_subjects-trimmed :
    (ss : List Subject) → All (λ s. trim s.user_id ≡ s.user_id) (normalize_subjects ss)
unfolding normalize_subjects
normalize_subjects-trimmed ss =
    All-sort_by (λ s. trim s.user_id ≡ s.user_id) (λ s. s.user_id) (subjects_from [] ss)
      (subjects_from-trimmed [] ss)

pub trim_resource_idem : (r : Resource) → trim_resource (trim_resource r) ≡ trim_resource r
unfolding trim_resource
trim_resource_idem r = simp trim-trim

module _ (rt : Runtime) (st : Store) (registry : Registry) (now : ℤ) (actions : List Text)
    (resource : Resource) (subjects : List Subject) (trimmed : trim_resource resource ≡ resource)
    (asked : All (λ a. (contains a actions ≡ true) × (trim a ≡ a)) actions)
    (known : All (λ s. trim s.user_id ≡ s.user_id) subjects)
    (nul_free : All (λ u. is_nul_free u ≡ true) (map (λ s. s.user_id) subjects)) where
  abbrev users : List Text
  users = map (λ s. s.user_id) subjects

  -- Some subject with the user's id is authorized for the asked action.
  abbrev pub authorized : List (Text × Principal) → Text → Text → Bool
  authorized principals u a =
      any
        (λ s.
          text_eq u s.user_id
          && (contains a actions
              && is_authorized rt registry (list_active st) now resource
                  (principal_of principals s.user_id) s a))
        subjects

  applied :
      (principals : List (Text × Principal)) (pending : List PendingAction)
      (result : List (Text × List Text)) (u a : Text)
      → IsResolved principals
      → prepare_effective_actions registry resource actions principals subjects ≡ ok pending
      → apply_effective_action_decisions rt
          (empty_effective_actions users)
          pending
          (listed rt st registry now users actions resource trimmed nul_free)
          now
        ≡ ok result
      → contains a (get result u) ≡ authorized principals u a
  unfolding apply_effective_action_decisions
  applied principals pending result u a resolved h e =
      let gs = listed rt st registry now users actions resource trimmed nul_free in
      let groups = group_grants_by_decision gs in
      let start = empty_effective_actions users in
      elim (Result-cases (apply_from rt groups now start pending)) [
        | inl (m, k) ↦
            let sorted : result ≡ sort_each m = ground arith in
            let queried =
              prepare_effective_actions-All registry users actions resource trimmed principals
                resolved asked subjects pending
                (All-zip (λ s. contains s.user_id users ≡ true) (λ s. trim s.user_id ≡ s.user_id)
                  subjects (keys-All (λ s. s.user_id) subjects) known)
                h in
            ap (λ x. contains a (get x u)) sorted
            ∙ contains-get-sort_each a u m
            ∙ apply_from-any rt groups now a u start m pending k
            ∙ ap
                (λ b.
                  b
                  || any
                      (λ i. text_eq u i.user_id && (text_eq a i.action && decided rt groups now i))
                      pending)
                (contains-empty_effective_actions a u users)
            ∙ any-ext (λ i. text_eq u i.user_id && (text_eq a i.action && decided rt groups now i))
                (item_for rt registry (list_active st) now resource u a) pending
                (All-mono (IsQueried registry users actions resource trimmed)
                  (λ i.
                    (text_eq u i.user_id && (text_eq a i.action && decided rt groups now i))
                    ≡ item_for rt registry (list_active st) now resource u a i)
                  (λ i q.
                    ap (λ b. text_eq u i.user_id && (text_eq a i.action && b))
                      (decided-item_allowed rt st registry now users actions resource trimmed
                        nul_free i q))
                  pending queried)
            ∙ prepare_effective_actions-any rt registry (list_active st) now resource actions
                principals u a subjects pending h
        | inr (x, k) ↦ absurd (ground arith)
      ]

  unlisted :
      (pending : List PendingAction) (principals : List (Text × Principal)) (u a : Text)
      → prepare_effective_actions registry resource actions principals subjects ≡ ok pending
      → is_empty pending ≡ true
      → authorized principals u a ≡ false
  unlisted [] principals u a h e =
      sym (
        prepare_effective_actions-any rt registry (list_active st) now resource actions principals u
          a subjects [] h)
      ∙ unfold any in refl
  unlisted (i ∷ is) principals u a h e = absurd (ground arith)

  -- What `Project` does once the principals are resolved.
  abbrev pub listed_actions : List (Text × Principal) → Result Error (List (Text × List Text))
  listed_actions principals =
      prepare_effective_actions registry resource actions principals subjects >>= λ pending.
      if is_empty pending
      then ok (empty_effective_actions users)
      else (list_active st
            (record {
              principal_user_ids = users;
              action_names = actions;
              resource = resource;
              effects = Effect.allow ∷ Effect.deny ∷ [];
            })
            now
          >>= λ gs.
              apply_effective_action_decisions rt (empty_effective_actions users) pending gs now)

  pub listed_actions-authorized :
      (principals : List (Text × Principal)) (result : List (Text × List Text)) (u a : Text)
      → IsResolved principals
      → listed_actions principals ≡ ok result
      → contains a (get result u) ≡ authorized principals u a
  unfolding list_active
  listed_actions-authorized principals result u a resolved h =
      elim (Result-cases
        (prepare_effective_actions registry resource actions principals subjects)) [
          | inl (pending, e) ↦ elim (Bool-cases (is_empty pending)) [
            | inl k ↦
                let same : empty_effective_actions users ≡ result = ground arith in
                subst (λ r. contains a (get r u) ≡ authorized principals u a) same
                  (contains-empty_effective_actions a u users
                    ∙ sym (unlisted pending principals u a e k))
            | inr k ↦ applied principals pending result u a resolved e (ground arith)
          ]
          | inr (x, e) ↦ absurd (ground arith)
        ]
