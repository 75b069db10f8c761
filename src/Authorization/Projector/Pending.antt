-- ===== src/Authorization/Projector/Pending.antt =====
-- The pairs that `prepareEffectiveActions` leaves pending, against `Authorize` for each pair.
use be_mycourse.Shared.{
  ◌≡◌, refl, ◌∙◌, ap, ap₂, Bool, false, ◌&&◌, ◌||◌, Option, none, some, List, [], ◌∷◌, ◌++◌, Text,
  contains, any, text_eq, text_eq→eq, arith, Result-cases, inl, inr, ok, Result,
}
use be_mycourse.Shared.Int.{ℤ}
use be_mycourse.Authorization.Domain.{
  Principal, Resource, Grant, GrantQuery, Decision, Error, allowed,
}
use be_mycourse.Authorization.Conditions.{Runtime}
use be_mycourse.Authorization.Registry.{Registry}
use be_mycourse.Authorization.Authorizer.{
  PreparedAuthorization, Preparation, stopped, prepared, prepare, authorize, decide_listed,
  query_of,
}
use be_mycourse.Authorization.Authorizer.Early.{prepare-stopped}
use be_mycourse.Authorization.Authorizer.Access.{authorize-prepared, authorize-stopped}
use be_mycourse.Authorization.Projector.{
  Subject, PendingAction, principal_of, request_for, prepare_subject, prepare_effective_actions,
}

module _ (rt : Runtime) (registry : Registry)
    (list_active : GrantQuery → ℤ → Result Error (List Grant)) (now : ℤ) (resource : Resource) where
  -- What `Authorize` says to the pair.
  abbrev pub is_authorized : Principal → Subject → Text → Bool
  is_authorized principal s a =
      allowed (authorize rt registry list_active now (request_for resource principal s a)).0

  -- What it says to a pending item.
  abbrev pub item_allowed : PendingAction → Bool
  item_allowed i =
      allowed (decide_listed rt i.prepared (list_active (query_of i.prepared.request) now) now).0

  -- The item of a pair, if it is allowed.
  abbrev pub item_for : Text → Text → PendingAction → Bool
  item_for u a i = text_eq u i.user_id && (text_eq a i.action && item_allowed i)

  stopped_denied :
      (principal : Principal) (s : Subject) (a : Text) (d : Decision) (e : Option Error)
      → prepare registry (request_for resource principal s a) ≡ stopped d e
      → is_authorized principal s a ≡ false
  unfolding allowed
  stopped_denied principal s a d e h =
      let r = request_for resource principal s a in
      ground (
        arith,
        prepare-stopped registry r d e h,
        authorize-stopped rt registry list_active now r d e h,
      )

  prepared_agrees :
      (principal : Principal) (s : Subject) (a : Text) (p : PreparedAuthorization)
      → prepare registry (request_for resource principal s a) ≡ prepared p
      → is_authorized principal s a
        ≡ item_allowed (record { user_id = s.user_id; action = a; prepared = p })
  prepared_agrees principal s a p h =
      ap (λ (x : Decision × Option Error). allowed x.0)
        (authorize-prepared rt registry list_active now (request_for resource principal s a) p h)

  prepare_subject-any :
      (principal : Principal) (s : Subject) (u a : Text) (as' : List Text)
      (items : List PendingAction)
      → prepare_subject registry resource principal s as' ≡ ok items
      → any (item_for u a) items
        ≡ (text_eq u s.user_id && (contains a as' && is_authorized principal s a))
  unfolding prepare_subject any contains
  prepare_subject-any principal s u a [] items h = ground arith
  prepare_subject-any principal s u a (b ∷ bs) items h =
      by_preparation (prepare registry (request_for resource principal s b)) refl
        (prepare_subject-any principal s u a bs)
    where
      Rest : Type 0
      Rest =
          (rest : List PendingAction)
          → prepare_subject registry resource principal s bs ≡ ok rest
          → any (item_for u a) rest
            ≡ (text_eq u s.user_id && (contains a bs && is_authorized principal s a))

      Goal : Type 0
      Goal =
          any (item_for u a) items
          ≡ (text_eq u s.user_id && (contains a (b ∷ bs) && is_authorized principal s a))

      by_preparation :
          (x : Preparation)
          → prepare registry (request_for resource principal s b) ≡ x
          → Rest
          → Goal
      by_preparation (stopped d none) q ih =
          ground (arith, ih items, stopped_denied principal s b d none q, text_eq→eq a b)
      by_preparation (stopped d (some e)) q ih = absurd (ground arith)
      by_preparation (prepared p) q ih =
          elim (Result-cases (prepare_subject registry resource principal s bs)) [
            | inl (rest, e) ↦
                ground (arith, ih rest e, prepared_agrees principal s b p q, text_eq→eq a b)
            | inr (x, e) ↦ absurd (ground arith)
          ]

  any-append :
      (p : PendingAction → Bool) (xs ys : List PendingAction)
      → any p (xs ++ ys) ≡ (any p xs || any p ys)
  unfolding any
  any-append p [] ys = refl
  any-append p (x ∷ xs) ys = ground (arith, any-append p xs ys)

  -- An allowed item of the pair is pending exactly when the pair is one of a subject and an asked
  -- action that `Authorize` allows.
  pub prepare_effective_actions-any :
      (actions : List Text) (principals : List (Text × Principal)) (u a : Text) (ss : List Subject)
      (items : List PendingAction)
      → prepare_effective_actions registry resource actions principals ss ≡ ok items
      → any (item_for u a) items
        ≡ any
            (λ s.
              text_eq u s.user_id
              && (contains a actions && is_authorized (principal_of principals s.user_id) s a))
            ss
  unfolding prepare_effective_actions
  prepare_effective_actions-any actions principals u a [] items h = unfold any in ground arith
  prepare_effective_actions-any actions principals u a (s ∷ ss) items h =
      elim (Result-cases
        (prepare_subject registry resource (principal_of principals s.user_id) s actions)) [
          | inl (here, e) ↦
              elim (Result-cases
                (prepare_effective_actions registry resource actions principals ss)) [
                  | inl (rest, k) ↦
                      let both : items ≡ here ++ rest = ground arith in
                      rw both (
                        any-append (item_for u a) here rest
                        ∙ ap₂ ◌||◌
                            (prepare_subject-any (principal_of principals s.user_id) s u a actions
                              here e)
                            (prepare_effective_actions-any actions principals u a ss rest k)
                        ∙ unfold any in refl)
                  | inr (x, k) ↦ absurd (ground arith)
                ]
          | inr (x, e) ↦ absurd (ground arith)
        ]
