-- ===== src/Authorization/Projector/Queried.antt =====
-- The query that each pending pair would make on its own.
use be_mycourse.Shared.{
  ◌≡◌, refl, subst, ◌∙◌, ap, true, false, none, some, List, [], ◌∷◌, ◌++◌, Text, contains, is_empty,
  trim, arith, Option-cases, Result-cases, inl, inr, ok, ok-injective,
}
use be_mycourse.Shared.Map.{lookup}
use be_mycourse.Shared.Every.{All, All-append}
use be_mycourse.Authorization.Domain.{Effect, Principal, Resource, GrantQuery}
use be_mycourse.Authorization.Registry.{Registry}
use be_mycourse.Authorization.Authorizer.{
  PreparedAuthorization, Preparation, stopped, prepared, prepare, query_of, normalize_request,
}
use be_mycourse.Authorization.Authorizer.Early.{prepared_lem}
use be_mycourse.Authorization.Grants.{trim_resource}
use be_mycourse.Authorization.Projector.{
  Subject, PendingAction, principal_of, request_for, prepare_subject, prepare_effective_actions,
}

abbrev pub pair_query : Resource → Text → Text → GrantQuery
pair_query resource u a = record {
  principal_user_ids = u ∷ [];
  action_names = a ∷ [];
  resource = resource;
  effects = Effect.allow ∷ Effect.deny ∷ [];
}

-- A resolved principal has the id that it was asked for.
abbrev pub IsResolved : List (Text × Principal) → Type 0
IsResolved principals = (u : Text) (p : Principal) → lookup u principals ≡ some p → p.id ≡ u

module _ (registry : Registry) (users actions : List Text) (resource : Resource)
    (trimmed : trim_resource resource ≡ resource) where
  pub record IsQueried (i : PendingAction) : Type 0 where
    pub user_in : contains i.user_id users ≡ true
    pub action_in : contains i.action actions ≡ true
    pub query : query_of i.prepared.request ≡ pair_query resource i.user_id i.action

  -- Its action is asked for and trimmed.
  abbrev pub IsAsked : Text → Type 0
  IsAsked a = (contains a actions ≡ true) × (trim a ≡ a)

  abbrev pub IsKnown : Subject → Type 0
  IsKnown s = (contains s.user_id users ≡ true) × (trim s.user_id ≡ s.user_id)

  prepared-identified :
      (principal : Principal) (s : Subject) (a : Text) (p : PreparedAuthorization)
      → prepare registry (request_for resource principal s a) ≡ prepared p
      → is_empty (trim principal.id) ≡ false
  unfolding normalize_request
  prepared-identified principal s a p h =
      let (policy, answer, c, e, n, built) =
        prepared_lem registry (request_for resource principal s a) p h in
      c.identified

  -- A request is prepared only for a principal that was resolved.
  prepared-resolved :
      (principals : List (Text × Principal)) (s : Subject) (a : Text) (p : PreparedAuthorization)
      → IsResolved principals
      → prepare registry (request_for resource (principal_of principals s.user_id) s a) ≡ prepared p
      → (principal_of principals s.user_id).id ≡ s.user_id
  prepared-resolved principals s a p resolved h =
      elim (Option-cases (lookup s.user_id principals)) [
        | inl missing ↦
            let named = prepared-identified (principal_of principals s.user_id) s a p h in
            let nameless : is_empty (trim (principal_of principals s.user_id).id) ≡ true =
              rw (missing, principal_of) (unfold trim in refl) in
            cc
        | inr (found, e) ↦ rw (e, principal_of) (resolved s.user_id found e)
      ]

  normalized-query :
      (principal : Principal) (s : Subject) (a : Text)
      → trim principal.id ≡ s.user_id
      → trim a ≡ a
      → query_of (normalize_request (request_for resource principal s a))
        ≡ pair_query resource s.user_id a
  unfolding normalize_request trim_resource
  normalized-query principal s a user action = λ i. record {
    principal_user_ids = user i ∷ [];
    action_names = action i ∷ [];
    resource = trimmed i;
    effects = Effect.allow ∷ Effect.deny ∷ [];
  }

  prepared-query :
      (principal : Principal) (s : Subject) (a : Text) (p : PreparedAuthorization)
      → principal.id ≡ s.user_id
      → trim s.user_id ≡ s.user_id
      → trim a ≡ a
      → prepare registry (request_for resource principal s a) ≡ prepared p
      → query_of p.request ≡ pair_query resource s.user_id a
  prepared-query principal s a p id user_trimmed action_trimmed h =
      let (policy, answer, c, e, n, built) =
        prepared_lem registry (request_for resource principal s a) p h in
      ap (λ (x : PreparedAuthorization). query_of x.request) built
      ∙ normalized-query principal s a (ap trim id ∙ user_trimmed) action_trimmed

  prepare_subject-All :
      (principals : List (Text × Principal)) (s : Subject)
      → IsResolved principals
      → IsKnown s
      → (as' : List Text) (items : List PendingAction) → All IsAsked as'
      → prepare_subject registry resource (principal_of principals s.user_id) s as' ≡ ok items
      → All IsQueried items
  unfolding prepare_subject
  prepare_subject-All principals s resolved known [] items asked h =
      subst (All IsQueried) (ok-injective h) tt
  prepare_subject-All principals s resolved known (b ∷ bs) items asked h =
      by_preparation (prepare registry (request_for resource principal s b)) refl
        (prepare_subject-All principals s resolved known bs)
    where
      principal : Principal
      principal = principal_of principals s.user_id

      Rest : Type 0
      Rest =
          (rest : List PendingAction)
          → All IsAsked bs
          → prepare_subject registry resource principal s bs ≡ ok rest
          → All IsQueried rest

      by_preparation :
          (x : Preparation)
          → prepare registry (request_for resource principal s b) ≡ x
          → Rest
          → All IsQueried items
      by_preparation (stopped d none) q ih = ih items asked.1 (ground arith)
      by_preparation (stopped d (some e)) q ih = absurd (ground arith)
      by_preparation (prepared p) q ih =
          elim (Result-cases (prepare_subject registry resource principal s bs)) [
            | inl (rest, e) ↦
                let item : PendingAction = record {
                  user_id = s.user_id;
                  action = b;
                  prepared = p;
                } in
                let both : item ∷ rest ≡ items = ground arith in
                subst (All IsQueried) both (
                  record {
                    user_in = known.0;
                    action_in = asked.0.0;
                    query =
                        prepared-query principal s b p
                          (prepared-resolved principals s b p resolved q) known.1 asked.0.1 q;
                  },
                  ih rest asked.1 e,
                )
            | inr (x, e) ↦ absurd (ground arith)
          ]

  -- Each pending pair is of a known user and an asked action, and its own query is the pair's.
  pub prepare_effective_actions-All :
      (principals : List (Text × Principal))
      → IsResolved principals
      → All IsAsked actions
      → (ss : List Subject) (items : List PendingAction) → All IsKnown ss
      → prepare_effective_actions registry resource actions principals ss ≡ ok items
      → All IsQueried items
  unfolding prepare_effective_actions
  prepare_effective_actions-All principals resolved asked [] items known h =
      subst (All IsQueried) (ok-injective h) tt
  prepare_effective_actions-All principals resolved asked (s ∷ ss) items known h =
      elim (Result-cases
        (prepare_subject registry resource (principal_of principals s.user_id) s actions)) [
          | inl (here, e) ↦
              elim (Result-cases
                (prepare_effective_actions registry resource actions principals ss)) [
                  | inl (rest, k) ↦
                      let both : here ++ rest ≡ items = ground arith in
                      subst (All IsQueried) both (
                        All-append IsQueried here rest
                          (prepare_subject-All principals s resolved known.0 actions here asked e)
                          (prepare_effective_actions-All principals resolved asked ss rest known.1
                            k))
                  | inr (x, k) ↦ absurd (ground arith)
                ]
          | inr (x, e) ↦ absurd (ground arith)
        ]
