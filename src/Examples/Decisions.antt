-- ===== src/Examples/Decisions.antt =====
-- The decision engine and the projector on the shared data.
use be_mycourse.Shared.{
  ◌≡◌, refl, sym, ◌∙◌, ap, ◌↔◌, ◌⊎◌, Bool, true, ◌++◌, Option, none, some, List, [], ◌∷◌, Text, all,
  text_eq, text_ltb, text_eq→eq, trim, contains, codes, map, keep, Result, ok, err, arith,
  ok-injective, Bool-cases, inl, inr,
}
use mathlib.Core.List.Perm
use be_mycourse.Shared.Every.{All}
use be_mycourse.Shared.Int.{ℤ, pos}
use be_mycourse.Shared.Map.{lookup, get}
use be_mycourse.Authorization.Domain.{
  Effect, Principal, Grant, GrantQuery, Error, external, allowed, Condition, PolicyEffect,
  course_facts, string_equals, str, unset, AuthorizationRequest,
}
use be_mycourse.Authorization.Conditions.{conditions_match}
use be_mycourse.Authorization.Conditions.Fits.{Holds, conditions_match_iff}
use be_mycourse.Authorization.Registry.{provider}
use be_mycourse.Authorization.Registry.Catalog.{IsWellFormed, new_registry-IsWellFormed}
use be_mycourse.Authorization.Authorizer.{
  PreparedAuthorization, authorize, normalize_request, decide_prepared,
}
use be_mycourse.Authorization.Authorizer.Verdict.{decide_prepared-perm}
use be_mycourse.Authorization.Authorizer.Access.{
  IsGranted, authorize_iff, authorize_fails_closed, authorize_up_to_blanks,
}
use be_mycourse.Authorization.Projector.{
  project, normalize_subjects, group_grants_by_decision, decision_key,
}
use be_mycourse.Authorization.Projector.Grouping.{is_nul_free, get-group_grants_by_decision}
use be_mycourse.Authorization.Projector.Agreement.{IsSound}
use be_mycourse.Authorization.Projector.Queried.{IsResolved}
use be_mycourse.Authorization.Projector.Effective.{may, project-authorize}
use be_mycourse.Authorization.Store.{list_active}
use be_mycourse.Authorization.Store.Batch.{is_for}
use be_mycourse.Course.{course_policy_provider, evaluate_facts}
use be_mycourse.Course.Ownership.{IsGrantedByRow, authorize_course}
use be_mycourse.Examples.Data.{
  runtime, registry, registry-new, store, listing, edit_request, effective_request, resolve, denial,
  editor_grant, view, edit, user,
}

-- The editor may edit, and nobody may when the grants cannot be listed.
edit_allowed : allowed (authorize runtime registry listing (pos 100) edit_request).0 ≡ true
unfolding authorize list_active trim text_eq allowed contains evaluate_facts all text_ltb
edit_allowed = refl

authorize_iff_example :
    (allowed (authorize runtime registry listing (pos 100) edit_request).0 ≡ true)
    ↔ IsGranted runtime registry listing (pos 100) edit_request
authorize_iff_example = authorize_iff runtime registry listing (pos 100) edit_request

abbrev broken : GrantQuery → ℤ → Result Error (List Grant)
broken q now = err (external (codes "timeout"))

edit_error :
    (authorize runtime registry broken (pos 100) edit_request).1 ≡ some (external (codes "timeout"))
unfolding authorize trim text_eq contains evaluate_facts
edit_error = refl

authorize_fails_closed_example :
    (authorize runtime registry broken (pos 100) edit_request).0.effect ≡ Effect.deny
authorize_fails_closed_example =
    authorize_fails_closed runtime registry broken (pos 100) edit_request
      (external (codes "timeout")) edit_error

abbrev spaced_request : AuthorizationRequest
spaced_request = record edit_request {
  action = codes " " ++ (edit_request.action ++ codes "  ");
  resource = record {
    kind = edit_request.resource.kind ++ codes " ";
    id = codes " " ++ edit_request.resource.id;
  };
}

authorize_up_to_blanks_example :
    authorize runtime registry listing (pos 100) spaced_request
    ≡ authorize runtime registry listing (pos 100) edit_request
unfolding trim
authorize_up_to_blanks_example =
    authorize_up_to_blanks runtime registry listing (pos 100) spaced_request edit_request (record {
      same_kind = refl;
      same_id = refl;
      same_permissions = refl;
      same_action = refl;
      same_type = refl;
      same_resource = refl;
      same_context = refl;
    })

abbrev prepared_edit : PreparedAuthorization
prepared_edit = record {
  request = edit_request;
  provider_decision = record { effect = PolicyEffect.neutral; reason = unset };
}

decide_prepared-perm_example :
    decide_prepared runtime prepared_edit (editor_grant ∷ denial ∷ []) (pos 100)
    ≡ decide_prepared runtime prepared_edit (denial ∷ editor_grant ∷ []) (pos 100)
decide_prepared-perm_example =
    decide_prepared-perm runtime prepared_edit (pos 100) (Perm.swap denial editor_grant [])

abbrev condition : Condition
condition = record {
  operator = string_equals;
  key = codes "ip";
  values = str (codes "a") ∷ str (codes "b") ∷ [];
}

conditions_match_iff_example :
    ((b : Bool) × (conditions_match runtime (condition ∷ []) ((codes "ip", str (codes "b")) ∷ [])
        ≡ ok b))
    × ((conditions_match runtime (condition ∷ []) ((codes "ip", str (codes "b")) ∷ []) ≡ ok true)
        ↔ All (Holds runtime ((codes "ip", str (codes "b")) ∷ [])) (condition ∷ []))
conditions_match_iff_example =
    conditions_match_iff runtime (condition ∷ []) ((codes "ip", str (codes "b")) ∷ [])

condition_met :
    conditions_match runtime (condition ∷ []) ((codes "ip", str (codes "b")) ∷ []) ≡ ok true
unfolding conditions_match trim text_eq
condition_met = refl

new_registry-IsWellFormed_example : IsWellFormed registry
new_registry-IsWellFormed_example =
    new_registry-IsWellFormed (some course_policy_provider ∷ []) registry registry-new

u2_free : is_nul_free (codes "u2") ≡ true
unfolding all
u2_free = refl

u3_free : is_nul_free (codes "u3") ≡ true
unfolding all
u3_free = refl

get-group_grants_by_decision_example :
    get (group_grants_by_decision (editor_grant ∷ denial ∷ [])) (decision_key (codes "u2") edit)
    ≡ keep (is_for (codes "u2") edit) (editor_grant ∷ denial ∷ [])
get-group_grants_by_decision_example =
    get-group_grants_by_decision (editor_grant ∷ denial ∷ []) (codes "u2") edit u2_free
      (u2_free, (u3_free, tt))

lookup-resolved :
    (u : Text) (p : Principal) (vs : List Text)
    → lookup u (map (λ v. (v, user v)) vs) ≡ some p
    → p.id ≡ u
unfolding lookup
lookup-resolved u p [] k = absurd (ground arith)
lookup-resolved u p (v ∷ vs) k = elim (Bool-cases (text_eq u v)) [
  | inl same ↦
      let here : some (user v) ≡ some p = ground arith in
      sym (ap id_of here) ∙ sym (text_eq→eq u v same)
  | inr other ↦ lookup-resolved u p vs (ground arith)
]
  where
    id_of : Option Principal → Text
    id_of none = u
    id_of (some q) = q.id

resolve-IsResolved :
    (us : List Text) (principals : List (Text × Principal))
    → resolve us ≡ ok principals
    → IsResolved principals
resolve-IsResolved us principals h u p e =
    lookup-resolved u p us (ap (λ m. lookup u m) (ok-injective h) ∙ e)

effective-IsSound : IsSound resolve effective_request
unfolding normalize_subjects trim text_eq text_ltb contains all
effective-IsSound = record { nul_free = (refl, (refl, tt)); resolved = resolve-IsResolved }

abbrev effective : List (Text × List Text)
effective = (codes "u2", view ∷ edit ∷ []) ∷ (codes "u1", view ∷ edit ∷ []) ∷ []

abbrev principals : List (Text × Principal)
principals = (codes "u1", user (codes "u1")) ∷ (codes "u2", user (codes "u2")) ∷ []

effective_resolved :
    resolve (map (λ s. s.user_id) (normalize_subjects effective_request.subjects)) ≡ ok principals
unfolding normalize_subjects trim text_eq text_ltb contains
effective_resolved = refl

effective_listed :
    project runtime registry listing resolve (pos 100) effective_request ≡ ok effective
unfolding project list_active trim text_eq text_ltb contains evaluate_facts all
effective_listed = refl

project-authorize_example :
    contains edit (get effective (codes "u2"))
    ≡ may runtime registry listing (pos 100) principals effective_request (codes "u2") edit
project-authorize_example =
    project-authorize runtime registry store (pos 100) resolve effective_request principals
      effective (codes "u2") edit effective-IsSound effective_resolved effective_listed

course_owned :
    provider registry (normalize_request edit_request).resource.kind ≡ some course_policy_provider
unfolding provider normalize_request trim text_eq
course_owned = refl

authorize_course_example :
    (edit_request.context.domain_facts ≡ course_facts true)
    ⊎ IsGrantedByRow runtime listing (pos 100) edit_request
authorize_course_example =
    authorize_course runtime registry listing (pos 100) edit_request course_owned edit_allowed
