-- ===== src/Authorization/Authorizer/Verdict.antt =====
-- The decision on a prepared request: never an error, deny before allow, and whatever order the
-- grants come in.
use be_mycourse.Shared.{
  ◌≡◌, sym, ◌∙◌, ◌&&◌, ◌||◌, not, none, List, Text, any, sort-perm, ok, arith, Perm,
}
use mathlib.Core.List.Perm
use be_mycourse.Shared.Perms.{keep-perm, is_empty-sort}
use be_mycourse.Shared.Int.{ℤ}
use be_mycourse.Authorization.Domain.{Value, Grant, PolicyDecision, allowed}
use be_mycourse.Authorization.Conditions.{Runtime}
use be_mycourse.Authorization.Authorizer.{
  PreparedAuthorization, is_policy_allow, deny_for, decide_on, decide_prepared,
}
use be_mycourse.Authorization.Authorizer.Matching.{
  denies, allows, ids, matching_grant_ids_lem, is_empty-ids,
}

-- The order of the ids does not count.
decide_on-perm :
    (d : PolicyDecision) {as' bs ds es : List Text}
    → Perm as' bs
    → Perm ds es
    → decide_on d (ok (as', ds)) ≡ decide_on d (ok (bs, es))
unfolding decide_on
decide_on-perm d {as'} {bs} {ds} {es} allows denies = ground (
  arith,
  sort-perm allows,
  sort-perm denies,
  is_empty-sort as',
  is_empty-sort bs,
  is_empty-sort ds,
  is_empty-sort es,
)

module _ (rt : Runtime) (p : PreparedAuthorization) (now : ℤ) where
  abbrev attributes : List (Text × Value)
  attributes = p.request.context.attributes

  decide_prepared-ids :
      (gs : List Grant)
      → decide_prepared rt p gs now
        ≡ decide_on p.provider_decision (
            ok (
              ids rt attributes now (allows rt attributes now) gs,
              ids rt attributes now (denies rt attributes now) gs,
            ))
  unfolding decide_prepared
  decide_prepared-ids gs = rw (matching_grant_ids_lem rt attributes now gs)

  -- The request is allowed exactly when no grant in force denies it and either the provider or a
  -- grant in force allows it.
  pub allowed-decide_prepared :
      (gs : List Grant)
      → allowed (decide_prepared rt p gs now).0 ≡ (
          not (any (denies rt attributes now) gs)
          && (is_policy_allow p.provider_decision.effect || any (allows rt attributes now) gs))
  unfolding allowed decide_on deny_for
  allowed-decide_prepared gs = rw (decide_prepared-ids gs) (
      ground (
        arith,
        is_empty-ids rt attributes now (denies rt attributes now) gs,
        is_empty-ids rt attributes now (allows rt attributes now) gs,
      ))

  pub decide_prepared-no_error : (gs : List Grant) → (decide_prepared rt p gs now).1 ≡ none
  unfolding decide_on deny_for
  decide_prepared-no_error gs = rw (decide_prepared-ids gs) (ground arith)

  -- The decision, its reason and its ids do not depend on the order of the grants.
  pub decide_prepared-perm :
      {gs hs : List Grant} → Perm gs hs → decide_prepared rt p gs now ≡ decide_prepared rt p hs now
  decide_prepared-perm {gs} {hs} r =
      decide_prepared-ids gs
      ∙ decide_on-perm p.provider_decision
          (Perm.map (λ g. g.id) (keep-perm (allows rt attributes now) r))
          (Perm.map (λ g. g.id) (keep-perm (denies rt attributes now) r))
      ∙ sym (decide_prepared-ids hs)
