-- ===== src/Authorization/Registry/Catalog.antt =====
-- What a registry that was built holds.
use be_mycourse.Shared.{
  ◌≡◌, ◌≢◌, refl, subst, inl, inr, ◌⊎◌, true, false, Option, none, some, List, [], ◌∷◌, Text,
  text_eq, text_eq→eq, text_eq_iff, ok-injective, >>=-ok, trim, trim-trim, is_empty, ok, arith,
  Bool-cases, Result-cases,
}
use be_mycourse.Shared.Map.{lookup, insert, is_some, lookup-insert}
use be_mycourse.Shared.Every.{All, All-mono, lookup-All}
use be_mycourse.Authorization.Domain.{PolicyProvider, ActionDefinition}
use be_mycourse.Authorization.Registry.{
  Registry, trim_action, add_actions, add_provider, add_providers, new_registry, provider, action,
}

-- An entry of the catalog: filed under its own trimmed name, with a boundary permission.
pub record IsFiled (entry : Text × ActionDefinition) : Type 0 where
  pub filed : entry.1.name ≡ entry.0
  pub named : is_empty entry.0 ≡ false
  pub trimmed : trim entry.0 ≡ entry.0
  pub type_trimmed : trim entry.1.resource_type ≡ entry.1.resource_type
  pub bounded : is_empty entry.1.boundary_permission ≡ false

-- Its resource type has a provider.
abbrev pub IsProvided : List (Text × PolicyProvider) → Text × ActionDefinition → Type 0
IsProvided ps entry = is_some (lookup entry.1.resource_type ps) ≡ true

pub record IsWellFormed (r : Registry) : Type 0 where
  pub filed : All IsFiled r.actions
  pub provided : All (IsProvided r.providers) r.actions

insert-All {ℓ} :
    {V : Type ℓ} (P : Text × V → Type 0) (k : Text) (v : V) (m : List (Text × V))
    → lookup k m ≡ none
    → P (k, v)
    → All P m
    → All P (insert k v m)
unfolding insert lookup
insert-All P k v [] e p h = (p, tt)
insert-All P k v ((j, w) ∷ m) e p h = elim (Bool-cases (text_eq k j)) [
  | inl same ↦ cc (rw same at e)
  | inr other ↦ rw other (h.0, insert-All P k v m (rw other at e) p h.1)
]

-- A step of the loop that succeeds has passed its tests.
record IsAdded (t : Text) (a : ActionDefinition) (known : List (Text × ActionDefinition))
    : Type 0 where
  named : is_empty (trim_action a).name ≡ false
  typed : text_eq (trim_action a).resource_type t ≡ true
  bounded : is_empty (trim_action a).boundary_permission ≡ false
  fresh : lookup (trim_action a).name known ≡ none

add_actions-step :
    (t : Text) (a : ActionDefinition) (rest : List ActionDefinition)
    (known known' : List (Text × ActionDefinition))
    → add_actions t (a ∷ rest) known ≡ ok known'
    → IsAdded t a known
      × (add_actions t rest (insert (trim_action a).name (trim_action a) known) ≡ ok known')
unfolding add_actions
add_actions-step t a rest known known' e = (
  record {
    named = ground arith;
    typed = ground arith;
    bounded = ground arith;
    fresh = ground arith;
  },
  ground arith,
)

add_actions-nil :
    (t : Text) (known known' : List (Text × ActionDefinition))
    → add_actions t [] known ≡ ok known'
    → known ≡ known'
unfolding add_actions
add_actions-nil t known known' e = ok-injective e

-- Whatever the tests of the loop give for a new action holds of the whole catalog.
add_actions-All :
    (P : Text × ActionDefinition → Type 0) (t : Text)
    → ((a : ActionDefinition) (known : List (Text × ActionDefinition))
        → IsAdded t a known
        → P ((trim_action a).name, trim_action a))
    → (new : List ActionDefinition) (known known' : List (Text × ActionDefinition)) → All P known
    → add_actions t new known ≡ ok known'
    → All P known'
add_actions-All P t rule [] known known' h e = subst (All P) (add_actions-nil t known known' e) h
add_actions-All P t rule (a ∷ new) known known' h e =
    let (added, rest) = add_actions-step t a new known known' e in
    add_actions-All P t rule new _ known'
      (insert-All P (trim_action a).name (trim_action a) known added.fresh (rule a known added) h)
      rest

IsFiled-new :
    (t : Text) (a : ActionDefinition) (known : List (Text × ActionDefinition))
    → IsAdded t a known
    → IsFiled ((trim_action a).name, trim_action a)
unfolding trim_action
IsFiled-new t a known h = record {
  filed = refl;
  named = h.named;
  trimmed = trim-trim a.name;
  type_trimmed = trim-trim a.resource_type;
  bounded = h.bounded;
}

-- Before its provider is entered, an action may be of the type that is being added.
abbrev IsProvidedOr : Text → List (Text × PolicyProvider) → Text × ActionDefinition → Type 0
IsProvidedOr t ps entry = IsProvided ps entry ⊎ (entry.1.resource_type ≡ t)

IsProvidedOr-insert :
    (t : Text) (p : PolicyProvider) (ps : List (Text × PolicyProvider))
    (entry : Text × ActionDefinition)
    → IsProvidedOr t ps entry
    → IsProvided (insert t p ps) entry
IsProvidedOr-insert t p ps entry h =
    rw (lookup-insert t entry.1.resource_type p ps)
      (ground (arith, text_eq_iff entry.1.resource_type t))

add_provider-step :
    (r r' : Registry) (p : PolicyProvider)
    → add_provider r (some p) ≡ ok r'
    → (known : List (Text × ActionDefinition)) × (add_actions
          (trim p.resource_type)
          p.actions
          r.actions
        ≡ ok known)
      × (r' ≡ record { providers = insert (trim p.resource_type) p r.providers; actions = known })
unfolding add_provider
add_provider-step r r' p e =
    elim (Result-cases (add_actions (trim p.resource_type) p.actions r.actions)) [
      | inl (known, added) ↦ (known, added, ground arith)
      | inr (error, failed) ↦ absurd (ground arith)
    ]

add_provider-nil : (r r' : Registry) → add_provider r none ≢ ok r'
unfolding add_provider
add_provider-nil r r' e = cc

add_provider-IsWellFormed :
    (r r' : Registry) (p : Option PolicyProvider)
    → IsWellFormed r
    → add_provider r p ≡ ok r'
    → IsWellFormed r'
add_provider-IsWellFormed r r' none w e = absurd (add_provider-nil r r' e)
add_provider-IsWellFormed r r' (some p) w e =
    let (known, added, built) = add_provider-step r r' p e in
    let t = trim p.resource_type in
    rw built (record {
      filed = add_actions-All IsFiled t (IsFiled-new t) p.actions r.actions known w.filed added;
      provided =
          All-mono (IsProvidedOr t r.providers) (IsProvided (insert t p r.providers))
            (IsProvidedOr-insert t p r.providers) known
            (add_actions-All (IsProvidedOr t r.providers) t
              (λ a seen h. inr (text_eq→eq (trim_action a).resource_type t h.typed)) p.actions
              r.actions known
              (All-mono (IsProvided r.providers) (IsProvidedOr t r.providers) (λ x h. inl h)
                r.actions w.provided)
              added);
    })

add_providers-IsWellFormed :
    (ps : List (Option PolicyProvider)) (r r' : Registry)
    → IsWellFormed r
    → add_providers r ps ≡ ok r'
    → IsWellFormed r'
unfolding add_providers
add_providers-IsWellFormed [] r r' w e = subst IsWellFormed (ok-injective e) w
add_providers-IsWellFormed (p ∷ ps) r r' w e =
    let (next, added, rest) = >>=-ok (add_provider r p) (λ q. add_providers q ps) e in
    add_providers-IsWellFormed ps next r' (add_provider-IsWellFormed r next p w added) rest

-- A registry that `NewRegistry` returns files every action under its own trimmed, non-empty name,
-- with a boundary permission and with a provider for its resource type.
pub new_registry-IsWellFormed :
    (ps : List (Option PolicyProvider)) (r : Registry) → new_registry ps ≡ ok r → IsWellFormed r
unfolding new_registry
new_registry-IsWellFormed ps r e =
    add_providers-IsWellFormed ps (record { providers = []; actions = [] }) r
      (record { filed = tt; provided = tt }) e

-- So an action that is found has a name, a boundary permission and a provider.
pub action-provider :
    (r : Registry) (name : Text) (a : ActionDefinition)
    → IsWellFormed r
    → action r name ≡ some a
    → (is_some (provider r a.resource_type) ≡ true)
      × (a.name ≡ trim name)
      × (is_empty a.boundary_permission ≡ false)
unfolding action provider
action-provider r name a w e =
    let filed = lookup-All IsFiled (trim name) r.actions w.filed e in
    let provided = lookup-All (IsProvided r.providers) (trim name) r.actions w.provided e in
    (rw filed.type_trimmed provided, filed.filed, filed.bounded)
