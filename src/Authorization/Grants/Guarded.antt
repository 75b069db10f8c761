-- ===== src/Authorization/Grants/Guarded.antt =====
-- Every call of GrantService but `RevokeResource`, as a step on the repository's state: an error
-- leaves the state, and whoever changes it is a manager with a valid command.
use be_mycourse.Shared.{
  ◌≡◌, refl, ◌⊎◌, inl, inr, Bool, true, false, none, [], ◌∷◌, Text, Result, ok, err, ◌>>◌, guard,
  arith, Result-cases, trim, length, ◌==◌, if◌then◌else◌,
}
use be_mycourse.Shared.Int.{ℤ}
use be_mycourse.Authorization.Domain.{
  Principal, Resource, EvaluationContext, Grant, Error, invalid_grant,
}
use be_mycourse.Authorization.Registry.{Registry}
use be_mycourse.Authorization.Grants.{
  GrantRepository, GrantCommand, ReplaceGrantsCommand, trim_issuer, trim_resource,
  normalize_replace_command, require_manager, as_replacement, checked, grant, replace_normal,
  replace_many, replace, revoke, revoke_principal_resource,
}
use be_mycourse.Authorization.Grants.Managed.{
  IsManager, require_manager-IsManager, IsValidCommand, validate_management-IsValidCommand,
  normalize_replace_command_idem,
}

pub data Call : Type 0 where
  grants : GrantCommand → Call
  replaces : ReplaceGrantsCommand → Call
  replaces_many : ReplaceGrantsCommand → Call
  revokes : GrantCommand → Call
  revokes_principal : Principal → Text → Resource → EvaluationContext → Call

-- The command of a call in normal form; a call of the last kind has no effect and no actions.
abbrev pub IsGuarded : Registry → Call → Type 0
IsGuarded registry (grants c) =
    let r = as_replacement c in
    IsValidCommand registry r
    × IsManager registry r.issuer r.target_principal_ids r.resource r.context
IsGuarded registry (replaces c) =
    let r = normalize_replace_command c in
    IsValidCommand registry r
    × IsManager registry r.issuer r.target_principal_ids r.resource r.context
IsGuarded registry (replaces_many c) =
    let r = normalize_replace_command c in
    IsValidCommand registry r
    × IsManager registry r.issuer r.target_principal_ids r.resource r.context
IsGuarded registry (revokes c) =
    let r = as_replacement (record c { conditions = []; valid_from = none; expires_at = none }) in
    IsValidCommand registry r
    × IsManager registry r.issuer r.target_principal_ids r.resource r.context
IsGuarded registry (revokes_principal p t r k) =
    IsManager registry (trim_issuer p) (trim t ∷ []) (trim_resource r) k

module _ {S : Type 0} (repo : GrantRepository S) (registry : Registry) (now : ℤ) where
  abbrev after : S → Result Error S → S
  after s (ok s') = s'
  after s (err e) = s

  abbrev after_grant : S → Result Error (S × Grant) → S
  after_grant s (ok (s', g)) = s'
  after_grant s (err e) = s

  unfoldable pub step : S → Call → S
  step s (grants c) = after_grant s (grant repo registry now s c)
  step s (replaces c) = after s (replace repo registry now s c)
  step s (replaces_many c) = after s (replace_many repo registry now s c)
  step s (revokes c) = after s (revoke repo registry now s c)
  step s (revokes_principal p t r k) =
      after s (revoke_principal_resource repo registry now s p t r k)

  abbrev IsChecked : ReplaceGrantsCommand → Type 0
  IsChecked r =
      IsValidCommand registry r
      × IsManager registry r.issuer r.target_principal_ids r.resource r.context

  checked-guards : (r : ReplaceGrantsCommand) → checked repo registry now r ≡ ok tt → IsChecked r
  unfolding checked
  checked-guards r h = (
    validate_management-IsValidCommand registry r (ground arith),
    require_manager-IsManager registry r.issuer r.target_principal_ids r.resource r.context
        (ground arith),
  )

  grant-guarded :
      (s : S) (c : GrantCommand)
      → (after_grant s (grant repo registry now s c) ≡ s) ⊎ IsChecked (as_replacement c)
  unfolding grant
  grant-guarded s c = elim (Result-cases (checked repo registry now (as_replacement c))) [
    | inl (tt', e) ↦ inr (checked-guards (as_replacement c) e)
    | inr (x, e) ↦ inl (ground arith)
  ]

  replace_normal-guarded :
      (s : S) (c : ReplaceGrantsCommand)
      → (after s (replace_normal repo registry now s c) ≡ s) ⊎ IsChecked c
  unfolding replace_normal
  replace_normal-guarded s c = elim (Result-cases (checked repo registry now c)) [
    | inl (tt', e) ↦ inr (checked-guards c e)
    | inr (x, e) ↦ inl (ground arith)
  ]

  replace_many-guarded :
      (s : S) (c : ReplaceGrantsCommand)
      → (after s (replace_many repo registry now s c) ≡ s) ⊎ IsChecked (normalize_replace_command c)
  unfolding replace_many
  replace_many-guarded s c = replace_normal-guarded s (normalize_replace_command c)

  revoke-guarded :
      (s : S) (c : GrantCommand)
      → (after s (revoke repo registry now s c) ≡ s)
        ⊎ IsChecked
            (as_replacement (record c { conditions = []; valid_from = none; expires_at = none }))
  unfolding revoke
  revoke-guarded s c =
      elim (Result-cases (
        checked repo registry now
          (as_replacement (record c { conditions = []; valid_from = none; expires_at = none })))) [
            | inl (tt', e) ↦ inr (checked-guards _ e)
            | inr (x, e) ↦ inl (ground arith)
          ]

  -- `Replace` is `ReplaceMany` for a command with exactly one target, and an error for any other.
  pub replace-replace_many :
      (s : S) (c : ReplaceGrantsCommand)
      → replace repo registry now s c ≡ (
          if length (normalize_replace_command c).target_principal_ids == 1
          then replace_many repo registry now s c
          else err invalid_grant)
  unfolding replace replace_many
  replace-replace_many s c =
      rw (normalize_replace_command_idem c)
        (by_test (length (normalize_replace_command c).target_principal_ids == 1))
    where
      rest : Result Error S
      rest = replace_normal repo registry now s (normalize_replace_command c)

      by_test :
          (b : Bool) → (guard b invalid_grant >> rest) ≡ (if b then rest else err invalid_grant)
      by_test true = refl
      by_test false = refl

  replace-guarded :
      (s : S) (c : ReplaceGrantsCommand)
      → (after s (replace repo registry now s c) ≡ s) ⊎ IsChecked (normalize_replace_command c)
  replace-guarded s c = ground (arith, replace-replace_many s c, replace_many-guarded s c)

  revoke_principal_resource-guarded :
      (s : S) (p : Principal) (t : Text) (r : Resource) (k : EvaluationContext)
      → (after s (revoke_principal_resource repo registry now s p t r k) ≡ s)
        ⊎ IsManager registry (trim_issuer p) (trim t ∷ []) (trim_resource r) k
  unfolding revoke_principal_resource
  revoke_principal_resource-guarded s p t r k =
      elim (Result-cases
        (require_manager registry (trim_issuer p) (trim t ∷ []) (trim_resource r) k)) [
          | inl (tt', e) ↦ inr (
              require_manager-IsManager registry (trim_issuer p) (trim t ∷ []) (trim_resource r) k
                e)
          | inr (x, e) ↦ inl (ground arith)
        ]

  pub step-IsGuarded : (s : S) (c : Call) → (step s c ≡ s) ⊎ IsGuarded registry c
  unfolding step
  step-IsGuarded s (grants c) = grant-guarded s c
  step-IsGuarded s (replaces c) = replace-guarded s c
  step-IsGuarded s (replaces_many c) = replace_many-guarded s c
  step-IsGuarded s (revokes c) = revoke-guarded s c
  step-IsGuarded s (revokes_principal p t r k) = revoke_principal_resource-guarded s p t r k
