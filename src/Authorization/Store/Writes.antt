-- ===== src/Authorization/Store/Writes.antt =====
-- internal/authorization/infra/gorm_repository.go: Revoke and ReplaceMany, with the rows that they
-- end and make stated column by column.
use be_mycourse.Shared.{
  ◌≡◌, refl, ap, ◌∙◌, ◌↔◌, ◌⊎◌, inl, inr, true, ◌&&◌, not, none, some, List, [], ◌∷◌, ◌++◌, map,
  Text, text_eq, text_eq→eq, eq→text_eq, text_eq_refl, contains, contains-sort, IsStrict,
  IsDistinct, sort-IsStrict, is_empty, Bool-cases, arith,
}
use be_mycourse.Shared.Int.{ℤ}
use be_mycourse.Authorization.Domain.{is_nil→none, Grant, GrantQuery, GrantReplacement, is_nil}
use be_mycourse.Authorization.Store.{
  Store, effect_text, in_filter, is_filter, matches_query, revoke_row, revoke, unique_from,
  unique_sorted, replacement_row, rows_for, replacement_rows, replaced_query, replace_many,
}

-- An empty filter lets everything pass.
abbrev pub IsAmong : List Text → Text → Type 0
IsAmong values x = (values ≡ []) ⊎ (contains x values ≡ true)

abbrev pub IsThe : Text → Text → Type 0
IsThe value x = (value ≡ []) ⊎ (x ≡ value)

-- The grant has a principal, an action, a resource and an effect that the query asks for.
pub record IsSelected (q : GrantQuery) (g : Grant) : Type 0 where
  pub principal : IsAmong q.principal_user_ids g.principal_user_id
  pub action : IsAmong q.action_names g.action_name
  pub kind : IsThe q.resource.kind g.resource_type
  pub resource : IsThe q.resource.id g.resource_id
  pub effect : IsAmong (map effect_text q.effects) (effect_text g.effect)

-- The grant is one that a replacement makes room for: its effect is the one of the new grants.
pub record IsReplaced (r : GrantReplacement) (g : Grant) : Type 0 where
  pub principal : IsAmong r.principal_user_ids g.principal_user_id
  pub action : IsAmong r.managed_actions g.action_name
  pub kind : IsThe r.resource.kind g.resource_type
  pub resource : IsThe r.resource.id g.resource_id
  pub effect : effect_text g.effect ≡ effect_text r.effect

-- The grants before and after, row by row: those of `P` that are not revoked yet end now, and all
-- others stay, an earlier revocation with its time.
pub data Revoked (P : Grant → Type 0) (now : ℤ) : List Grant → List Grant → Type 0 where
  none_left : Revoked P now [] []
  ends :
      {g : Grant} {gs gs' : List Grant}
      → P g
      → g.revoked_at ≡ none
      → Revoked P now gs gs'
      → Revoked P now (g ∷ gs) (record g { revoked_at = some now } ∷ gs')
  stays :
      {g : Grant} {gs gs' : List Grant}
      → (P g → g.revoked_at ≡ none → ⊥)
      → Revoked P now gs gs'
      → Revoked P now (g ∷ gs) (g ∷ gs')

in_filter_iff : (values : List Text) (x : Text) → (in_filter values x ≡ true) ↔ IsAmong values x
unfolding contains
in_filter_iff [] x = (λ h. inl refl, λ h. refl)
in_filter_iff (v ∷ vs) x = (λ h. inr h, λ h. elim h [ inl e ↦ absurd cc | inr m ↦ m ])

is_filter_iff : (value x : Text) → (is_filter value x ≡ true) ↔ IsThe value x
is_filter_iff [] x = (λ h. inl refl, λ h. refl)
is_filter_iff (c ∷ s) x = (
  λ h. inr (text_eq→eq x (c ∷ s) h),
  λ h. elim h [ inl e ↦ absurd cc | inr e ↦ eq→text_eq x (c ∷ s) e ],
)

matches_query-IsSelected : (q : GrantQuery) (g : Grant) → matches_query q g ≡ true → IsSelected q g
unfolding matches_query
matches_query-IsSelected q g h = record {
  principal = (in_filter_iff q.principal_user_ids g.principal_user_id).0 (ground arith);
  action = (in_filter_iff q.action_names g.action_name).0 (ground arith);
  kind = (is_filter_iff q.resource.kind g.resource_type).0 (ground arith);
  resource = (is_filter_iff q.resource.id g.resource_id).0 (ground arith);
  effect = (in_filter_iff (map effect_text q.effects) (effect_text g.effect)).0 (ground arith);
}

IsSelected-matches_query : (q : GrantQuery) (g : Grant) → IsSelected q g → matches_query q g ≡ true
unfolding matches_query
IsSelected-matches_query q g s = ground (
  arith,
  (in_filter_iff q.principal_user_ids g.principal_user_id).1 s.principal,
  (in_filter_iff q.action_names g.action_name).1 s.action,
  (is_filter_iff q.resource.kind g.resource_type).1 s.kind,
  (is_filter_iff q.resource.id g.resource_id).1 s.resource,
  (in_filter_iff (map effect_text q.effects) (effect_text g.effect)).1 s.effect,
)

revoked_rows :
    (P : Grant → Type 0) (q : GrantQuery) (now : ℤ)
    → ((g : Grant) → (matches_query q g ≡ true) ↔ P g)
    → (gs : List Grant) → Revoked P now gs (map (revoke_row q now) gs)
unfolding revoke_row
revoked_rows P q now same [] = none_left
revoked_rows P q now same (g ∷ gs) = elim (Bool-cases (matches_query q g)) [
  | inl hit ↦ elim (Bool-cases (is_nil g.revoked_at)) [
    | inl live ↦
        rw (hit, live, revoke_row)
          (ends ((same g).0 hit) (is_nil→none g.revoked_at live) (revoked_rows P q now same gs))
    | inr gone ↦
        rw (hit, gone, revoke_row)
          (stays (λ p e. absurd (ground (arith, e))) (revoked_rows P q now same gs))
  ]
  | inr miss ↦ elim (Bool-cases (is_nil g.revoked_at)) [
    | inl live ↦
        rw (miss, live, revoke_row)
          (stays (λ p e. let hit = (same g).1 p in cc) (revoked_rows P q now same gs))
    | inr gone ↦
        rw (miss, gone, revoke_row)
          (stays (λ p e. let hit = (same g).1 p in cc) (revoked_rows P q now same gs))
  ]
]

-- Revoke ends, with the given time, exactly the grants that are not revoked yet and have a
-- principal, an action, a resource and an effect that the query asks for, and changes nothing else.
pub revoke_lem :
    (st : Store) (q : GrantQuery) (now : ℤ)
    → Revoked (IsSelected q) now st.grants (revoke st q now).grants
      × ((revoke st q now).actions ≡ st.actions)
      × ((revoke st q now).role_actions ≡ st.role_actions)
      × ((revoke st q now).role_bindings ≡ st.role_bindings)
unfolding revoke
revoke_lem st q now = (
  revoked_rows (IsSelected q) q now
      (λ g. (matches_query-IsSelected q g, IsSelected-matches_query q g)) st.grants,
  refl,
  refl,
  refl,
)

replaced_query-IsReplaced :
    (r : GrantReplacement) (g : Grant)
    → (matches_query (replaced_query r) g ≡ true) ↔ IsReplaced r g
unfolding contains
replaced_query-IsReplaced r g = (
  λ h.
      let s = matches_query-IsSelected (replaced_query r) g h in
      record {
        principal = s.principal;
        action = s.action;
        kind = s.kind;
        resource = s.resource;
        effect = elim (s.effect) [
          | inl none_asked ↦ absurd cc
          | inr one ↦ text_eq→eq (effect_text g.effect) (effect_text r.effect) (ground arith)
        ];
      },
  λ h. IsSelected-matches_query (replaced_query r) g (record {
    principal = h.principal;
    action = h.action;
    kind = h.kind;
    resource = h.resource;
    effect =
        inr (ground (arith, eq→text_eq (effect_text g.effect) (effect_text r.effect) h.effect));
  }),
)

-- The members of a list that are not empty, each once and in order.
pub record IsSetOf (texts members : List Text) : Type 0 where
  pub strict : IsStrict members
  pub same_members : (c : Text) → contains c members ≡ (not (is_empty c) && contains c texts)

contains-unique_from :
    (c : Text) (vs : List Text) → contains c (unique_from vs) ≡ (not (is_empty c) && contains c vs)
unfolding unique_from contains
contains-unique_from c [] = ground arith
contains-unique_from c (v ∷ vs) = elim (Bool-cases (text_eq c v)) [
  | inl same ↦ rw (text_eq→eq c v same) (elim (Bool-cases (is_empty v)) [
    | inl blank ↦ ground (arith, contains-unique_from v vs)
    | inr filled ↦ elim (Bool-cases (contains v (unique_from vs))) [
      | inl again ↦ ground (arith, text_eq_refl v)
      | inr new ↦ ground (arith, text_eq_refl v)
    ]
  ])
  | inr other ↦ ground (arith, contains-unique_from c vs)
]

unique_from-IsDistinct : (vs : List Text) → IsDistinct (unique_from vs)
unfolding unique_from
unique_from-IsDistinct [] = tt
unique_from-IsDistinct (v ∷ vs) = elim (Bool-cases (is_empty v)) [
  | inl blank ↦ rw (blank, unique_from) (unique_from-IsDistinct vs)
  | inr filled ↦ elim (Bool-cases (contains v (unique_from vs))) [
    | inl again ↦ rw (filled, again, unique_from) (unique_from-IsDistinct vs)
    | inr new ↦ rw (filled, new, unique_from) (new, unique_from-IsDistinct vs)
  ]
]

unique_sorted-IsSetOf : (vs : List Text) → IsSetOf vs (unique_sorted vs)
unfolding unique_sorted
unique_sorted-IsSetOf vs = record {
  strict = sort-IsStrict (unique_from vs) (unique_from-IsDistinct vs);
  same_members = λ c. contains-sort c (unique_from vs) ∙ contains-unique_from c vs;
}

-- A grant for every principal and every action, with the columns of the replacement.
abbrev pub grid : GrantReplacement → (Text → Text → Text) → ℤ → List Text → List Text → List Grant
grid r new_id now [] actions = []
grid r new_id now (p ∷ ps) actions = map cell actions ++ grid r new_id now ps actions
  where
    cell : Text → Grant
    cell a = record {
      id = new_id p a;
      principal_user_id = p;
      action_name = a;
      resource_type = r.resource.kind;
      resource_id = r.resource.id;
      effect = r.effect;
      conditions = r.conditions;
      valid_from = r.valid_from;
      expires_at = r.expires_at;
      granted_by_user_id = r.granted_by_user_id;
      created_at = now;
      revoked_at = none;
    }

rows_for-grid :
    (r : GrantReplacement) (new_id : Text → Text → Text) (now : ℤ) (ps as' : List Text)
    → rows_for r new_id now ps as' ≡ grid r new_id now ps as'
unfolding rows_for replacement_row
rows_for-grid r new_id now [] as' = refl
rows_for-grid r new_id now (p ∷ ps) as' =
    ap (λ rest. map (replacement_row r new_id now p) as' ++ rest)
      (rows_for-grid r new_id now ps as')

-- The rows after a replacement.
pub record Replaced (r : GrantReplacement) (new_id : Text → Text → Text) (now : ℤ) (st st' : Store)
    : Type 0 where
  pub old : List Grant
  pub principals : List Text
  pub actions : List Text
  pub rows : st'.grants ≡ old ++ grid r new_id now principals actions
  pub ended : Revoked (IsReplaced r) now st.grants old
  pub for_principals : IsSetOf r.principal_user_ids principals
  pub for_actions : IsSetOf r.actions actions

-- ReplaceMany ends, with the given time, exactly the grants not revoked yet that have one of the
-- principals, one of the managed actions, the resource and the effect of the replacement, and adds
-- one grant with its effect, conditions and validity for each pair of a non-empty principal and a
-- non-empty action.
pub replace_many_lem :
    (st : Store) (r : GrantReplacement) (new_id : Text → Text → Text) (now : ℤ)
    → Replaced r new_id now st (replace_many st r new_id now)
unfolding replace_many revoke replacement_rows
replace_many_lem st r new_id now = record {
  old = map (revoke_row (replaced_query r) now) st.grants;
  principals = unique_sorted r.principal_user_ids;
  actions = unique_sorted r.actions;
  rows =
      ap (λ new. map (revoke_row (replaced_query r) now) st.grants ++ new)
        (rows_for-grid r new_id now (unique_sorted r.principal_user_ids) (unique_sorted r.actions));
  ended =
      revoked_rows (IsReplaced r) (replaced_query r) now (replaced_query-IsReplaced r) st.grants;
  for_principals = unique_sorted-IsSetOf r.principal_user_ids;
  for_actions = unique_sorted-IsSetOf r.actions;
}
