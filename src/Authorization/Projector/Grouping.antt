-- ===== src/Authorization/Projector/Grouping.antt =====
-- The grants of a decision key are the grants of its principal and action, where no user id holds
-- a NUL byte.
use mathlib.Core.List.{append_assoc, append-nil}
use be_mycourse.Shared.{
  ◌≡◌, refl, sym, ◌∙◌, Bool, true, ◌&&◌, not, List, [], ◌∷◌, ◌++◌, Text, keep, text_eq, text_eq→eq,
  text_eq_iff, ◌==◌, all, arith,
}
use be_mycourse.Shared.Map.{insert, get, lookup, get-insert}
use be_mycourse.Shared.Every.{All}
use be_mycourse.Authorization.Domain.{Grant}
use be_mycourse.Authorization.Store.Batch.{is_for}
use be_mycourse.Authorization.Projector.{decision_key, group_from, group_grants_by_decision}

abbrev has_key : Text → Grant → Bool
has_key k g = text_eq k (decision_key g.principal_user_id g.action_name)

get-group_from :
    (result : List (Text × List Grant)) (gs : List Grant) (k : Text)
    → get (group_from result gs) k ≡ get result k ++ keep (has_key k) gs
unfolding group_from keep
get-group_from result [] k = sym (append-nil (get result k))
get-group_from result (g ∷ gs) k =
    let key = decision_key g.principal_user_id g.action_name in
    let next = insert key (get result key ++ (g ∷ [])) result in
    get-group_from next gs k
    ∙ ground (
      arith,
      get-insert key k (get result key ++ (g ∷ [])) result,
      text_eq→eq k key,
      append_assoc (get result k) (g ∷ []) (keep (has_key k) gs),
    )

-- No byte of the text is 0.

abbrev pub is_nul_free : Text → Bool
is_nul_free t = all (λ b. not (b == 0)) t

-- Up to the first NUL byte a key is the principal's id.
key_split :
    (p u a c : Text)
    → is_nul_free p ≡ true
    → is_nul_free u ≡ true
    → text_eq (u ++ (0 ∷ c)) (p ++ (0 ∷ a)) ≡ (text_eq u p && text_eq c a)
unfolding text_eq all
key_split [] [] a c h k = refl
key_split [] (y ∷ u) a c h k = ground arith
key_split (x ∷ p) [] a c h k = ground arith
key_split (x ∷ p) (y ∷ u) a c h k = ground (arith, key_split p u a c)

text_eq_comm : (a b : Text) → text_eq a b ≡ text_eq b a
text_eq_comm a b = ground (arith, text_eq_iff a b, text_eq_iff b a)

has_key-is_for :
    (u a : Text) (g : Grant)
    → is_nul_free u ≡ true
    → is_nul_free g.principal_user_id ≡ true
    → has_key (decision_key u a) g ≡ is_for u a g
unfolding decision_key
has_key-is_for u a g h k = ground (
  arith,
  key_split g.principal_user_id u g.action_name a,
  text_eq_comm u g.principal_user_id,
  text_eq_comm a g.action_name,
)

keep-has_key :
    (u a : Text) (gs : List Grant)
    → is_nul_free u ≡ true
    → All (λ g. is_nul_free g.principal_user_id ≡ true) gs
    → keep (has_key (decision_key u a)) gs ≡ keep (is_for u a) gs
unfolding keep
keep-has_key u a [] h k = refl
keep-has_key u a (g ∷ gs) h k =
    ground (arith, has_key-is_for u a g h k.0, keep-has_key u a gs h k.1)

-- The group of a user and an action holds their grants, in order, and no others.
pub get-group_grants_by_decision :
    (gs : List Grant) (u a : Text)
    → is_nul_free u ≡ true
    → All (λ g. is_nul_free g.principal_user_id ≡ true) gs
    → get (group_grants_by_decision gs) (decision_key u a) ≡ keep (is_for u a) gs
unfolding group_grants_by_decision
get-group_grants_by_decision gs u a h k =
    get-group_from [] gs (decision_key u a) ∙ unfold get lookup in keep-has_key u a gs h k
