-- ===== src/Authorization/Names.antt =====
-- `uniqueNonEmpty` of internal/authorization/application/grant_service.go: the trimmed, distinct,
-- non-empty texts in ascending order.
pub mod Laws
use be_mycourse.Shared.{List, [], ◌∷◌, Text, trim, is_empty, contains, sort, if◌then◌else◌}

-- The loop, over the set that it has seen.
unfoldable pub unique_from : List Text → List Text → List Text
unique_from seen [] = []
unique_from seen (v ∷ vs) =
    let value = trim v in
    let skip = unique_from seen vs in
    let rest = unique_from (value ∷ seen) vs in
    if is_empty value then skip else if contains value seen then skip else value ∷ rest

unfoldable pub unique_non_empty : List Text → List Text
unfolding unique_from sort
unique_non_empty vs = sort (unique_from [] vs)
