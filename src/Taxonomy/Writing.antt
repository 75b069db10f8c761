-- ===== src/Taxonomy/Writing.antt =====
-- internal/shared/taxonomy/tree_write.go, and the write rules of tree_resolve.go. The reads that
-- crypto/rand answers to a call of RetryWithSuffix are those of `random` for the slugs seen so
-- far, which differ from call to call.
use be_mycourse.Shared.{
  ℕ, Bool, not, Option, none, some, List, [], ◌∷◌, Text, codes, text_eq, trim, contains, is_empty,
  if◌then◌else◌, Result, ok, ◌>>=◌,
}
use be_mycourse.Shared.Map.{lookup, insert}
use be_mycourse.Taxonomy.{TreeNode, tree_node, Nodes, none_left, then_next}
use be_mycourse.Slugs.{SlugError, Reads, generate_auto_slug_base, resolve_with_suffix}

-- A later node takes the place of an earlier one of the same id.
unfoldable pub index_nodes : Nodes → List (Text × TreeNode) → List (Text × TreeNode)
index_nodes none_left index = index
index_nodes (then_next (tree_node i n s t children) rest) index =
    let noted = if is_empty (trim i) then index else (trim i, tree_node i n s t children) ∷ index in
    index_nodes rest (index_nodes children noted)

unfoldable pub build_node_index_by_id : Nodes → List (Text × TreeNode)
unfolding index_nodes
build_node_index_by_id nodes = index_nodes nodes []

abbrev pub default_locale : Text
default_locale = codes "en"

abbrev name_in : Text → List (Text × Text) → Text
name_in locale translations = elim (lookup locale translations) [
  | none ↦ []
  | some name ↦ trim name
]

-- The name and the translations in agreement, or `none` for a conflict.
abbrev agreed : Text → Text → List (Text × Text) → Option (Text × List (Text × Text))
agreed [] [] t = some ([], t)
agreed [] (e ∷ en) t = some (e ∷ en, insert default_locale (e ∷ en) t)
agreed (c ∷ canon) [] t = some (c ∷ canon, insert default_locale (c ∷ canon) t)
agreed (c ∷ canon) (e ∷ en) t =
    if text_eq (c ∷ canon) (e ∷ en)
    then some (c ∷ canon, insert default_locale (c ∷ canon) t)
    else none

unfoldable pub sync_canonical_and_en :
    Text → List (Text × Text) → Option (Text × List (Text × Text))
sync_canonical_and_en canonical translations =
    agreed (trim canonical) (name_in default_locale translations) translations

-- `none` for a conflict.
unfoldable pub sync_tree_canonical_and_en : Nodes → Option Nodes
unfolding sync_canonical_and_en
sync_tree_canonical_and_en none_left = some none_left
sync_tree_canonical_and_en (then_next (tree_node i n s t children) rest) =
    elim (sync_canonical_and_en n t) [
      | none ↦ none
      | some synced ↦ elim (sync_tree_canonical_and_en children) [
        | none ↦ none
        | some below ↦ elim (sync_tree_canonical_and_en rest) [
          | none ↦ none
          | some after ↦ some (then_next (tree_node (trim i) (synced.0) s (synced.1) below) after)
        ]
      ]
    ]

unfoldable pub ensure_en_translation : Nodes → Nodes
ensure_en_translation none_left = none_left
ensure_en_translation (then_next (tree_node i n s t children) rest) =
    let mirrored =
      if is_empty (name_in default_locale t) then insert default_locale (trim n) t else t in
    then_next (tree_node i n s mirrored (ensure_en_translation children))
      (ensure_en_translation rest)

module _ (make : Text → Text) (rounds : ℕ) (random : List Text → Reads)
    (old_by_id : List (Text × TreeNode)) (kind : Text) where
  abbrev pub free_in : List Text → Text → Option Bool
  free_in seen c = some (not (contains c seen))

  -- The slug, and the slugs seen with it.
  unfoldable pub resolve_node_slug_suffix : Text → List Text → Result SlugError (Text × List Text)
  unfolding resolve_with_suffix
  resolve_node_slug_suffix base seen = do
    final ← resolve_with_suffix 255 (free_in seen) rounds (random seen) base
    ok (final, final ∷ seen)

  unfoldable pub taken_or_new : Text → List Text → Result SlugError (Text × List Text)
  unfolding resolve_node_slug_suffix
  taken_or_new candidate seen =
      if contains candidate seen
      then resolve_node_slug_suffix candidate seen
      else ok (candidate, candidate ∷ seen)

  -- The slug of the old node of that id.
  abbrev pub old_slug : Text → Text
  old_slug i = elim (lookup (trim i) old_by_id) [
    | none ↦ []
    | some old ↦ elim old [ tree_node j n s t children ↦ trim s ]
  ]

  abbrev pub derived : Text × Bool → List Text → Result SlugError (Text × List Text)
  derived (base, must_suffix) seen =
      if must_suffix then resolve_node_slug_suffix base seen else taken_or_new base seen

  unfoldable pub resolve_one_node_slug :
      Text → Text → Text → List Text → Result SlugError (Text × List Text)
  unfolding taken_or_new resolve_node_slug_suffix generate_auto_slug_base
  resolve_one_node_slug i n s seen =
      if not (is_empty (trim s))
      then taken_or_new (trim s) seen
      else if not (is_empty (old_slug i))
      then taken_or_new (old_slug i) seen
      else derived (generate_auto_slug_base make n 255 kind) seen

  unfoldable pub resolve_tree_slugs_walk : Nodes → List Text → Result SlugError (Nodes × List Text)
  unfolding resolve_one_node_slug
  resolve_tree_slugs_walk none_left seen = ok (none_left, seen)
  resolve_tree_slugs_walk (then_next (tree_node i n s t children) rest) seen = do
    (slug, with_slug) ← resolve_one_node_slug i n s seen
    (below, with_children) ← resolve_tree_slugs_walk children with_slug
    (after, with_rest) ← resolve_tree_slugs_walk rest with_children
    ok (then_next (tree_node (trim i) (trim n) slug t below) after, with_rest)

  unfoldable pub resolve_tree_slugs : Nodes → Result SlugError Nodes
  unfolding resolve_tree_slugs_walk
  resolve_tree_slugs nodes = do (out, seen) ← resolve_tree_slugs_walk nodes []; ok out

  -- `none` for a conflict.
  unfoldable pub prepare_tree_for_write : Nodes → Result SlugError (Option Nodes)
  unfolding sync_tree_canonical_and_en ensure_en_translation resolve_tree_slugs
  prepare_tree_for_write nodes = elim (sync_tree_canonical_and_en nodes) [
    | none ↦ ok none
    | some synced ↦ (do
      resolved ← resolve_tree_slugs (ensure_en_translation synced)
      ok (some resolved))
  ]
