-- ===== src/Taxonomy.antt =====
-- internal/shared/taxonomy/tree_node.go and tree_validate.go. uuid.Parse is not code of the
-- repository: `is_uuid` says which texts it accepts. The translations of a node are listed in the
-- order in which they are visited.
pub mod Flat
pub mod Validity
pub mod Writing
pub mod Unique
use be_mycourse.Shared.{
  ℕ, ◌+◌, Bool, true, false, ◌&&◌, ◌||◌, not, List, [], ◌∷◌, ◌++◌, Text, trim, rune_count, is_empty,
  contains, leb, ltb, if◌then◌else◌, Result, ok, err, ◌>>=◌, ◌>>◌, guard,
}
use be_mycourse.Shared.Int.{ℤ, pos, negsuc}

-- The id, the name, the slug, the name of each locale's translation, and the children.
mutual
  pub data TreeNode : Type 0 where
    tree_node : Text → Text → Text → List (Text × Text) → Nodes → TreeNode

  pub data Nodes : Type 0 where
    none_left : Nodes
    then_next : TreeNode → Nodes → Nodes

pub record TreeOpts : Type 0 where
  pub max_depth : ℤ
  pub max_nodes : ℤ
  pub max_name_len : ℤ
  pub max_slug_len : ℤ

pub record ResolvedOpts : Type 0 where
  pub max_depth : ℕ
  pub max_nodes : ℕ
  pub max_name_len : ℕ
  pub max_slug_len : ℕ

-- `if v <= 0 { v = d }`
unfoldable pub limit_or : ℤ → ℕ → ℕ
limit_or (pos n) d = if leb n 0 then d else n
limit_or (negsuc n) d = d

unfoldable pub resolve_tree_opts : TreeOpts → ResolvedOpts
unfolding limit_or
resolve_tree_opts o = record {
  max_depth = limit_or o.max_depth 12;
  max_nodes = limit_or o.max_nodes 100;
  max_name_len = limit_or o.max_name_len 255;
  max_slug_len = limit_or o.max_slug_len 255;
}

pub data TreeError : Type 0 where
  exceeds_depth exceeds_nodes id_required id_not_uuid duplicate_id : TreeError
  name_invalid slug_invalid duplicate_slug : TreeError
  translation_invalid : Text → TreeError

-- The two sets of what was seen, and the count.
pub record Seen : Type 0 where
  pub ids : List Text
  pub slugs : List Text
  pub count : ℕ

unfoldable pub check_translations : ℕ → List (Text × Text) → Result TreeError (Unit {0})
check_translations max [] = ok tt
check_translations max ((locale, name) ∷ rest) =
    guard (is_empty (trim name) || leb (rune_count (trim name)) max) (translation_invalid locale)
    >> check_translations max rest

module _ (is_uuid : Text → Bool) (o : ResolvedOpts) where
  unfoldable pub validate_tree_node : TreeNode → Seen → Result TreeError Seen
  unfolding check_translations contains
  validate_tree_node (tree_node raw_id raw_name raw_slug translations children) seen = do
    let id = trim raw_id
    guard (not (is_empty id)) id_required
    guard (is_uuid id) id_not_uuid
    guard (not (contains id seen.ids)) duplicate_id
    let name = trim raw_name
    guard (not (is_empty name) && leb (rune_count name) o.max_name_len) name_invalid
    let slug = trim raw_slug
    guard (not (is_empty slug) && leb (rune_count slug) o.max_slug_len) slug_invalid
    guard (not (contains slug seen.slugs)) duplicate_slug
    check_translations o.max_name_len translations
    ok (record seen { ids = id ∷ seen.ids; slugs = slug ∷ seen.slugs })

  -- The count and the checks of one node.
  unfoldable pub visit : TreeNode → Seen → Result TreeError Seen
  unfolding validate_tree_node
  visit n seen = do
    guard (leb (seen.count + 1) o.max_nodes) exceeds_nodes
    validate_tree_node n (record seen { count = seen.count + 1 })

  -- A list that is not empty must not be too deep.
  abbrev pub check_depth : ℕ → Nodes → Result TreeError (Unit {0})
  check_depth depth none_left = ok tt
  check_depth depth (then_next n ns) = guard (leb depth o.max_depth) exceeds_depth

  -- The loop of `walkTree`.
  unfoldable pub walk_each : ℕ → Nodes → Seen → Result TreeError Seen
  unfolding visit
  walk_each depth none_left seen = ok seen
  walk_each depth (then_next (tree_node i n s t children) rest) seen = do
    visited ← visit (tree_node i n s t children) seen
    check_depth (depth + 1) children
    below ← walk_each (depth + 1) children visited
    walk_each depth rest below

  unfoldable pub walk_tree : ℕ → Nodes → Seen → Result TreeError Seen
  unfolding walk_each
  walk_tree depth nodes seen = do check_depth depth nodes; walk_each depth nodes seen

unfoldable pub validate_tree : (Text → Bool) → Nodes → TreeOpts → Result TreeError (Unit {0})
unfolding resolve_tree_opts walk_tree
validate_tree is_uuid nodes opts =
    walk_tree is_uuid (resolve_tree_opts opts) 1 nodes (record { ids = []; slugs = []; count = 0 })
    >>= λ seen. ok tt
