-- ===== src/Examples/Trees.antt =====
-- Trees of two nodes.
use be_mycourse.Shared.{
  ◌≡◌, refl, ◌↔◌, Bool, true, some, List, [], IsDistinct, ◌∷◌, Text, codes, trim, text_eq, contains,
  rune_count, ok, err,
}
use be_mycourse.Shared.Int.{pos}
use be_mycourse.Taxonomy.{
  TreeNode, tree_node, Nodes, none_left, then_next, TreeOpts, resolve_tree_opts, validate_tree,
  duplicate_slug,
}
use be_mycourse.Slugs.{Reads}
use be_mycourse.Taxonomy.Writing.{resolve_tree_slugs}
use be_mycourse.Taxonomy.Unique.{slugs_with, bare, bare_trimmed, resolve_tree_slugs-IsDistinct}
use be_mycourse.Taxonomy.Validity.{IsValidTree, validate_tree_iff}

abbrev any_text : Text → Bool
any_text t = true

abbrev opts : TreeOpts
opts = record { max_depth = pos 2; max_nodes = pos 0; max_name_len = pos 10; max_slug_len = pos 10 }

abbrev leaf : Text → Text → TreeNode
leaf id slug = tree_node id (codes "Go") slug ((codes "vi", codes " Go ") ∷ []) none_left

abbrev tree : Nodes
tree =
    then_next
      (tree_node (codes "1") (codes "Code") (codes "code") []
        (then_next (leaf (codes "2") (codes "go")) none_left))
      none_left

validate_tree_iff_example :
    (validate_tree any_text tree opts ≡ ok tt) ↔ IsValidTree any_text (resolve_tree_opts opts) tree
validate_tree_iff_example = validate_tree_iff any_text tree opts

tree_accepted : validate_tree any_text tree opts ≡ ok tt
unfolding validate_tree trim contains text_eq rune_count
tree_accepted = refl

slug_twice :
    validate_tree any_text
      (then_next
        (leaf (codes "1") (codes "go"))
        (then_next (leaf (codes "2") (codes " go")) none_left))
      opts
    ≡ err duplicate_slug
unfolding validate_tree trim contains text_eq rune_count
slug_twice = refl

-- Two nodes that want one slug; every random byte is 0.
abbrev twins : Text → Nodes
twins second =
    then_next (leaf (codes "1") (codes "go")) (then_next (leaf (codes "2") second) none_left)

abbrev zeros : List Text → Reads
zeros seen = some 0 ∷ some 0 ∷ some 0 ∷ some 0 ∷ some 0 ∷ some 0 ∷ some 0 ∷ []

abbrev as_is : Text → Text
as_is name = name

resolve_tree_slugs-IsDistinct_example :
    IsDistinct (slugs_with (twins (codes "go-aaaaaaa")) [])
    × (bare (twins (codes "go-aaaaaaa")) ≡ bare_trimmed (twins (codes "go ")))
unfolding resolve_tree_slugs be_mycourse.Taxonomy.Writing.resolve_tree_slugs_walk
    be_mycourse.Taxonomy.Writing.resolve_one_node_slug be_mycourse.Taxonomy.Writing.taken_or_new
    be_mycourse.Taxonomy.Writing.resolve_node_slug_suffix be_mycourse.Slugs.resolve_with_suffix
    be_mycourse.Slugs.try_suffix be_mycourse.Slugs.retry_with_suffix be_mycourse.Slugs.try_lengths
    be_mycourse.Slugs.try_length be_mycourse.Slugs.generate_random_suffix
    be_mycourse.Slugs.build_suffixed_candidate be_mycourse.Slugs.truncate_for_suffix
    be_mycourse.Slugs.truncate_to_len trim text_eq contains
resolve_tree_slugs-IsDistinct_example =
    resolve_tree_slugs-IsDistinct as_is 3 zeros [] (codes "node") (twins (codes "go "))
      (twins (codes "go-aaaaaaa")) refl
