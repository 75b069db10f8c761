-- ===== src/Taxonomy/Unique.antt =====
-- internal/shared/taxonomy/tree_write.go: ResolveTreeSlugs.
use be_mycourse.Shared.{
  ℕ, ◌≡◌, refl, ap, ap₂, sym, subst, ◌∙◌, inl, inr, Bool, true, false, not, List, [], ◌∷◌, Text,
  trim, contains, is_empty, Bool-cases, ok, >>=-ok, ok-injective, IsDistinct, arith,
}
use be_mycourse.Taxonomy.{TreeNode, tree_node, Nodes, none_left, then_next}
use be_mycourse.Slugs.{Reads, generate_auto_slug_base, resolve_with_suffix}
use be_mycourse.Slugs.Resolved.{resolve_with_suffix-IsFit}
use be_mycourse.Taxonomy.Writing.{
  free_in, resolve_node_slug_suffix, taken_or_new, old_slug, derived, resolve_one_node_slug,
  resolve_tree_slugs_walk, resolve_tree_slugs,
}

-- The slugs in the order of the walk, each put before those seen so far.
abbrev pub slugs_with : Nodes → List Text → List Text
slugs_with none_left seen = seen
slugs_with (then_next (tree_node i n s t children) rest) seen =
    slugs_with rest (slugs_with children (s ∷ seen))

-- The tree without its slugs, and one whose ids and names are trimmed as well.
abbrev pub bare : Nodes → Nodes
bare none_left = none_left
bare (then_next (tree_node i n s t children) rest) =
    then_next (tree_node i n [] t (bare children)) (bare rest)

abbrev pub bare_trimmed : Nodes → Nodes
bare_trimmed none_left = none_left
bare_trimmed (then_next (tree_node i n s t children) rest) =
    then_next (tree_node (trim i) (trim n) [] t (bare_trimmed children)) (bare_trimmed rest)

module _ (make : Text → Text) (rounds : ℕ) (random : List Text → Reads)
    (old_by_id : List (Text × TreeNode)) (kind : Text) where
  IsNew : List Text → Text × List Text → Type 0
  IsNew seen (slug, with_slug) = (contains slug seen ≡ false) × (with_slug ≡ slug ∷ seen)

  resolve_node_slug_suffix-IsNew :
      (base : Text) (seen : List Text) {p : Text × List Text}
      → resolve_node_slug_suffix make rounds random old_by_id kind base seen ≡ ok p
      → IsNew seen p
  unfolding resolve_node_slug_suffix IsNew
  resolve_node_slug_suffix-IsNew base seen h =
      let free = free_in make rounds random old_by_id kind seen in
      let (final, found, same) =
        >>=-ok (resolve_with_suffix 255 free rounds (random seen) base) _ h in
      let (there, short) = resolve_with_suffix-IsFit 255 free rounds (random seen) base found in
      subst (IsNew seen) (ok-injective same) (ground arith, refl)

  taken_or_new-IsNew :
      (candidate : Text) (seen : List Text) {p : Text × List Text}
      → taken_or_new make rounds random old_by_id kind candidate seen ≡ ok p
      → IsNew seen p
  unfolding taken_or_new IsNew
  taken_or_new-IsNew candidate seen h = elim (Bool-cases (contains candidate seen)) [
    | inl taken ↦ resolve_node_slug_suffix-IsNew candidate seen (rw taken at h)
    | inr free ↦ subst (IsNew seen) (ok-injective (rw free at h)) (free, refl)
  ]

  derived-IsNew :
      (base : Text × Bool) (seen : List Text) {p : Text × List Text}
      → derived make rounds random old_by_id kind base seen ≡ ok p
      → IsNew seen p
  derived-IsNew (base, true) seen h = resolve_node_slug_suffix-IsNew base seen h
  derived-IsNew (base, false) seen h = taken_or_new-IsNew base seen h

  resolve_one_node_slug-IsNew :
      (i n s : Text) (seen : List Text) {p : Text × List Text}
      → resolve_one_node_slug make rounds random old_by_id kind i n s seen ≡ ok p
      → IsNew seen p
  unfolding resolve_one_node_slug
  resolve_one_node_slug-IsNew i n s seen h = elim (Bool-cases (not (is_empty (trim s)))) [
    | inl given ↦ taken_or_new-IsNew (trim s) seen (rw given at h)
    | inr omitted ↦
        let old = old_slug make rounds random old_by_id kind i in
        elim (Bool-cases (not (is_empty old))) [
          | inl kept ↦ taken_or_new-IsNew old seen (rw (omitted, kept) at h)
          | inr new ↦
              derived-IsNew (generate_auto_slug_base make n 255 kind) seen (rw (omitted, new) at h)
        ]
  ]

  IsWalked : Nodes → List Text → Nodes × List Text → Type 0
  IsWalked nodes seen (out, after) =
      (after ≡ slugs_with out seen)
      × (IsDistinct seen → IsDistinct after)
      × (bare out ≡ bare_trimmed nodes)

  resolve_tree_slugs_walk-IsWalked :
      (nodes : Nodes) (seen : List Text) {p : Nodes × List Text}
      → resolve_tree_slugs_walk make rounds random old_by_id kind nodes seen ≡ ok p
      → IsWalked nodes seen p
  unfolding resolve_tree_slugs_walk IsWalked IsNew
  resolve_tree_slugs_walk-IsWalked none_left seen h =
      subst (IsWalked none_left seen) (ok-injective h) (refl, λ d. d, refl)
  resolve_tree_slugs_walk-IsWalked (then_next (tree_node i n s t children) rest) seen h =
      let ((slug, with_slug), one, h₁) = >>=-ok _ _ h in
      let ((below, with_children), inside, h₂) = >>=-ok _ _ h₁ in
      let ((after, with_rest), outside, h₃) = >>=-ok _ _ h₂ in
      let (new, grown) = resolve_one_node_slug-IsNew i n s seen one in
      let (e₁, d₁, b₁) = resolve_tree_slugs_walk-IsWalked children with_slug inside in
      let (e₂, d₂, b₂) = resolve_tree_slugs_walk-IsWalked rest with_children outside in
      subst (IsWalked (then_next (tree_node i n s t children) rest) seen) (ok-injective h₃) (
        e₂ ∙ ap (slugs_with after) (e₁ ∙ ap (slugs_with below) grown),
        λ d. d₂ (d₁ (subst IsDistinct (sym grown) (new, d))),
        ap₂ (λ c r. then_next (tree_node (trim i) (trim n) [] t c) r) b₁ b₂,
      )

  -- The tree that ResolveTreeSlugs returns has no slug twice, and is but for its slugs the given
  -- tree with trimmed ids and names.
  pub resolve_tree_slugs-IsDistinct :
      (nodes out : Nodes)
      → resolve_tree_slugs make rounds random old_by_id kind nodes ≡ ok out
      → IsDistinct (slugs_with out []) × (bare out ≡ bare_trimmed nodes)
  unfolding resolve_tree_slugs IsWalked
  resolve_tree_slugs-IsDistinct nodes out h =
      let ((found, seen), walked, same) =
        >>=-ok (resolve_tree_slugs_walk make rounds random old_by_id kind nodes []) _ h in
      let (e, d, b) = resolve_tree_slugs_walk-IsWalked nodes [] walked in
      subst (λ o. IsDistinct (slugs_with o []) × (bare o ≡ bare_trimmed nodes)) (ok-injective same)
        (subst IsDistinct e (d tt), b)
