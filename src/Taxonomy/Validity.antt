-- ===== src/Taxonomy/Validity.antt =====
-- `ValidateTree` accepts exactly the valid trees.
use be_mycourse.Shared.{
  ℕ, ◌≡◌, refl, sym, ap, ◌∙◌, ◌↔◌, ◌+◌, ◌≤◌, Bool, true, false, List, [], ◌∷◌, map, length, Text,
  text_eq_iff, text_eq_refl, contains, leb, IsDistinct, ok, ◌>>=◌, guard-ok, >>=-ok, arith,
}
use be_mycourse.Shared.Every.{All}
use be_mycourse.Taxonomy.{
  TreeNode, Nodes, TreeOpts, ResolvedOpts, exceeds_depth, Seen, visit, walk_tree, validate_tree,
  resolve_tree_opts,
}
use be_mycourse.Taxonomy.Flat.{
  flatten, id_of, slug_of, is_fit, noted, visit-IsVisited, IsVisited-visit, check_list,
  walk_tree-check_list,
}

-- Every node fits and is not too deep, there are not too many, and no two share an id or a slug.
pub record IsValidTree (is_uuid : Text → Bool) (o : ResolvedOpts) (nodes : Nodes) : Type 0 where
  pub depth : All (λ p. leb p.0 o.max_depth ≡ true) (flatten 1 nodes)
  pub size : length (flatten 1 nodes) ≤ o.max_nodes
  pub fit : All (λ p. is_fit is_uuid o p.1 ≡ true) (flatten 1 nodes)
  pub ids : IsDistinct (map (λ p. id_of p.1) (flatten 1 nodes))
  pub slugs : IsDistinct (map (λ p. slug_of p.1) (flatten 1 nodes))

-- Nothing of the list is among those seen, and nothing occurs twice.
abbrev IsUnseen : List Text → List Text → Type 0
IsUnseen seen [] = Unit {0}
IsUnseen seen (t ∷ ts) = (contains t seen ≡ false) × IsUnseen (t ∷ seen) ts

IsUnseen-contains :
    (c : Text) (seen ts : List Text)
    → contains c seen ≡ true
    → IsUnseen seen ts
    → contains c ts ≡ false
unfolding contains
IsUnseen-contains c seen [] h u = refl
IsUnseen-contains c seen (t ∷ ts) h u =
    ground (arith, text_eq_iff c t, u.0, IsUnseen-contains c (t ∷ seen) ts (ground arith) u.1)

IsUnseen-IsDistinct : (seen ts : List Text) → IsUnseen seen ts → IsDistinct ts
IsUnseen-IsDistinct seen [] u = tt
IsUnseen-IsDistinct seen (t ∷ ts) u = (
  IsUnseen-contains t (t ∷ seen) ts (unfold contains in ground (arith, text_eq_refl t)) u.1,
  IsUnseen-IsDistinct (t ∷ seen) ts u.1,
)

IsDistinct-IsUnseen :
    (seen ts : List Text)
    → IsDistinct ts
    → ((c : Text) → contains c ts ≡ true → contains c seen ≡ false)
    → IsUnseen seen ts
unfolding contains
IsDistinct-IsUnseen seen [] d apart = tt
IsDistinct-IsUnseen seen (t ∷ ts) d apart = (
  apart t (ground (arith, text_eq_refl t)),
  IsDistinct-IsUnseen (t ∷ seen) ts d.1
      (λ c h. ground (arith, apart c (ground arith), text_eq_iff c t, d.0)),
)

module _ (is_uuid : Text → Bool) (o : ResolvedOpts) where
  abbrev ids_of : List (ℕ × TreeNode) → List Text
  ids_of = map (λ p. id_of p.1)

  abbrev slugs_of : List (ℕ × TreeNode) → List Text
  slugs_of = map (λ p. slug_of p.1)

  record IsPassed (xs : List (ℕ × TreeNode)) (seen : Seen) : Type 0 where
    depths : All (λ p. leb p.0 o.max_depth ≡ true) xs
    sizes : seen.count + length xs ≤ o.max_nodes
    each_fits : All (λ p. is_fit is_uuid o p.1 ≡ true) xs
    new_ids : IsUnseen seen.ids (ids_of xs)
    new_slugs : IsUnseen seen.slugs (slugs_of xs)

  check_list-IsPassed :
      (xs : List (ℕ × TreeNode)) (seen seen' : Seen)
      → seen.count ≤ o.max_nodes
      → check_list is_uuid o xs seen ≡ ok seen'
      → IsPassed xs seen
  unfolding check_list
  check_list-IsPassed [] seen seen' bounded h = record {
    depths = tt;
    sizes = ground (arith, bounded);
    each_fits = tt;
    new_ids = tt;
    new_slugs = tt;
  }
  check_list-IsPassed ((depth, n) ∷ xs) seen seen' bounded h =
      let (shallow, visited) =
        guard-ok (leb depth o.max_depth) exceeds_depth
          (visit is_uuid o n seen >>= λ v. check_list is_uuid o xs v) h in
      let (v, met, rest) =
        >>=-ok (visit is_uuid o n seen) (λ v. check_list is_uuid o xs v) visited in
      let (seen_new, same) = visit-IsVisited is_uuid o n seen v met in
      let below =
        check_list-IsPassed xs (noted is_uuid o n seen) seen' (ground (arith, seen_new.counted))
          (ap (λ w. check_list is_uuid o xs w) same ∙ rest) in
      record {
        depths = (shallow, below.depths);
        sizes = ground (arith, below.sizes);
        each_fits = (seen_new.fits, below.each_fits);
        new_ids = (seen_new.new_id, below.new_ids);
        new_slugs = (seen_new.new_slug, below.new_slugs);
      }

  IsPassed-check_list :
      (xs : List (ℕ × TreeNode)) (seen : Seen)
      → IsPassed xs seen
      → (seen' : Seen) × (check_list is_uuid o xs seen ≡ ok seen')
  unfolding check_list
  IsPassed-check_list [] seen p = (seen, refl)
  IsPassed-check_list ((depth, n) ∷ xs) seen p =
      let visited = IsVisited-visit is_uuid o n seen (record {
        counted = ground (arith, p.sizes);
        fits = p.each_fits.0;
        new_id = p.new_ids.0;
        new_slug = p.new_slugs.0;
      }) in
      let (last, rest) = IsPassed-check_list xs (noted is_uuid o n seen) (record {
        depths = p.depths.1;
        sizes = ground (arith, p.sizes);
        each_fits = p.each_fits.1;
        new_ids = p.new_ids.1;
        new_slugs = p.new_slugs.1;
      }) in
      (last, rw (p.depths.0, visited) rest)

-- `ValidateTree` returns no error exactly for the valid trees.
pub validate_tree_iff :
    (is_uuid : Text → Bool) (nodes : Nodes) (opts : TreeOpts)
    → (validate_tree is_uuid nodes opts ≡ ok tt)
      ↔ IsValidTree is_uuid (resolve_tree_opts opts) nodes
unfolding validate_tree
validate_tree_iff is_uuid nodes opts = (accepted, valid)
  where
    o : ResolvedOpts
    o = resolve_tree_opts opts

    start : Seen
    start = record { ids = []; slugs = []; count = 0 }

    walked : walk_tree is_uuid o 1 nodes start ≡ check_list is_uuid o (flatten 1 nodes) start
    walked = walk_tree-check_list is_uuid o nodes start

    accepted : validate_tree is_uuid nodes opts ≡ ok tt → IsValidTree is_uuid o nodes
    accepted h =
        let (seen, met, rest) = >>=-ok (walk_tree is_uuid o 1 nodes start) (λ seen. ok tt) h in
        let p =
          check_list-IsPassed is_uuid o (flatten 1 nodes) start seen (ground arith)
            (sym walked ∙ met) in
        record {
          depth = p.depths;
          size = ground (arith, p.sizes);
          fit = p.each_fits;
          ids = IsUnseen-IsDistinct [] (map (λ p. id_of p.1) (flatten 1 nodes)) p.new_ids;
          slugs = IsUnseen-IsDistinct [] (map (λ p. slug_of p.1) (flatten 1 nodes)) p.new_slugs;
        }

    valid : IsValidTree is_uuid o nodes → validate_tree is_uuid nodes opts ≡ ok tt
    valid v =
        let (seen, met) = IsPassed-check_list is_uuid o (flatten 1 nodes) start (record {
          depths = v.depth;
          sizes = ground (arith, v.size);
          each_fits = v.fit;
          new_ids =
              IsDistinct-IsUnseen [] (map (λ p. id_of p.1) (flatten 1 nodes)) v.ids
                (λ c h. unfold contains in refl);
          new_slugs =
              IsDistinct-IsUnseen [] (map (λ p. slug_of p.1) (flatten 1 nodes)) v.slugs
                (λ c h. unfold contains in refl);
        }) in
        rw (walked ∙ met) refl
