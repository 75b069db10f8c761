-- ===== src/Taxonomy/Flat.antt =====
-- `walkTree` visits the nodes of the tree in order, each before its children.
use be_mycourse.Shared.{
  ℕ, ◌≡◌, refl, sym, ap, ◌∙◌, ◌↔◌, ◌+◌, Bool, true, false, ◌&&◌, ◌||◌, not, List, [], ◌∷◌, ◌++◌,
  all, Text, trim, rune_count, is_empty, contains, leb, Result, ok, err, ◌>>=◌, ◌>>◌, guard,
  Result-cases, Bool-cases, inl, inr, arith,
}
use be_mycourse.Taxonomy.{
  TreeNode, tree_node, Nodes, none_left, then_next, ResolvedOpts, TreeError, exceeds_depth, Seen,
  check_translations, validate_tree_node, visit, check_depth, walk_each, walk_tree,
}

-- The nodes with their depths, each before its children.
unfoldable pub flatten : ℕ → Nodes → List (ℕ × TreeNode)
flatten depth none_left = []
flatten depth (then_next (tree_node i n s t children) rest) =
    (depth, tree_node i n s t children) ∷ (flatten (depth + 1) children ++ flatten depth rest)

abbrev pub id_of : TreeNode → Text
id_of (tree_node i n s t children) = trim i

abbrev pub slug_of : TreeNode → Text
slug_of (tree_node i n s t children) = trim s

-- All that is asked of a node on its own.
abbrev pub is_fit : (Text → Bool) → ResolvedOpts → TreeNode → Bool
is_fit is_uuid o (tree_node i n s t children) =
    not (is_empty (trim i))
    && is_uuid (trim i)
    && (not (is_empty (trim n)) && leb (rune_count (trim n)) o.max_name_len)
    && (not (is_empty (trim s)) && leb (rune_count (trim s)) o.max_slug_len)
    && all (λ p. is_empty (trim p.1) || leb (rune_count (trim p.1)) o.max_name_len) t

check_translations-all :
    (max : ℕ) (t : List (Text × Text))
    → (check_translations max t ≡ ok tt)
      ↔ (all (λ p. is_empty (trim p.1) || leb (rune_count (trim p.1)) max) t ≡ true)
unfolding check_translations all
check_translations-all max [] = (λ h. refl, λ h. refl)
check_translations-all max ((l, n) ∷ t) =
    let ih = check_translations-all max t in (λ h. ground (arith, ih), λ h. ground (arith, ih))

module _ (is_uuid : Text → Bool) (o : ResolvedOpts) where
  abbrev pub noted : TreeNode → Seen → Seen
  noted n seen = record {
    ids = id_of n ∷ seen.ids;
    slugs = slug_of n ∷ seen.slugs;
    count = seen.count + 1;
  }

  -- What a visit that succeeds has passed, and what passes.
  pub record IsVisited (n : TreeNode) (seen : Seen) : Type 0 where
    pub counted : leb (seen.count + 1) o.max_nodes ≡ true
    pub fits : is_fit is_uuid o n ≡ true
    pub new_id : contains (id_of n) seen.ids ≡ false
    pub new_slug : contains (slug_of n) seen.slugs ≡ false

  pub visit-IsVisited :
      (n : TreeNode) (seen seen' : Seen)
      → visit is_uuid o n seen ≡ ok seen'
      → IsVisited n seen × (noted n seen ≡ seen')
  unfolding visit validate_tree_node
  visit-IsVisited (tree_node i n s t children) seen seen' h =
      let translated = check_translations-all o.max_name_len t in
      (
        record {
          counted = ground arith;
          fits = ground (arith, translated);
          new_id = ground arith;
          new_slug = ground arith;
        },
        ground arith,
      )

  pub IsVisited-visit :
      (n : TreeNode) (seen : Seen) → IsVisited n seen → visit is_uuid o n seen ≡ ok (noted n seen)
  unfolding visit validate_tree_node
  IsVisited-visit (tree_node i n s t children) seen v =
      let translated = check_translations-all o.max_name_len t in
      ground (arith, translated, v.counted, v.fits, v.new_id, v.new_slug)

  -- The walk over the flattened tree.
  unfoldable pub check_list : List (ℕ × TreeNode) → Seen → Result TreeError Seen
  check_list [] seen = ok seen
  check_list ((depth, n) ∷ rest) seen = do
    guard (leb depth o.max_depth) exceeds_depth
    visited ← visit is_uuid o n seen
    check_list rest visited

  check_list-append :
      (xs ys : List (ℕ × TreeNode)) (seen : Seen)
      → check_list (xs ++ ys) seen ≡ (check_list xs seen >>= λ s. check_list ys s)
  unfolding check_list
  check_list-append [] ys seen = refl
  check_list-append ((depth, n) ∷ xs) ys seen = elim (Bool-cases (leb depth o.max_depth)) [
    | inl e ↦ elim (Result-cases (visit is_uuid o n seen)) [
      | inl (v, k) ↦ rw (e, k) (check_list-append xs ys v)
      | inr (x, k) ↦ rw (e, k) refl
    ]
    | inr e ↦ rw e refl
  ]

  deep-check_list :
      (depth : ℕ) (nodes : Nodes) (seen : Seen)
      → (check_depth is_uuid o depth nodes >> check_list (flatten depth nodes) seen)
        ≡ check_list (flatten depth nodes) seen
  unfolding check_list flatten
  deep-check_list depth none_left seen = refl
  deep-check_list depth (then_next (tree_node i n s t children) rest) seen =
      elim (Bool-cases (leb depth o.max_depth)) [ inl e ↦ rw e refl | inr e ↦ rw e refl ]

  check_depth-ok :
      (depth : ℕ) (nodes : Nodes)
      → leb depth o.max_depth ≡ true
      → check_depth is_uuid o depth nodes ≡ ok tt
  check_depth-ok depth none_left h = refl
  check_depth-ok depth (then_next n ns) h = rw h refl

  too_deep :
      (depth : ℕ) (nodes : Nodes) (seen : Seen) (f g : Seen → Result TreeError Seen)
      → leb depth o.max_depth ≡ false
      → ((below : Seen) → f below ≡ g below)
      → (check_depth is_uuid o depth nodes >> (walk_each is_uuid o depth nodes seen >>= f))
        ≡ (check_list (flatten depth nodes) seen >>= g)
  unfolding walk_each check_list flatten
  too_deep depth none_left seen f g h same = same seen
  too_deep depth (then_next (tree_node i n s t children) rest) seen f g h same = rw h refl

  walk_each-check_list :
      (depth : ℕ) (nodes : Nodes) (seen : Seen)
      → leb depth o.max_depth ≡ true
      → walk_each is_uuid o depth nodes seen ≡ check_list (flatten depth nodes) seen
  unfolding walk_each check_list flatten
  walk_each-check_list depth none_left seen h = refl
  walk_each-check_list depth (then_next (tree_node i n s t children) rest) seen h = rw h (
      after_visit (visit is_uuid o (tree_node i n s t children) seen)
        (walk_each-check_list (depth + 1) children)
        (λ below. walk_each-check_list depth rest below h))
    where
      Agrees : ℕ → Nodes → Seen → Type 0
      Agrees d ns below = walk_each is_uuid o d ns below ≡ check_list (flatten d ns) below

      after_children :
          (visited : Seen)
          → Agrees (depth + 1) children visited
          → ((below : Seen) → Agrees depth rest below)
          → (walk_each is_uuid o (depth + 1) children visited >>= λ below.
              walk_each is_uuid o depth rest below)
            ≡ (check_list (flatten (depth + 1) children) visited >>= λ below.
                check_list (flatten depth rest) below)
      after_children visited c r =
          rw c (elim (Result-cases (check_list (flatten (depth + 1) children) visited)) [
            | inl (b, e) ↦ rw e (r b)
            | inr (x, e) ↦ rw e refl
          ])

      after_depth :
          (visited : Seen) (b : Bool)
          → leb (depth + 1) o.max_depth ≡ b
          → ((below : Seen)
              → leb (depth + 1) o.max_depth ≡ true
              → Agrees (depth + 1) children below)
          → ((below : Seen) → Agrees depth rest below)
          → (check_depth is_uuid o (depth + 1) children
              >> (walk_each is_uuid o (depth + 1) children visited >>= λ below.
                  walk_each is_uuid o depth rest below))
            ≡ (check_list (flatten (depth + 1) children) visited >>= λ below.
                check_list (flatten depth rest) below)
      after_depth visited true e c r =
          rw (check_depth-ok (depth + 1) children e) (after_children visited (c visited e) r)
      after_depth visited false e c r =
          too_deep (depth + 1) children visited (λ below. walk_each is_uuid o depth rest below)
            (λ below. check_list (flatten depth rest) below) e r

      after_visit :
          (m : Result TreeError Seen)
          → ((below : Seen)
              → leb (depth + 1) o.max_depth ≡ true
              → Agrees (depth + 1) children below)
          → ((below : Seen) → Agrees depth rest below)
          → (m >>= λ visited.
              check_depth is_uuid o (depth + 1) children
              >> (walk_each is_uuid o (depth + 1) children visited >>= λ below.
                  walk_each is_uuid o depth rest below))
            ≡ (m >>= λ visited.
                check_list (flatten (depth + 1) children ++ flatten depth rest) visited)
      after_visit (err x) c r = refl
      after_visit (ok visited) c r =
          after_depth visited (leb (depth + 1) o.max_depth) refl c r
          ∙ sym (check_list-append (flatten (depth + 1) children) (flatten depth rest) visited)

  pub walk_tree-check_list :
      (nodes : Nodes) (seen : Seen)
      → walk_tree is_uuid o 1 nodes seen ≡ check_list (flatten 1 nodes) seen
  unfolding walk_tree walk_each check_list flatten
  walk_tree-check_list none_left seen = refl
  walk_tree-check_list (then_next (tree_node i n s t children) rest) seen =
      let nodes = then_next (tree_node i n s t children) rest in
      elim (Bool-cases (leb 1 o.max_depth)) [
        | inl e ↦
            ap (λ r. r >> walk_each is_uuid o 1 nodes seen) (check_depth-ok 1 nodes e)
            ∙ walk_each-check_list 1 nodes seen e
        | inr e ↦ rw e refl
      ]
