-- ===== src/FuzzyIndex/Vault/Below.antt =====
-- What is below one child of a folder.
use zeromux.Prelude.{
  ◌≡◌, refl, sym, ap, ◌∙◌, subst, String, eq_iff, true, false, none, [], ◌∷◌, arith, Bool-cases,
  inl, inr, ◌⊎◌, length,
}
use zeromux.FuzzyIndex.Vault.{RelPath, Disk, read_node, path_eq, is_under}
use zeromux.FuzzyIndex.Vault.Tree.{
  path_eq→≡, path_eq_refl, is_under-length, lists, walks, tree, walks_refl, walks-is_under,
  walks-first, walks-unreadable, walks-next, lists_agree, tree-walked, tree-unwalked,
  is_under_trans, is_under_refl,
}

pub not_itself : (n : String) (d : RelPath) → is_under (n ∷ d) d ≡ true → ⊥
not_itself n d h = omega (arith, is_under-length (n ∷ d) d h)

-- A path is below one child of a folder at most.
pub same_child :
    (n k : String) (d p : RelPath) → is_under (n ∷ d) p ≡ true → is_under (k ∷ d) p ≡ true → n ≡ k
unfolding is_under
same_child n k d [] h h' = cc
same_child n k d (x ∷ q) h h' = elim (Bool-cases (path_eq (n ∷ d) (x ∷ q))) [
  | inl here ↦ elim (Bool-cases (path_eq (k ∷ d) (x ∷ q))) [
    | inl here' ↦ ground (arith, eq_iff n x, eq_iff k x)
    | inr above' ↦
        let short = is_under-length (k ∷ d) q (ground arith) in
        let long = ap (length {A = String}) (path_eq→≡ (n ∷ d) (x ∷ q) here) in absurd (omega arith)
  ]
  | inr above ↦ elim (Bool-cases (path_eq (k ∷ d) (x ∷ q))) [
    | inl here' ↦
        let short = is_under-length (n ∷ d) q (ground arith) in
        let long = ap (length {A = String}) (path_eq→≡ (k ∷ d) (x ∷ q) here') in
        absurd (omega arith)
    | inr above' ↦ same_child n k d q (ground arith) (ground arith)
  ]
]

-- A path below a folder is the folder or below a child.
pub is_under-first :
    (d p : RelPath) → is_under d p ≡ true → (d ≡ p) ⊎ ((n : String) × (is_under (n ∷ d) p ≡ true))
unfolding is_under
is_under-first d [] h = inl (path_eq→≡ d [] h)
is_under-first d (n ∷ q) h = elim (Bool-cases (path_eq d (n ∷ q))) [
  | inl there ↦ inl (path_eq→≡ d (n ∷ q) there)
  | inr past ↦ elim (is_under-first d q (ground arith)) [
    | inl e ↦ inr (n, ground (arith, path_eq_refl (n ∷ q), ap (λ (p : RelPath). n ∷ p) e))
    | inr (k, w) ↦ inr (k, ground arith)
  ]
]

pub is_under_parent : (n : String) (d p : RelPath) → is_under (n ∷ d) p ≡ true → is_under d p ≡ true
unfolding is_under
is_under_parent n d p h = is_under_trans d (n ∷ d) p (ground (arith, is_under_refl d)) h

module _ (disk : Disk) where
  pub walks_trans :
      (a b c : RelPath) → walks disk a b ≡ true → walks disk b c ≡ true → walks disk a c ≡ true
  unfolding walks
  walks_trans a b [] h k = subst (λ (q : RelPath). walks disk a q ≡ true) (path_eq→≡ b [] k) h
  walks_trans a b (n ∷ q) h k = elim (Bool-cases (path_eq b (n ∷ q))) [
    | inl e ↦ subst (λ (x : RelPath). walks disk a x ≡ true) (path_eq→≡ b (n ∷ q) e) h
    | inr above ↦ ground (arith, walks_trans a b q)
  ]

  pub walks_child :
      (n : String) (d p : RelPath)
      → lists disk d n ≡ true
      → walks disk (n ∷ d) p ≡ true
      → walks disk d p ≡ true
  walks_child n d p l w = walks_trans d (n ∷ d) p (walks-next disk d d n (walks_refl disk d) l) w

  -- A walk to a path below a child goes by the child.
  pub walks-by_child :
      (n : String) (d p : RelPath)
      → is_under (n ∷ d) p ≡ true
      → walks disk d p ≡ true
      → (lists disk d n ≡ true) × (walks disk (n ∷ d) p ≡ true)
  walks-by_child n d p u w = elim (walks-first disk d p w) [
    | inl e ↦ absurd (not_itself n d (subst (λ (x : RelPath). is_under (n ∷ d) x ≡ true) (sym e) u))
    | inr (k, l, w') ↦
        let e = same_child k n d p (walks-is_under disk (k ∷ d) p w') u in
        (
          subst (λ (x : String). lists disk d x ≡ true) e l,
          subst (λ (x : String). walks disk (x ∷ d) p ≡ true) e w',
        )
  ]

  pub tree_child :
      (n : String) (d p : RelPath)
      → is_under (n ∷ d) p ≡ true
      → lists disk d n ≡ true
      → tree disk d p ≡ tree disk (n ∷ d) p
  tree_child n d p u l = elim (Bool-cases (walks disk (n ∷ d) p)) [
    | inl w ↦ tree-walked disk d p (walks_child n d p l w) ∙ sym (tree-walked disk (n ∷ d) p w)
    | inr stops ↦
        let none_here : walks disk d p ≡ false = ground (arith, walks-by_child n d p u) in
        tree-unwalked disk d p none_here ∙ sym (tree-unwalked disk (n ∷ d) p stops)
  ]

  pub tree_unlisted :
      (n : String) (d p : RelPath)
      → is_under (n ∷ d) p ≡ true
      → lists disk d n ≡ false
      → tree disk d p ≡ none
  tree_unlisted n d p u l = tree-unwalked disk d p (ground (arith, walks-by_child n d p u))

  -- Below an unreadable folder the disk holds nothing.
  pub tree-unreadable :
      (d p : RelPath) → is_under d p ≡ true → read_node disk d ≡ none → tree disk d p ≡ none
  tree-unreadable d p u read = elim (Bool-cases (walks disk d p)) [
    | inl w ↦
        let e = walks-unreadable disk d d p w (is_under_refl d) u read in
        tree-walked disk d p w ∙ subst (λ (x : RelPath). read_node disk x ≡ none) e read
    | inr stops ↦ tree-unwalked disk d p stops
  ]

module _ (disk disk' : Disk) (d : RelPath)
    (same : (p : RelPath)
      → walks disk d p ≡ true
      → walks disk' d p ≡ true
      → read_node disk p ≡ read_node disk' p) where
  walks_agree : (p : RelPath) → walks disk d p ≡ walks disk' d p
  unfolding walks
  walks_agree [] = refl
  walks_agree (n ∷ q) = elim (Bool-cases (walks disk d q)) [
    | inl w ↦
        let w' = sym (walks_agree q) ∙ w in
        ground (arith, walks_agree q, lists_agree disk disk' q n (same q w w'))
    | inr stops ↦ ground (arith, walks_agree q)
  ]

  -- Two disks that read alike wherever both lead to from a folder hold the same below it.
  pub tree_agrees : (p : RelPath) → tree disk d p ≡ tree disk' d p
  tree_agrees p = elim (Bool-cases (walks disk d p)) [
    | inl w ↦
        let w' = sym (walks_agree p) ∙ w in
        tree-walked disk d p w ∙ same p w w' ∙ sym (tree-walked disk' d p w')
    | inr stops ↦
        tree-unwalked disk d p stops ∙ sym (tree-unwalked disk' d p (sym (walks_agree p) ∙ stops))
  ]
