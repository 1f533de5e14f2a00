-- ===== src/FuzzyIndex/Vault/Equivalence.antt =====
-- `reconcile_dir` brings the model to where a full scan would.
use zeromux.Prelude.{
  ℕ, zero, suc, ◌≤◌, ◌≡◌, refl, sym, ◌∙◌, String, true, false, none, some, [], ◌∷◌, arith,
  Bool-cases, Option-cases, inl, inr, any,
}
use zeromux.FuzzyIndex.Vault.{
  RelPath, Disk, Dirs, read_node, skip_name, is_under, removes, get_child, usize_max, reconcile_dir,
}
use zeromux.FuzzyIndex.Vault.Tree.{
  is_under-length, lists, walks, tree, walks-is_under, walks-through, child-of_lists,
  readable-of_lists, tree-walked, tree-unwalked,
}
use zeromux.FuzzyIndex.Vault.Nodes.{Unskipped-read_node}
use zeromux.FuzzyIndex.Vault.Scan.{Sizes}
use zeromux.FuzzyIndex.Vault.Below.{tree_agrees, walks_child, walks_trans}
use zeromux.FuzzyIndex.Vault.Links.{Linked}
use zeromux.FuzzyIndex.Vault.Visit.{Renewed}
use zeromux.FuzzyIndex.Vault.Reconcile.{size_child, DeepSame, reconcile_with_lem}

module _ (disk : Disk) where
  -- A folder that is listed has a name that is not skipped.
  shown_child : (d : RelPath) (n : String) → lists disk d n ≡ true → skip_name n ≡ false
  shown_child d n l =
      let (node, read) = readable-of_lists disk d n l in
      let is = child-of_lists disk d node n read l in
      elim (Option-cases (get_child n node)) [
        | inl nothing ↦ ground arith
        | inr (c, at) ↦ Unskipped-read_node disk d node read n c at
      ]

  size_listed :
      (sizes : Sizes disk) (d : RelPath) (n : String)
      → lists disk d n ≡ true
      → sizes.size (n ∷ d) ≤ sizes.size d
  size_listed sizes d n l =
      let (node, read) = readable-of_lists disk d n l in
      size_child disk sizes d node n read (child-of_lists disk d node n read l)

  -- A folder that the root leads to.
  pub walked_parent :
      (n : String) (q : RelPath)
      → walks disk [] (n ∷ q) ≡ true
      → (walks disk [] q ≡ true) × (lists disk q n ≡ true)
  unfolding walks
  walked_parent n q w = (ground arith, ground arith)

  pub shown_path : (d : RelPath) → walks disk [] d ≡ true → any skip_name d ≡ false
  shown_path [] w = refl
  shown_path (n ∷ q) w =
      let (w', l) = walked_parent n q w in
      let name_shown = shown_child q n l in ground (arith, shown_path q w')

  pub size_path :
      (sizes : Sizes disk) (d : RelPath) → walks disk [] d ≡ true → sizes.size d ≤ sizes.size []
  size_path sizes [] w = omega arith
  size_path sizes (n ∷ q) w =
      let (w', l) = walked_parent n q w in
      omega (arith, size_listed sizes q n l, size_path sizes q w')

  pub Linked-path :
      (d : RelPath) (m : Dirs)
      → ((p : RelPath) → m p ≡ tree disk [] p)
      → walks disk [] d ≡ true
      → Linked d m
  Linked-path [] m at w = tt
  Linked-path (n ∷ q) m at w =
      let (w', l) = walked_parent n q w in
      let (node, read) = readable-of_lists disk q n l in
      (
        (node, at q ∙ tree-walked disk [] q w' ∙ read, child-of_lists disk q node n read l),
        Linked-path q m at w',
      )

  pub tree_from :
      (d p : RelPath)
      → walks disk [] d ≡ true
      → is_under d p ≡ true
      → tree disk [] p ≡ tree disk d p
  tree_from d p w u = elim (Bool-cases (walks disk d p)) [
    | inl w' ↦ tree-walked disk [] p (walks_trans disk [] d p w w') ∙ sym (tree-walked disk d p w')
    | inr stops ↦
        let never : walks disk [] p ≡ false =
          ground (arith, walks-through disk [] d p, walks-is_under disk [] d w) in
        tree-unwalked disk [] p never ∙ sym (tree-unwalked disk d p stops)
  ]

pub removes_child :
    (n : String) (d p : RelPath) → is_under (n ∷ d) p ≡ true → removes (n ∷ d) p ≡ true
unfolding removes
removes_child n d p u = u

module _ (old disk : Disk) (sizes : Sizes disk) (fuel : ℕ) (small : fuel ≤ usize_max) where
  -- A known child is left alone when no more levels are to be read.
  left_alone :
      (d : RelPath) (n : String) (m : Dirs)
      → DeepSame old disk zero d
      → lists old d n ≡ true
      → lists disk d n ≡ true
      → ((p : RelPath) → is_under (n ∷ d) p ≡ true → m p ≡ tree old (n ∷ d) p)
      → Renewed disk (n ∷ d) m m
  left_alone d n m same was l at p = elim (Bool-cases (is_under (n ∷ d) p)) [
    | inr out ↦ rw out
    | inl u ↦
        let agrees =
          tree_agrees old disk (n ∷ d)
            (λ q w w'.
              let deep = is_under-length (n ∷ d) q (walks-is_under old (n ∷ d) q w) in
              same q (walks_child old n d q was w) (walks_child disk n d q l w') (omega arith))
            p in
        rw u (at p u ∙ agrees)
  ]

  pub reconcile_dir_lem :
      (known_depth : ℕ) (d : RelPath) (m : Dirs)
      → sizes.size d ≤ fuel
      → any skip_name d ≡ false
      → (read_node disk d ≡ none → (p : RelPath) → is_under d p ≡ true → removes d p ≡ true)
      → ((p : RelPath) → is_under d p ≡ true → m p ≡ tree old d p)
      → Linked d m
      → DeepSame old disk known_depth d
      → (m' : Dirs) × (reconcile_dir disk fuel known_depth d m ≡ some m') × Renewed disk d m m'
  unfolding reconcile_dir
  reconcile_dir_lem zero d m enough shown whole at linked same =
      reconcile_with_lem old disk sizes fuel small (λ child m'. some m') d m enough shown whole at
        linked (λ n m' was l at' linked'. (m', refl, left_alone d n m' same was l at'))
  reconcile_dir_lem (suc k) d m enough shown whole at linked same =
      reconcile_with_lem old disk sizes fuel small (reconcile_dir disk fuel k) d m enough shown
        whole at linked
        (λ n m' was l at' linked'.
          let smaller = size_listed disk sizes d n l in
          let name_shown = shown_child disk d n l in
          reconcile_dir_lem k (n ∷ d) m' (omega arith) (ground arith)
            (λ failed p u. removes_child n d p u) at' linked'
            (λ p w w' deep.
              same p (walks_child old n d p was w) (walks_child disk n d p l w') (omega arith)))
