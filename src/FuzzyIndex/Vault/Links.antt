-- ===== src/FuzzyIndex/Vault/Links.antt =====
-- The parts of `reconcile_dir_with`: the children that are gone, and the ancestors that list the folder.
use mathlib.Core.Path.{fun_ext}
use zeromux.Prelude.{
  ◌≡◌, refl, sym, ◌∙◌, subst, String, str_eq, eq_iff, Bool, true, false, ◌&&◌, ◌||◌, none, some, [],
  ◌∷◌, arith, if◌then◌else◌, Bool-cases, inl, inr, unwrap_or,
}
use zeromux.FuzzyIndex.Vault.{
  RelPath, DirNode, Dirs, path_eq, is_under, insert, list_child, removes, remove_subtree, get_child,
  is_dir_child, gone, drop_gone, link_ancestors,
}
use zeromux.FuzzyIndex.Vault.Tree.{path_eq→≡, insert_self, insert_other}
use zeromux.FuzzyIndex.Vault.Below.{not_itself, same_child, is_under_parent}

-- Every ancestor of the folder is in the model and lists the next.
abbrev pub Linked : RelPath → Dirs → Type 0
Linked [] m = Unit {0}
Linked (n ∷ q) m =
    ((node : DirNode) × (m q ≡ some node) × (is_dir_child (get_child n node) ≡ true)) × Linked q m

insert_same : (d : RelPath) (node : DirNode) (m : Dirs) → m d ≡ some node → insert d node m ≡ m
insert_same d node m e = fun_ext (λ p. elim (Bool-cases (path_eq d p)) [
  | inl here ↦
      insert_self d node m p here
      ∙ subst (λ (x : RelPath). some node ≡ m x) (path_eq→≡ d p here) (sym e)
  | inr there ↦ insert_other d node m p there
])

list_child_same :
    (n : String) (node : DirNode)
    → is_dir_child (get_child n node) ≡ true
    → list_child n node ≡ node
unfolding list_child
list_child_same n node h = ground arith

-- Then nothing is to be linked.
pub link_ancestors_same : (d : RelPath) (m : Dirs) → Linked d m → link_ancestors d m ≡ m
unfolding link_ancestors
link_ancestors_same [] m h = refl
link_ancestors_same (n ∷ q) m ((node, at, l), h) =
    let e : insert q (list_child n (unwrap_or (m q) [])) m ≡ m =
      rw (at, list_child_same n node l) (insert_same q node m at) in
    rw e (link_ancestors_same q m h)

-- A path is below a child that the disk has no more.
pub is_below_gone : RelPath → DirNode → DirNode → RelPath → Bool
is_below_gone d fresh [] p = false
is_below_gone d fresh ((n, c) ∷ old) p =
    gone fresh (n, c) && is_under (n ∷ d) p || is_below_gone d fresh old p

pub drop_gone_lem :
    (d : RelPath) (fresh old : DirNode) (m : Dirs) (p : RelPath)
    → drop_gone d fresh old m p ≡ (if is_below_gone d fresh old p then none else m p)
unfolding drop_gone is_below_gone remove_subtree removes
drop_gone_lem d fresh [] m p = refl
drop_gone_lem d fresh ((n, c) ∷ old) m p = elim (Bool-cases (gone fresh (n, c))) [
  | inl g ↦ rw g (ground (arith, drop_gone_lem d fresh old (remove_subtree (n ∷ d) m) p))
  | inr stays ↦ rw stays (drop_gone_lem d fresh old m p)
]

module _ (d : RelPath) (fresh : DirNode) where
  -- A child that was a folder and is none now is gone.
  pub below_gone :
      (n : String) (old : DirNode) (p : RelPath)
      → is_dir_child (get_child n old) ≡ true
      → is_dir_child (get_child n fresh) ≡ false
      → is_under (n ∷ d) p ≡ true
      → is_below_gone d fresh old p ≡ true
  unfolding is_below_gone gone get_child
  below_gone n [] p was is u = cc
  below_gone n ((k, c) ∷ old) p was is u = elim (Bool-cases (str_eq k n)) [
    | inl same ↦ let e : k ≡ n = (eq_iff k n).0 same in ground (arith, e)
    | inr more ↦ ground (arith, below_gone n old p)
  ]

  -- What is below a child that is a folder stays.
  pub below_kept :
      (n : String) (old : DirNode) (p : RelPath)
      → is_dir_child (get_child n fresh) ≡ true
      → is_under (n ∷ d) p ≡ true
      → is_below_gone d fresh old p ≡ false
  unfolding is_below_gone gone
  below_kept n [] p is u = refl
  below_kept n ((k, c) ∷ old) p is u = elim (Bool-cases (is_under (k ∷ d) p)) [
    | inl below ↦
        let e : k ≡ n = same_child k n d p below u in
        let is' = subst (λ (x : String). is_dir_child (get_child x fresh) ≡ true) (sym e) is in
        ground (arith, below_kept n old p)
    | inr beside ↦ ground (arith, below_kept n old p)
  ]

  -- And so does what is not below the folder.
  pub beside_kept :
      (old : DirNode) (p : RelPath) → is_under d p ≡ false → is_below_gone d fresh old p ≡ false
  unfolding is_below_gone
  beside_kept [] p out = refl
  beside_kept ((k, c) ∷ old) p out = ground (arith, is_under_parent k d p, beside_kept old p)

  -- The folder itself stays.
  pub itself_kept : (old : DirNode) → is_below_gone d fresh old d ≡ false
  unfolding is_below_gone
  itself_kept [] = refl
  itself_kept ((k, c) ∷ old) = ground (arith, not_itself k d, itself_kept old)
