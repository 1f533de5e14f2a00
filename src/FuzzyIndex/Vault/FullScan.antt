-- ===== src/FuzzyIndex/Vault/FullScan.antt =====
-- `full_scan`, and reconciling as against scanning again.
use zeromux.Prelude.{
  ℕ, ◌≤◌, ◌≡◌, refl, sym, ap, ◌∙◌, true, false, none, some, [], ◌∷◌, arith, Bool-cases,
  Option-cases, inl, inr, ◌⊎◌, if_cases, ◌≢◌,
}
use zeromux.FuzzyIndex.Vault.{
  RelPath, Disk, Dirs, read_node, is_under, removes, full_scan, Scanned, unreadable, scanned,
  out_of_fuel, no_dirs, usize_max, reconcile_dir,
}
use zeromux.FuzzyIndex.Vault.Tree.{
  is_under-length, walks, tree, lists_agree, tree-walked, tree-unwalked,
}
use zeromux.FuzzyIndex.Vault.Scan.{Sizes, scan_subtree_lem}
use zeromux.FuzzyIndex.Vault.Reconcile.{DeepSame}
use zeromux.FuzzyIndex.Vault.Equivalence.{
  shown_path, size_path, Linked-path, tree_from, reconcile_dir_lem, removes_child,
}

is_under_root : (p : RelPath) → is_under [] p ≡ true
unfolding is_under
is_under_root [] = refl
is_under_root (n ∷ q) = ground (arith, is_under_root q)

-- With fuel for the size of the disk, a full scan fails exactly if the root cannot be read, and gives
-- else what every folder holds that the root leads to by the folders listed, and nothing else.
pub full_scan-scanned :
    (disk : Disk) (sizes : Sizes disk) (fuel : ℕ)
    → sizes.size [] ≤ fuel
    → fuel ≤ usize_max
    → ((read_node disk [] ≡ none) × (full_scan disk fuel ≡ unreadable))
      ⊎ ((m : Dirs) × (full_scan disk fuel ≡ scanned m) × ((p : RelPath) → m p ≡ tree disk [] p))
unfolding full_scan
full_scan-scanned disk sizes fuel enough small = elim (Option-cases (read_node disk [])) [
  | inl failed ↦ inl (failed, rw (full_scan, failed))
  | inr (node, read) ↦
      let (m, ends, at) = scan_subtree_lem disk sizes [] fuel no_dirs enough small (λ p u. refl) in
      inr (m, rw (full_scan, read, ends), λ p. at p ∙ rw (is_under_root p))
]

module _ (old disk : Disk) (d : RelPath)
    (outside : (p : RelPath) → is_under d p ≡ false → read_node old p ≡ read_node disk p) where
  same_walks : (p : RelPath) → is_under d p ≡ false → walks old [] p ≡ walks disk [] p
  unfolding walks is_under
  same_walks [] out = refl
  same_walks (n ∷ q) out =
      let out' : is_under d q ≡ false = ground arith in
      ground (arith, same_walks q out', lists_agree old disk q n (outside q out'))

  same_tree : (p : RelPath) → is_under d p ≡ false → tree old [] p ≡ tree disk [] p
  same_tree p out = elim (Bool-cases (walks disk [] p)) [
    | inl w ↦
        tree-walked old [] p (same_walks p out ∙ w) ∙ outside p out ∙ sym (tree-walked disk [] p w)
    | inr stops ↦
        tree-unwalked old [] p (same_walks p out ∙ stops) ∙ sym (tree-unwalked disk [] p stops)
  ]

walked_again :
    (old disk : Disk) (d : RelPath)
    → ((p : RelPath) → is_under d p ≡ false → read_node old p ≡ read_node disk p)
    → walks old [] d ≡ true
    → walks disk [] d ≡ true
unfolding walks
walked_again old disk [] outside w = refl
walked_again old disk (n ∷ q) outside w =
    let out : is_under (n ∷ q) q ≡ false = ground (arith, is_under-length (n ∷ q) q) in
    ground
      (arith, same_walks old disk (n ∷ q) outside q out, lists_agree old disk q n (outside q out))

size_fits :
    (disk : Disk) (sizes : Sizes disk) (d : RelPath) (fuel : ℕ)
    → walks disk [] d ≡ true
    → sizes.size [] ≤ fuel
    → sizes.size d ≤ fuel
size_fits disk sizes d fuel w enough = omega (arith, size_path disk sizes d w)

removes_readable :
    (disk : Disk) (d : RelPath)
    → read_node disk [] ≢ none
    → read_node disk d ≡ none
    → (p : RelPath) → is_under d p ≡ true
    → removes d p ≡ true
removes_readable disk [] root failed p u = absurd (root failed)
removes_readable disk (n ∷ d) root failed p u = removes_child n d p u

dirs_of : Scanned → Dirs
dirs_of unreadable = no_dirs
dirs_of out_of_fuel = no_dirs
dirs_of (scanned m) = m

scanned-tree :
    (disk : Disk) (sizes : Sizes disk) (fuel : ℕ) (m : Dirs)
    → sizes.size [] ≤ fuel
    → fuel ≤ usize_max
    → full_scan disk fuel ≡ scanned m
    → (p : RelPath) → m p ≡ tree disk [] p
unfolding dirs_of
scanned-tree disk sizes fuel m enough small was p =
    elim (full_scan-scanned disk sizes fuel enough small) [
      | inl (failed, e) ↦ cc
      | inr (m', e, at) ↦ ap (λ s. dirs_of s p) (sym was ∙ e) ∙ at p
    ]

-- If the model is what a full scan of the disk gave, the disk has since changed in a folder that the
-- model had and below it alone, and there only in that folder, in known ones at most `known_depth`
-- levels below it, and in new ones at any depth, then reconciling the folder gives what a full scan of
-- the disk gives now, if the root can be read and the fuel is for the size of both disks.
pub reconcile_dir-full_scan :
    (old disk : Disk) (sizes : Sizes old) (sizes' : Sizes disk) (fuel known_depth : ℕ) (d : RelPath)
    (m : Dirs)
    → sizes.size [] ≤ fuel
    → sizes'.size [] ≤ fuel
    → fuel ≤ usize_max
    → full_scan old fuel ≡ scanned m
    → read_node disk [] ≢ none
    → walks old [] d ≡ true
    → ((p : RelPath) → is_under d p ≡ false → read_node old p ≡ read_node disk p)
    → DeepSame old disk known_depth d
    → (m' : Dirs) × (m'' : Dirs) × (reconcile_dir disk fuel known_depth d m ≡ some m')
      × (full_scan disk fuel ≡ scanned m'')
      × ((p : RelPath) → m' p ≡ m'' p)
reconcile_dir-full_scan old disk sizes sizes' fuel known_depth d m e e' small was root w outside
      same =
    let at = scanned-tree old sizes fuel m e small was in
    let w' = walked_again old disk d outside w in
    let (m', ends, r) =
      reconcile_dir_lem old disk sizes' fuel small known_depth d m
        (size_fits disk sizes' d fuel w' e') (shown_path old d w) (removes_readable disk d root)
        (λ p u. at p ∙ tree_from old d p w u) (Linked-path old d m at w) same in
    elim (full_scan-scanned disk sizes' fuel e' small) [
      | inl (failed, unread) ↦ absurd (root failed)
      | inr (m'', ends', at') ↦ (
        m',
        m'',
        ends,
        ends',
        λ p.
            r p
            ∙ if_cases (λ o. o ≡ m'' p) (is_under d p) (tree disk d p) (m p)
                (λ u. sym (tree_from disk d p w' u) ∙ sym (at' p))
                (λ out. at p ∙ same_tree old disk d outside p out ∙ sym (at' p)),
      )
    ]
