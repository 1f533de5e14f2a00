-- ===== src/FuzzyIndex/Vault/Reconcile.antt =====
-- `reconcile_dir` brings the model to where a full scan of the disk would.
use zeromux.Prelude.{
  ℕ, ◌+◌, ◌≤◌, ◌<◌, ◌≡◌, sym, ap, ◌∙◌, subst, String, str_eq, eq_iff, true, false, ◌&&◌, Option,
  none, some, [], ◌∷◌, arith, if◌then◌else◌, Bool-cases, Option-cases, inl, inr, length, any,
  unwrap_or, not,
}
use zeromux.FuzzyIndex.Vault.{
  RelPath, Disk, dir, other, md, DirNode, Dirs, read_node, skip_name, path_eq, is_under, insert,
  removes, remove_subtree, get_child, is_dir_child, subdirs, usize_max, drop_gone, link_ancestors,
  visit_children, reread, reconcile_with,
}
use zeromux.FuzzyIndex.Vault.Tree.{
  path_eq→≡, path_eq_refl, is_under-length, lists, walks, tree, walks_refl, lists-of_child,
  child-of_lists, tree-walked, is_under_refl, removes-is_under, insert_self, insert_other,
  remove_subtree_in, remove_subtree_out,
}
use zeromux.FuzzyIndex.Vault.Nodes.{Distinct-read_node}
use zeromux.FuzzyIndex.Vault.Scan.{Sizes, weigh}
use zeromux.FuzzyIndex.Vault.Below.{
  not_itself, is_under_parent, is_under-first, tree_unlisted, tree-unreadable,
}
use zeromux.FuzzyIndex.Vault.Links.{
  Linked, link_ancestors_same, drop_gone_lem, below_gone, below_kept, beside_kept,
}
use zeromux.FuzzyIndex.Vault.Visit.{
  pending, pending_itself, pending_child, pending_file, Renewed, Deepens, Visited, Renewed-Visited,
  visit_children_lem, Linked-same,
}

weigh_listed :
    (size : RelPath → ℕ) (d : RelPath) (j : ℕ) (node : DirNode) (n : String)
    → is_dir_child (get_child n node) ≡ true
    → size (n ∷ d) ≤ weigh size (subdirs d j node)
unfolding weigh subdirs get_child
weigh_listed size d j [] n h = cc
weigh_listed size d j ((k, dir) ∷ node) n h = elim (Bool-cases (str_eq k n)) [
  | inl same ↦ let e = ap (λ x. size (x ∷ d)) ((eq_iff k n).0 same) in omega arith
  | inr more ↦ let ih = weigh_listed size d j node n (ground arith) in omega arith
]
weigh_listed size d j ((k, other) ∷ node) n h = weigh_listed size d j node n (ground arith)
weigh_listed size d j ((k, md t) ∷ node) n h = weigh_listed size d j node n (ground arith)

pub size_child :
    (disk : Disk) (sizes : Sizes disk) (d : RelPath) (node : DirNode) (n : String)
    → read_node disk d ≡ some node
    → is_dir_child (get_child n node) ≡ true
    → sizes.size (n ∷ d) ≤ sizes.size d
size_child disk sizes d node n read h =
    omega (arith, sizes.splits d node 0 read, weigh_listed sizes.size d 0 node n h)

-- The names that lead to a path, as the loop of its own reads them.
lists-unwrap :
    (disk : Disk) (d : RelPath) (n : String)
    → is_dir_child (get_child n (unwrap_or (read_node disk d) [])) ≡ lists disk d n
unfolding lists get_child
lists-unwrap disk d n = ground arith

-- Below the folder and more than so many levels deep, what both disks lead to reads the same.
abbrev pub DeepSame : Disk → Disk → ℕ → RelPath → Type 0
DeepSame old disk known_depth d =
    (p : RelPath)
    → walks old d p ≡ true
    → walks disk d p ≡ true
    → length d + known_depth < length p
    → read_node old p ≡ read_node disk p

pub not_under : (d q : RelPath) → length q < length d → is_under d q ≡ false
not_under d q short = ground (arith, is_under-length d q)

module _ (old disk : Disk) (sizes : Sizes disk) (fuel : ℕ) (small : fuel ≤ usize_max) where
  module _ (d : RelPath) (m : Dirs) (fresh : DirNode) (read : read_node disk d ≡ some fresh)
      (up_to_date : (p : RelPath) → is_under d p ≡ true → m p ≡ tree old d p) where
    old_node : DirNode
    old_node = unwrap_or (m d) []

    had : (n : String) → is_dir_child (get_child n old_node) ≡ lists old d n
    unfolding old_node
    had n =
        let e : m d ≡ read_node old d =
          up_to_date d (is_under_refl d) ∙ tree-walked old d d (walks_refl old d) in
        rw e (lists-unwrap old d n)

    read_again : Dirs
    read_again = insert d fresh (drop_gone d fresh old_node m)

    ready_child :
        (n : String) (p : RelPath)
        → is_under (n ∷ d) p ≡ true
        → drop_gone d fresh old_node m p ≡ (if pending d fresh p then m p else tree disk d p)
    ready_child n p u = elim (Bool-cases (is_dir_child (get_child n fresh))) [
      | inl stays ↦ rw (
        drop_gone_lem d fresh old_node m p,
        below_kept d fresh n old_node p stays u,
        pending_child d n fresh p stays u,
      )
      | inr leaves ↦
          let unlisted : lists disk d n ≡ false =
            ground (arith, child-of_lists disk d fresh n read) in
          let nothing = tree_unlisted disk n d p u unlisted in
          rw
            (
              drop_gone_lem d fresh old_node m p,
              pending_file d n fresh p (Distinct-read_node disk d fresh read) leaves u,
              nothing,
            )
            (elim (Bool-cases (lists old d n)) [
              | inl was ↦ rw (below_gone d fresh n old_node p (had n ∙ was) leaves u)
              | inr never ↦
                  let none_before =
                    up_to_date p (is_under_parent n d p u) ∙ tree_unlisted old n d p u never in
                  ground arith
            ])
    ]

    ready_itself :
        read_again d ≡ (if is_under d d && not (pending d fresh d) then tree disk d d else m d)
    unfolding read_again
    ready_itself = rw (
      insert_self d fresh (drop_gone d fresh old_node m) d (path_eq_refl d),
      is_under_refl d,
      pending_itself d fresh,
      tree-walked disk d d (walks_refl disk d),
      read,
    )

    -- Before the loop, what is below the folder and not below a child of it is as on the disk.
    ready : Visited old disk sizes fuel small d m fresh read_again
    unfolding read_again
    ready p = elim (Bool-cases (is_under d p)) [
      | inr out ↦
          let apart : path_eq d p ≡ false =
            ground (arith, is_under_refl d, ap (is_under d), path_eq→≡ d p) in
          rw (
            insert_other d fresh (drop_gone d fresh old_node m) p apart,
            drop_gone_lem d fresh old_node m p,
            beside_kept d fresh old_node p out,
            out,
          )
      | inl inside ↦ elim (is_under-first d p inside) [
        | inl e ↦
            subst
              (λ (x : RelPath).
                read_again x
                ≡ (if is_under d x && not (pending d fresh x) then tree disk d x else m x))
              e ready_itself
        | inr (n, u) ↦
            let apart : path_eq d p ≡ false =
              ground
                (arith, not_itself n d, path_eq→≡ d p, ap (is_under (n ∷ d)) {x = d} {y = p}) in
            ground (
              arith,
              insert_other d fresh (drop_gone d fresh old_node m) p apart,
              ready_child n p u,
            )
      ]
    ]

    size_le :
        (n : String)
        → is_dir_child (get_child n fresh) ≡ true
        → sizes.size d ≤ fuel
        → sizes.size (n ∷ d) ≤ fuel
    size_le n is enough = omega (arith, size_child disk sizes d fresh n read is)

    reread-eq-some :
        (deeper : RelPath → Dirs → Option Dirs) (m' : Dirs)
        → visit_children disk fuel deeper d old_node fresh read_again ≡ some m'
        → link_ancestors d m' ≡ m'
        → reread disk fuel deeper d fresh m ≡ some m'
    unfolding reread old_node read_again
    reread-eq-some deeper m' e same = rw (reread, e, same)

    reread_lem :
        (deeper : RelPath → Dirs → Option Dirs)
        → sizes.size d ≤ fuel
        → Linked d m
        → Deepens old disk sizes fuel small deeper d
        → (m' : Dirs) × (reread disk fuel deeper d fresh m ≡ some m') × Renewed disk d m m'
    reread_lem deeper enough linked deepens =
        let roomy = λ (n : String) (l : lists disk d n ≡ true).
          let is = child-of_lists disk d fresh n read l in size_le n is enough in
        let (m', ends, v) =
          visit_children_lem old disk sizes fuel small d m fresh old_node read had up_to_date linked
            roomy deeper fresh read_again deepens (Distinct-read_node disk d fresh read)
            (λ n is. lists-of_child disk d fresh n read is) ready in
        let r = Renewed-Visited old disk sizes fuel small d m m' v in
        let linked' = Linked-same d m m' (λ q short. r q ∙ rw (not_under d q short)) linked in
        (m', reread-eq-some deeper m' ends (link_ancestors_same d m' linked'), r)

  -- The folder is taken out of the model where the disk has it no more.
  unreadable_lem :
      (d : RelPath) (m : Dirs)
      → read_node disk d ≡ none
      → ((p : RelPath) → is_under d p ≡ true → removes d p ≡ true)
      → Renewed disk d m (remove_subtree d m)
  unreadable_lem d m read whole p = elim (Bool-cases (is_under d p)) [
    | inl u ↦ rw u (remove_subtree_in d m p (whole p u) ∙ sym (tree-unreadable disk d p u read))
    | inr out ↦ rw out (remove_subtree_out d m p (ground (arith, removes-is_under d p)))
  ]

  pub reconcile_with_lem :
      (deeper : RelPath → Dirs → Option Dirs) (d : RelPath) (m : Dirs)
      → sizes.size d ≤ fuel
      → any skip_name d ≡ false
      → (read_node disk d ≡ none → (p : RelPath) → is_under d p ≡ true → removes d p ≡ true)
      → ((p : RelPath) → is_under d p ≡ true → m p ≡ tree old d p)
      → Linked d m
      → Deepens old disk sizes fuel small deeper d
      → (m' : Dirs) × (reconcile_with disk fuel deeper d m ≡ some m') × Renewed disk d m m'
  unfolding reconcile_with
  reconcile_with_lem deeper d m enough shown whole up_to_date linked deepens =
      elim (Option-cases (read_node disk d)) [
        | inl failed ↦ (
          remove_subtree d m,
          rw (reconcile_with, shown, failed),
          unreadable_lem d m failed (whole failed),
        )
        | inr (fresh, read) ↦
            let (m', ends, r) = reread_lem d m fresh read up_to_date deeper enough linked deepens in
            (m', rw (reconcile_with, shown, read) ends, r)
      ]
