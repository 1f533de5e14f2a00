-- ===== src/FuzzyIndex/Vault/Visit.antt =====
-- The loop of `reconcile_dir_with` over the children of the folder that it reads again.
use zeromux.Prelude.{
  ℕ, ◌≤◌, ◌<◌, ◌≡◌, refl, sym, ◌∙◌, String, str_eq, eq_iff, Bool, true, false, ◌&&◌, ◌||◌, Option,
  none, some, [], ◌∷◌, arith, if◌then◌else◌, Bool-cases, inl, inr, length, is_some, not,
}
use zeromux.FuzzyIndex.Vault.{
  RelPath, Disk, Child, dir, other, md, DirNode, Dirs, read_node, is_under, get_child, is_dir_child,
  scan_subtree, usize_max, visit_children,
}
use zeromux.FuzzyIndex.Vault.Tree.{
  is_under-length, lists, tree, walks_refl, child-of_lists, tree-walked, is_under_refl,
}
use zeromux.FuzzyIndex.Vault.Nodes.{Distinct}
use zeromux.FuzzyIndex.Vault.Scan.{Sizes, scan_subtree_lem}
use zeromux.FuzzyIndex.Vault.Below.{
  not_itself, same_child, is_under_parent, tree_child, tree_unlisted, tree-unreadable,
}
use zeromux.FuzzyIndex.Vault.Links.{Linked}

still_dir :
    (n : String) (c : Child) (rest : DirNode) (j : String)
    → get_child n rest ≡ none
    → is_dir_child (get_child j rest) ≡ true
    → is_dir_child (get_child j ((n, c) ∷ rest)) ≡ true
unfolding get_child
still_dir n c rest j h e = ground (arith, eq_iff n j)

-- A path is below a child that is still to be visited.
pub pending : RelPath → DirNode → RelPath → Bool
pending d [] p = false
pending d ((n, c) ∷ rest) p = is_dir_child (some c) && is_under (n ∷ d) p || pending d rest p

pending_other :
    (d : RelPath) (n : String) (rest : DirNode) (p : RelPath)
    → get_child n rest ≡ none
    → is_under (n ∷ d) p ≡ true
    → pending d rest p ≡ false
unfolding pending get_child
pending_other d n [] p h u = refl
pending_other d n ((k, c) ∷ rest) p h u =
    ground (arith, same_child k n d p, eq_iff k n, pending_other d n rest p)

pub pending_itself : (d : RelPath) (rest : DirNode) → pending d rest d ≡ false
unfolding pending
pending_itself d [] = refl
pending_itself d ((k, c) ∷ rest) = ground (arith, not_itself k d, pending_itself d rest)

pub pending_child :
    (d : RelPath) (n : String) (rest : DirNode) (p : RelPath)
    → is_dir_child (get_child n rest) ≡ true
    → is_under (n ∷ d) p ≡ true
    → pending d rest p ≡ true
unfolding pending get_child
pending_child d n [] p h u = cc
pending_child d n ((k, c) ∷ rest) p h u = elim (Bool-cases (str_eq k n)) [
  | inl same ↦ let e : k ≡ n = (eq_iff k n).0 same in ground (arith, e)
  | inr more ↦ ground (arith, pending_child d n rest p)
]

pub pending_file :
    (d : RelPath) (n : String) (rest : DirNode) (p : RelPath)
    → Distinct rest
    → is_dir_child (get_child n rest) ≡ false
    → is_under (n ∷ d) p ≡ true
    → pending d rest p ≡ false
unfolding pending get_child
pending_file d n [] p distinct h u = refl
pending_file d n ((k, c) ∷ rest) p distinct h u = elim (Bool-cases (str_eq k n)) [
  | inl same ↦
      let e : k ≡ n = (eq_iff k n).0 same in
      let others = pending_other d k rest p distinct.0 (rw e u) in ground arith
  | inr more ↦ ground (arith, eq_iff k n, same_child k n d p, pending_file d n rest p distinct.1)
]

pub Linked-same :
    (d : RelPath) (m m' : Dirs)
    → ((q : RelPath) → length q < length d → m' q ≡ m q)
    → Linked d m
    → Linked d m'
Linked-same [] m m' same h = tt
Linked-same (n ∷ q) m m' same ((node, at, l), h) =
    ((node, same q (omega arith) ∙ at, l), Linked-same q m m' (λ r s. same r (omega arith)) h)

-- The model after a step renews what is below `c` and leaves the rest.
abbrev pub Renewed : Disk → RelPath → Dirs → Dirs → Type 0
Renewed disk c m m' = (p : RelPath) → m' p ≡ (if is_under c p then tree disk c p else m p)

module _ (old disk : Disk) (sizes : Sizes disk) (fuel : ℕ) (small : fuel ≤ usize_max) where
  -- What is wanted of the step for a child that the model knew.
  abbrev pub Deepens : (RelPath → Dirs → Option Dirs) → RelPath → Type 0
  Deepens deeper d =
      (n : String) (m : Dirs)
      → lists old d n ≡ true
      → lists disk d n ≡ true
      → ((p : RelPath) → is_under (n ∷ d) p ≡ true → m p ≡ tree old (n ∷ d) p)
      → Linked (n ∷ d) m
      → (m' : Dirs) × (deeper (n ∷ d) m ≡ some m') × Renewed disk (n ∷ d) m m'

  module _ (d : RelPath) (before : Dirs) where
    -- What is below a child that is still to be visited is as before, the rest below the folder is as
    -- on the disk.
    abbrev pub Visited : DirNode → Dirs → Type 0
    Visited rest m =
        (p : RelPath)
        → m p ≡ (if is_under d p && not (pending d rest p) then tree disk d p else before p)

    child_done :
        (n : String) (rest : DirNode) (m m' : Dirs)
        → get_child n rest ≡ none
        → lists disk d n ≡ true
        → Visited ((n, dir) ∷ rest) m
        → Renewed disk (n ∷ d) m m'
        → Visited rest m'
    unfolding pending
    child_done n rest m m' fresh l v r p = elim (Bool-cases (is_under (n ∷ d) p)) [
      | inl u ↦
          let others = pending_other d n rest p fresh u in
          let whole = tree_child disk n d p u l in
          let above = is_under_parent n d p u in ground (arith, r p)
      | inr beside ↦ ground (arith, r p, v p)
    ]

    module _ (fresh old_node : DirNode) (read : read_node disk d ≡ some fresh)
        (had : (n : String) → is_dir_child (get_child n old_node) ≡ lists old d n)
        (up_to_date : (p : RelPath) → is_under d p ≡ true → before p ≡ tree old d p)
        (linked : Linked d before)
        (roomy : (n : String) → lists disk d n ≡ true → sizes.size (n ∷ d) ≤ fuel) where
      -- What is below a child that waits.
      waiting :
          (n : String) (rest : DirNode) (m : Dirs)
          → Visited ((n, dir) ∷ rest) m
          → (p : RelPath) → is_under (n ∷ d) p ≡ true
          → m p ≡ tree old d p
      unfolding pending
      waiting n rest m v p u =
          let above = is_under_parent n d p u in ground (arith, v p, up_to_date p above)

      itself : (rest : DirNode) (m : Dirs) → Visited rest m → m d ≡ some fresh
      itself rest m v =
          let here = is_under_refl d in
          let done = pending_itself d rest in
          let there = tree-walked disk d d (walks_refl disk d) in ground (arith, v d, read)

      Linked-child :
          (n : String) (rest : DirNode) (m : Dirs)
          → lists disk d n ≡ true
          → Visited rest m
          → Linked (n ∷ d) m
      Linked-child n rest m l v = (
        (fresh, itself rest m v, child-of_lists disk d fresh n read l),
        Linked-same d before m
            (λ q short.
              let out : is_under d q ≡ false = ground (arith, is_under-length d q) in
              ground (arith, v q))
            linked,
      )

      -- Below a child that the model did not know there is nothing.
      blank :
          (n : String) (m : Dirs)
          → ((p : RelPath) → is_under (n ∷ d) p ≡ true → m p ≡ tree old d p)
          → (is_dir_child (get_child n old_node) && is_some (m (n ∷ d))) ≡ false
          → (p : RelPath) → is_under (n ∷ d) p ≡ true
          → m p ≡ none
      blank n m at unknown p u = elim (Bool-cases (lists old d n)) [
        | inr unlisted ↦ at p u ∙ tree_unlisted old n d p u unlisted
        | inl l ↦
            let c : RelPath = n ∷ d in
            let here = is_under_refl c in
            let read_c : m c ≡ read_node old c =
              at c here ∙ tree_child old n d c here l ∙ tree-walked old c c (walks_refl old c) in
            let failed : read_node old c ≡ none = sym read_c ∙ ground (arith, had n) in
            at p u ∙ tree_child old n d p u l ∙ tree-unreadable old c p u failed
      ]

      visit_child :
          (deeper : RelPath → Dirs → Option Dirs) (n : String) (rest : DirNode) (m : Dirs)
          → Deepens deeper d
          → lists disk d n ≡ true
          → Visited ((n, dir) ∷ rest) m
          → (m' : Dirs) × ((if is_dir_child (get_child n old_node) && is_some (m (n ∷ d))
                then deeper (n ∷ d) m
                else scan_subtree disk fuel usize_max (n ∷ d) m)
              ≡ some m')
            × Renewed disk (n ∷ d) m m'
      visit_child deeper n rest m deepens l v =
          elim (Bool-cases (is_dir_child (get_child n old_node) && is_some (m (n ∷ d)))) [
            | inl known ↦
                let was : lists old d n ≡ true = sym (had n) ∙ ground arith in
                rw known (
                  deepens n m was l (λ p u. waiting n rest m v p u ∙ tree_child old n d p u was)
                    (Linked-child n ((n, dir) ∷ rest) m l v))
            | inr unknown ↦ rw unknown (
                scan_subtree_lem disk sizes (n ∷ d) fuel m (roomy n l) small
                  (blank n m (waiting n rest m v) unknown))
          ]

      visit_children-dir :
          (deeper : RelPath → Dirs → Option Dirs) (n : String) (rest : DirNode) (m m' : Dirs)
          → ((if is_dir_child (get_child n old_node) && is_some (m (n ∷ d))
                then deeper (n ∷ d) m
                else scan_subtree disk fuel usize_max (n ∷ d) m)
              ≡ some m')
          → visit_children disk fuel deeper d old_node ((n, dir) ∷ rest) m
            ≡ visit_children disk fuel deeper d old_node rest m'
      unfolding visit_children
      visit_children-dir deeper n rest m m' e = rw (visit_children, e)

      Visited-file :
          (n : String) (c : Child) (rest : DirNode) (m : Dirs)
          → is_dir_child (some c) ≡ false
          → Visited ((n, c) ∷ rest) m
          → Visited rest m
      unfolding pending
      Visited-file n c rest m file v p = v p ∙ rw file

      -- After the loop all that is below the folder is as on the disk.
      pub visit_children_lem :
          (deeper : RelPath → Dirs → Option Dirs) (rest : DirNode) (m : Dirs)
          → Deepens deeper d
          → Distinct rest
          → ((n : String) → is_dir_child (get_child n rest) ≡ true → lists disk d n ≡ true)
          → Visited rest m
          → (m' : Dirs) × (visit_children disk fuel deeper d old_node rest m ≡ some m')
            × Visited [] m'
      unfolding visit_children get_child
      visit_children_lem deeper [] m deepens u on v = (m, refl, v)
      visit_children_lem deeper ((n, dir) ∷ rest) m deepens u on v =
          let l = on n (ground (arith, eq_iff n n)) in
          let (m', did, r) = visit_child deeper n rest m deepens l v in
          let (m'', ends, v'') =
            visit_children_lem deeper rest m' deepens u.1
              (λ j h. on j (still_dir n dir rest j u.0 h)) (child_done n rest m m' u.0 l v r) in
          (m'', visit_children-dir deeper n rest m m' did ∙ ends, v'')
      visit_children_lem deeper ((n, other) ∷ rest) m deepens u on v =
          visit_children_lem deeper rest m deepens u.1
            (λ j h. on j (still_dir n other rest j u.0 h)) (Visited-file n other rest m refl v)
      visit_children_lem deeper ((n, md t) ∷ rest) m deepens u on v =
          visit_children_lem deeper rest m deepens u.1
            (λ j h. on j (still_dir n (md t) rest j u.0 h)) (Visited-file n (md t) rest m refl v)

    pub Renewed-Visited : (m : Dirs) → Visited [] m → Renewed disk d before m
    unfolding pending
    Renewed-Visited m v p = ground (arith, v p)
