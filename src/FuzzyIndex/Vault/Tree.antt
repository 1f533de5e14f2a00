-- ===== src/FuzzyIndex/Vault/Tree.antt =====
-- The folders that the disk lists from a folder down, and the relation of a path to those above it.
use zeromux.FuzzyIndex.Vault.{
  RelPath, Disk, DirNode, Dirs, read_node, path_eq, is_under, insert, removes, remove_subtree,
  get_child, is_dir_child,
}
use zeromux.Prelude.{
  ◌≤◌, ◌≡◌, refl, ap, subst, String, eq_iff, Bool, true, false, ◌&&◌, ◌||◌, Option, none, some, [],
  ◌∷◌, arith, if◌then◌else◌, Bool-cases, Option-cases, inl, inr, ◌⊎◌, length,
}

pub path_eq→≡ : (p q : RelPath) → path_eq p q ≡ true → p ≡ q
path_eq→≡ [] [] h = refl
path_eq→≡ [] (n ∷ q) h = cc
path_eq→≡ (n ∷ p) [] h = cc
path_eq→≡ (n ∷ p) (k ∷ q) h = ground (arith, eq_iff n k, path_eq→≡ p q)

pub path_eq_refl : (p : RelPath) → path_eq p p ≡ true
path_eq_refl [] = refl
path_eq_refl (n ∷ p) = ground (arith, eq_iff n n, path_eq_refl p)

pub is_under-length : (d p : RelPath) → is_under d p ≡ true → length d ≤ length p
unfolding is_under
is_under-length d [] h = omega (arith, ap (length {A = String}) (path_eq→≡ d [] h))
is_under-length d (n ∷ q) h = elim (Bool-cases (path_eq d (n ∷ q))) [
  | inl e ↦ omega (arith, ap (length {A = String}) (path_eq→≡ d (n ∷ q) e))
  | inr above ↦ omega (arith, is_under-length d q (ground arith))
]

unfoldable pub lists_in : Option DirNode → String → Bool
lists_in none n = false
lists_in (some node) n = is_dir_child (get_child n node)

module _ (disk : Disk) where
  -- The folder lists this name as a folder.
  unfoldable pub lists : RelPath → String → Bool
  unfolding lists_in
  lists q n = lists_in (read_node disk q) n

  -- Every folder from `d` down to the path lists the next.
  unfoldable pub walks : RelPath → RelPath → Bool
  walks d [] = path_eq d []
  walks d (n ∷ q) = path_eq d (n ∷ q) || (walks d q && lists q n)

  -- What the disk holds at the paths that can be walked to from `d`.
  unfoldable pub tree : RelPath → Dirs
  tree d p = if walks d p then read_node disk p else none

  pub walks_refl : (d : RelPath) → walks d d ≡ true
  unfolding walks
  walks_refl [] = refl
  walks_refl (n ∷ q) = ground (arith, path_eq_refl (n ∷ q))

  pub walks-is_under : (d p : RelPath) → walks d p ≡ true → is_under d p ≡ true
  unfolding walks is_under
  walks-is_under d [] h = h
  walks-is_under d (n ∷ q) h = ground (arith, walks-is_under d q)

  -- A walk that passes a folder goes on from it.
  pub walks-through :
      (d e p : RelPath)
      → walks d p ≡ true
      → is_under e p ≡ true
      → is_under d e ≡ true
      → walks e p ≡ true
  unfolding walks is_under
  walks-through d e [] h u v = u
  walks-through d e (n ∷ q) h u v = elim (Bool-cases (path_eq e (n ∷ q))) [
    | inl there ↦ ground arith
    | inr above ↦
        let under : is_under e q ≡ true = ground arith in
        let short = is_under-length e q under in
        let shorter = is_under-length d e v in
        elim (Bool-cases (path_eq d (n ∷ q))) [
          | inl e' ↦ absurd (omega (arith, ap (length {A = String}) (path_eq→≡ d (n ∷ q) e')))
          | inr past ↦ ground (arith, walks-through d e q)
        ]
  ]

  -- A walk from a folder ends there or goes on by one of those it lists.
  pub walks-first :
      (d p : RelPath)
      → walks d p ≡ true
      → (d ≡ p) ⊎ ((n : String) × (lists d n ≡ true) × (walks (n ∷ d) p ≡ true))
  unfolding walks
  walks-first d [] h = inl (path_eq→≡ d [] h)
  walks-first d (n ∷ q) h = elim (Bool-cases (path_eq d (n ∷ q))) [
    | inl there ↦ inl (path_eq→≡ d (n ∷ q) there)
    | inr past ↦
        let l : lists q n ≡ true = ground arith in
        elim (walks-first d q (ground arith)) [
          | inl e ↦
              inr (n, rw e l, ground (arith, path_eq_refl (n ∷ q), ap (λ (p : RelPath). n ∷ p) e))
          | inr (k, l', w) ↦ inr (k, l', ground arith)
        ]
  ]

  -- Below an unreadable folder there is nothing.
  pub walks-unreadable :
      (d e p : RelPath)
      → walks d p ≡ true
      → is_under d e ≡ true
      → is_under e p ≡ true
      → read_node disk e ≡ none
      → e ≡ p
  unfolding lists lists_in
  walks-unreadable d e p h u v none_read = elim (walks-first e p (walks-through d e p h v u)) [
    | inl e' ↦ e'
    | inr (n, l, w) ↦ ground arith
  ]

  pub walks-next :
      (d q : RelPath) (n : String) → walks d q ≡ true → lists q n ≡ true → walks d (n ∷ q) ≡ true
  unfolding walks
  walks-next d q n w l = ground arith

  pub lists-of_child :
      (d : RelPath) (node : DirNode) (n : String)
      → read_node disk d ≡ some node
      → is_dir_child (get_child n node) ≡ true
      → lists d n ≡ true
  unfolding lists lists_in
  lists-of_child d node n e h = ground arith

  pub child-of_lists :
      (d : RelPath) (node : DirNode) (n : String)
      → read_node disk d ≡ some node
      → lists d n ≡ true
      → is_dir_child (get_child n node) ≡ true
  unfolding lists lists_in
  child-of_lists d node n e h = ground arith

  pub readable-of_lists :
      (d : RelPath) (n : String)
      → lists d n ≡ true
      → (node : DirNode) × (read_node disk d ≡ some node)
  unfolding lists lists_in
  readable-of_lists d n l = elim (Option-cases (read_node disk d)) [
    | inl failed ↦ absurd (ground arith)
    | inr (node, read) ↦ (node, read)
  ]

  pub tree-walked : (d p : RelPath) → walks d p ≡ true → tree d p ≡ read_node disk p
  unfolding tree
  tree-walked d p w = rw w

  pub tree-unwalked : (d p : RelPath) → walks d p ≡ false → tree d p ≡ none
  unfolding tree
  tree-unwalked d p w = rw w

pub lists_agree :
    (disk disk' : Disk) (q : RelPath) (n : String)
    → read_node disk q ≡ read_node disk' q
    → lists disk q n ≡ lists disk' q n
unfolding lists
lists_agree disk disk' q n e = ap (λ o. lists_in o n) e

pub is_under_trans :
    (a b c : RelPath) → is_under a b ≡ true → is_under b c ≡ true → is_under a c ≡ true
unfolding is_under
is_under_trans a b [] h k = subst (λ (q : RelPath). is_under a q ≡ true) (path_eq→≡ b [] k) h
is_under_trans a b (n ∷ q) h k = elim (Bool-cases (path_eq b (n ∷ q))) [
  | inl e ↦ subst (λ (x : RelPath). is_under a x ≡ true) (path_eq→≡ b (n ∷ q) e) h
  | inr above ↦ ground (arith, is_under_trans a b q)
]

pub is_under_refl : (p : RelPath) → is_under p p ≡ true
unfolding is_under
is_under_refl [] = refl
is_under_refl (n ∷ q) = ground (arith, path_eq_refl (n ∷ q))

pub removes-is_under : (d p : RelPath) → removes d p ≡ true → is_under d p ≡ true
unfolding removes
removes-is_under [] p h =
    subst (λ (q : RelPath). is_under [] q ≡ true) (path_eq→≡ [] p h) (is_under_refl [])
removes-is_under (n ∷ d) p h = h

pub removes_refl : (d : RelPath) → removes d d ≡ true
unfolding removes
removes_refl [] = refl
removes_refl (n ∷ d) = is_under_refl (n ∷ d)

pub insert_self :
    (d : RelPath) (node : DirNode) (m : Dirs) (p : RelPath)
    → path_eq d p ≡ true
    → insert d node m p ≡ some node
unfolding insert
insert_self d node m p e = rw e

pub insert_other :
    (d : RelPath) (node : DirNode) (m : Dirs) (p : RelPath)
    → path_eq d p ≡ false
    → insert d node m p ≡ m p
unfolding insert
insert_other d node m p e = rw e

pub remove_subtree_in :
    (d : RelPath) (m : Dirs) (p : RelPath) → removes d p ≡ true → remove_subtree d m p ≡ none
unfolding remove_subtree
remove_subtree_in d m p e = rw e

pub remove_subtree_out :
    (d : RelPath) (m : Dirs) (p : RelPath) → removes d p ≡ false → remove_subtree d m p ≡ m p
unfolding remove_subtree
remove_subtree_out d m p e = rw e
