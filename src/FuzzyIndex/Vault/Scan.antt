-- ===== src/FuzzyIndex/Vault/Scan.antt =====
-- The walk of `scan_subtree_with` finds the folders that the disk lists, and those alone.
use zeromux.Prelude.{
  ℕ, zero, suc, ◌+◌, ◌≤◌, ◌≡◌, refl, sym, ap, ◌∙◌, subst, Bool, true, false, ◌||◌, none, some, List,
  [], ◌∷◌, arith, if◌then◌else◌, Bool-cases, Option-cases, inl, inr, ◌⊎◌, ◌++◌, All, any, ltb,
  lt→ltb, if_cases,
}
use zeromux.FuzzyIndex.Vault.{
  RelPath, Disk, dir, other, md, DirNode, Dirs, read_node, path_eq, is_under, insert, removes,
  remove_subtree, subdirs, scan_queue, scan_subtree, usize_max,
}
use zeromux.FuzzyIndex.Vault.Tree.{
  path_eq→≡, path_eq_refl, walks, tree, walks_refl, walks-is_under, walks-first, walks-unreadable,
  walks-next, lists-of_child, child-of_lists, tree-walked, tree-unwalked, is_under_trans,
  is_under_refl, removes-is_under, removes_refl, insert_self, insert_other, remove_subtree_in,
  remove_subtree_out,
}
use zeromux.FuzzyIndex.Vault.Nodes.{
  Distinct-read_node, IsListed, subdirs-IsListed, queued, queued-subdirs,
}

any-append {ℓ} :
    {A : Type ℓ} (t : A → Bool) (xs ys : List A) → any t (xs ++ ys) ≡ (any t xs || any t ys)
any-append t [] ys = refl
any-append t (x ∷ xs) ys = ground (arith, any-append t xs ys)

All-append {ℓ κ} :
    {A : Type ℓ} (P : A → Type κ) (xs ys : List A) → All P xs → All P ys → All P (xs ++ ys)
All-append P [] ys a b = b
All-append P (x ∷ xs) ys a b = (a.0, All-append P xs ys a.1 b)

All-map {ℓ κ μ} :
    {A : Type ℓ} (P : A → Type κ) (Q : A → Type μ)
    → ((a : A) → P a → Q a)
    → (xs : List A) → All P xs
    → All Q xs
All-map P Q f [] a = tt
All-map P Q f (x ∷ xs) a = (f x a.0, All-map P Q f xs a.1)

module _ (disk : Disk) (top : RelPath) where
  -- Of the folders below `top` the model has some that the disk lists, and those it has not are below
  -- the queue. All else is as it was.
  record Explored (before m : Dirs) (q : List (RelPath × ℕ)) : Type 0 where
    reached : All (λ (e : RelPath × ℕ). walks disk top e.0 ≡ true) q
    outside : (p : RelPath) → is_under top p ≡ false → m p ≡ before p
    sound : (p : RelPath) → is_under top p ≡ true → (m p ≡ none) ⊎ (m p ≡ tree disk top p)
    complete :
        (p : RelPath) → walks disk top p ≡ true → (m p ≡ tree disk top p) ⊎ (queued disk q p ≡ true)

  listed-walks :
      (d : RelPath) (node : DirNode)
      → read_node disk d ≡ some node
      → walks disk top d ≡ true
      → (e : RelPath × ℕ) → IsListed d node e
      → walks disk top e.0 ≡ true
  listed-walks d node read w e (n, same, folder) =
      subst (λ (p : RelPath). walks disk top p ≡ true) (sym same)
        (walks-next disk top d n w (lists-of_child disk d node n read folder))

  -- A path that is read is below `top`.
  apart : (d p : RelPath) → is_under top d ≡ true → is_under top p ≡ false → is_under d p ≡ true → ⊥
  apart d p h out u = ground (arith, is_under_trans top d p h u)

  queued-append :
      (q r : List (RelPath × ℕ)) (p : RelPath)
      → queued disk (q ++ r) p ≡ (queued disk q p || queued disk r p)
  queued-append q r p = any-append (λ (e : RelPath × ℕ). walks disk e.0 p) q r

  requeued :
      (q r : List (RelPath × ℕ)) (p : RelPath)
      → (queued disk q p ≡ true) ⊎ (queued disk r p ≡ true)
      → queued disk (q ++ r) p ≡ true
  requeued q r p h = ground (arith, queued-append q r p)

  -- What is below the folder that leaves the queue is below its children.
  still_waits :
      (d : RelPath) (j : ℕ) (q : List (RelPath × ℕ)) (node : DirNode) (p : RelPath)
      → read_node disk d ≡ some node
      → path_eq d p ≡ false
      → (walks disk d p || queued disk q p) ≡ true
      → queued disk (q ++ subdirs d j node) p ≡ true
  still_waits d j q node p read there waits = elim (Bool-cases (walks disk d p)) [
    | inr beside ↦ requeued q (subdirs d j node) p (inl (ground arith))
    | inl below ↦ elim (walks-first disk d p below) [
      | inl e ↦ ground (arith, path_eq_refl d, ap (path_eq d) e)
      | inr (n, l, w) ↦
          requeued q (subdirs d j node) p
            (inr (queued-subdirs disk d j node n p (child-of_lists disk d node n read l) w))
    ]
  ]

  Explored-readable :
      (before m : Dirs) (d : RelPath) (k j : ℕ) (q : List (RelPath × ℕ)) (node : DirNode)
      → read_node disk d ≡ some node
      → Explored before m ((d, k) ∷ q)
      → Explored before (insert d node m) (q ++ subdirs d j node)
  Explored-readable before m d k j q node read v =
      let w = v.reached.0 in
      let kids = subdirs-IsListed d j node (Distinct-read_node disk d node read) in
      record {
        reached =
            All-append _ q (subdirs d j node) v.reached.1
              (All-map (IsListed d node) _ (listed-walks d node read w) (subdirs d j node) kids);
        outside = λ p out. elim (Bool-cases (path_eq d p)) [
          | inl here ↦ absurd (
              apart d p (walks-is_under disk top d w) out (
                subst (λ (x : RelPath). is_under d x ≡ true) (path_eq→≡ d p here)
                  (is_under_refl d)))
          | inr there ↦ insert_other d node m p there ∙ v.outside p out
        ];
        sound = λ p inside. elim (Bool-cases (path_eq d p)) [
          | inl here ↦ inr (
              insert_self d node m p here
              ∙ subst (λ (x : RelPath). some node ≡ tree disk top x) (path_eq→≡ d p here)
                  (sym (tree-walked disk top d w ∙ read)))
          | inr there ↦ rw (insert_other d node m p there) (v.sound p inside)
        ];
        complete = λ p wp. elim (Bool-cases (path_eq d p)) [
          | inl here ↦ inl (
              insert_self d node m p here
              ∙ subst (λ (x : RelPath). some node ≡ tree disk top x) (path_eq→≡ d p here)
                  (sym (tree-walked disk top d w ∙ read)))
          | inr there ↦ elim (v.complete p wp) [
            | inl e ↦ inl (insert_other d node m p there ∙ e)
            | inr waits ↦ inr (still_waits d j q node p read there waits)
          ]
        ];
      }

  Explored-unreadable :
      (before m : Dirs) (d : RelPath) (k : ℕ) (q : List (RelPath × ℕ))
      → read_node disk d ≡ none
      → Explored before m ((d, k) ∷ q)
      → Explored before (remove_subtree d m) q
  Explored-unreadable before m d k q read v =
      let under_top = walks-is_under disk top d v.reached.0 in
      record {
        reached = v.reached.1;
        outside = λ p out. elim (Bool-cases (removes d p)) [
          | inl hit ↦ absurd (apart d p under_top out (removes-is_under d p hit))
          | inr missed ↦ remove_subtree_out d m p missed ∙ v.outside p out
        ];
        sound = λ p inside. elim (Bool-cases (removes d p)) [
          | inl hit ↦ inl (remove_subtree_in d m p hit)
          | inr missed ↦ rw (remove_subtree_out d m p missed) (v.sound p inside)
        ];
        complete = λ p w. elim (Bool-cases (is_under d p)) [
          | inl below ↦
              let e = walks-unreadable disk top d p w under_top below read in
              let here = subst (λ (x : RelPath). removes d x ≡ true) e (removes_refl d) in
              let nothing = subst (λ (x : RelPath). read_node disk x ≡ none) e read in
              inl (remove_subtree_in d m p here ∙ sym (tree-walked disk top p w ∙ nothing))
          | inr beside ↦
              let missed : removes d p ≡ false = ground (arith, removes-is_under d p) in
              elim (v.complete p w) [
                | inl e ↦ inl (remove_subtree_out d m p missed ∙ e)
                | inr waits ↦ inr (ground (arith, walks-is_under disk d p))
              ]
        ];
      }

unfoldable pub weigh : (RelPath → ℕ) → List (RelPath × ℕ) → ℕ
weigh size [] = 0
weigh size (e ∷ q) = size e.0 + weigh size q

weigh-append :
    (size : RelPath → ℕ) (q r : List (RelPath × ℕ))
    → weigh size (q ++ r) ≡ weigh size q + weigh size r
unfolding weigh
weigh-append size [] r = omega arith
weigh-append size (e ∷ q) r = omega (arith, weigh-append size q r)

-- The size of what is below a folder: one for it and that of each of its folders. A disk that has such
-- sizes holds finitely many folders below each.
pub record Sizes (disk : Disk) : Type 0 where
  pub size : RelPath → ℕ
  pub positive : (d : RelPath) → 1 ≤ size d
  pub splits :
      (d : RelPath) (node : DirNode) (j : ℕ)
      → read_node disk d ≡ some node
      → suc (weigh size (subdirs d j node)) ≤ size d

-- No entry is so deep that the walk would stop there before its fuel is used up.
abbrev Shallow : ℕ → List (RelPath × ℕ) → Type 0
Shallow fuel q = All (λ (e : RelPath × ℕ). e.1 + fuel ≤ usize_max) q

Shallow-subdirs :
    (fuel depth : ℕ) (d : RelPath) (node : DirNode)
    → depth + fuel ≤ usize_max
    → Shallow fuel (subdirs d depth node)
unfolding subdirs
Shallow-subdirs fuel depth d [] h = tt
Shallow-subdirs fuel depth d ((n, dir) ∷ node) h = (h, Shallow-subdirs fuel depth d node h)
Shallow-subdirs fuel depth d ((n, other) ∷ node) h = Shallow-subdirs fuel depth d node h
Shallow-subdirs fuel depth d ((n, md t) ∷ node) h = Shallow-subdirs fuel depth d node h

module _ (disk : Disk) where
  scan_queue-unreadable :
      (fuel d_depth max : ℕ) (d : RelPath) (q : List (RelPath × ℕ)) (m : Dirs)
      → read_node disk d ≡ none
      → scan_queue disk (suc fuel) max ((d, d_depth) ∷ q) m
        ≡ scan_queue disk fuel max q (remove_subtree d m)
  unfolding scan_queue
  scan_queue-unreadable fuel k max d q m e = rw (scan_queue, e)

  scan_queue-readable :
      (fuel k max : ℕ) (d : RelPath) (q : List (RelPath × ℕ)) (m : Dirs) (node : DirNode)
      → read_node disk d ≡ some node
      → ltb k max ≡ true
      → scan_queue disk (suc fuel) max ((d, k) ∷ q) m
        ≡ scan_queue disk fuel max (q ++ subdirs d (k + 1) node) (insert d node m)
  unfolding scan_queue
  scan_queue-readable fuel k max d q m node e h = rw (scan_queue, e, h)

module _ (disk : Disk) (sizes : Sizes disk) (top : RelPath) where
  -- With fuel for every folder the loop ends, and then all of them are explored.
  scan_queue-Explored :
      (fuel : ℕ) (q : List (RelPath × ℕ)) (before m : Dirs)
      → weigh sizes.size q ≤ fuel
      → Shallow fuel q
      → Explored disk top before m q
      → (m' : Dirs) × (scan_queue disk fuel usize_max q m ≡ some m')
        × Explored disk top before m' []
  unfolding scan_queue weigh
  scan_queue-Explored fuel [] before m h deep v = (m, refl, v)
  scan_queue-Explored zero ((d, k) ∷ q) before m h deep v = absurd (omega (arith, sizes.positive d))
  scan_queue-Explored (suc fuel) ((d, k) ∷ q) before m h deep v =
      elim (Option-cases (read_node disk d)) [
        | inl failed ↦ rw (scan_queue-unreadable disk fuel k usize_max d q m failed) (
            scan_queue-Explored fuel q before (remove_subtree d m) (omega (arith, sizes.positive d))
              (All-map _ _ (λ (e : RelPath × ℕ) (l : e.1 + suc fuel ≤ usize_max). omega arith) q
                deep.1)
              (Explored-unreadable disk top before m d k q failed v))
        | inr (node, read) ↦
            let kids = subdirs d (k + 1) node in
            let shallow : ltb k usize_max ≡ true = lt→ltb k usize_max (omega arith) in
            rw (scan_queue-readable disk fuel k usize_max d q m node read shallow) (
              scan_queue-Explored fuel (q ++ kids) before (insert d node m)
                (omega (arith, weigh-append sizes.size q kids, sizes.splits d node (k + 1) read))
                (All-append _ q kids
                  (All-map _ _ (λ (e : RelPath × ℕ) (l : e.1 + suc fuel ≤ usize_max). omega arith) q
                    deep.1)
                  (Shallow-subdirs fuel (k + 1) d node (omega arith)))
                (Explored-readable disk top before m d k (k + 1) q node read v))
      ]

  Explored-start :
      (m : Dirs)
      → ((p : RelPath) → is_under top p ≡ true → m p ≡ none)
      → Explored disk top m m ((top, 0) ∷ [])
  Explored-start m blank = record {
    reached = (walks_refl disk top, tt);
    outside = λ p out. refl;
    sound = λ p inside. inl (blank p inside);
    complete = λ p w. inr (ground (arith, w));
  }

  Explored-end :
      (before m : Dirs) (p : RelPath)
      → Explored disk top before m []
      → is_under top p ≡ true
      → m p ≡ tree disk top p
  Explored-end before m p v inside = elim (Bool-cases (walks disk top p)) [
    | inl w ↦ elim (v.complete p w) [ inl e ↦ e | inr waits ↦ cc ]
    | inr no_walk ↦ elim (v.sound p inside) [
      | inl e ↦ e ∙ sym (tree-unwalked disk top p no_walk)
      | inr e ↦ e
    ]
  ]

  -- With fuel for the size of what is below it, the walk of a folder of which the model holds nothing
  -- ends with what the disk holds there, and leaves the rest alone.
  pub scan_subtree_lem :
      (fuel : ℕ) (m : Dirs)
      → sizes.size top ≤ fuel
      → fuel ≤ usize_max
      → ((p : RelPath) → is_under top p ≡ true → m p ≡ none)
      → (m' : Dirs) × (scan_subtree disk fuel usize_max top m ≡ some m')
        × ((p : RelPath) → m' p ≡ (if is_under top p then tree disk top p else m p))
  unfolding scan_subtree weigh
  scan_subtree_lem fuel m enough small blank =
      let (m', ends, v) =
        scan_queue-Explored fuel ((top, 0) ∷ []) m m (omega arith) (omega arith, tt)
          (Explored-start m blank) in
      (
        m',
        ends,
        λ p.
            if_cases (λ o. m' p ≡ o) (is_under top p) (tree disk top p) (m p)
              (Explored-end m m' p v) (v.outside p),
      )
