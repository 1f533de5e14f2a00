-- ===== src/FuzzyIndex/Vault/Nodes.antt =====
-- What is read of one folder: the children stand under distinct names.
use zeromux.Prelude.{
  ℕ, ◌≡◌, refl, sym, ◌∙◌, subst, String, str_eq, eq_iff, Bool, true, false, none, some, List, [],
  ◌∷◌, arith, if◌then◌else◌, Bool-cases, Option-cases, inl, inr, All, any, if_cases,
}
use zeromux.FuzzyIndex.Vault.{
  RelPath, Disk, DirEntry, Child, dir, other, md, DirNode, insert_child, child_of, skip_name,
  add_entry, read_entries, read_node, get_child, is_dir_child, subdirs,
}
use zeromux.FuzzyIndex.Vault.Tree.{walks}

abbrev pub Distinct : DirNode → Type 0
Distinct [] = Unit {0}
Distinct ((n, c) ∷ node) = (get_child n node ≡ none) × Distinct node

pub get_child-insert_child :
    (n j : String) (c : Child) (node : DirNode)
    → get_child j (insert_child n c node) ≡ (if str_eq n j then some c else get_child j node)
unfolding get_child insert_child
get_child-insert_child n j c [] = refl
get_child-insert_child n j c ((k, d) ∷ node) =
    ground (arith, eq_iff n j, eq_iff k n, eq_iff k j, get_child-insert_child n j c node)

Distinct-insert_child :
    (n : String) (c : Child) (node : DirNode) → Distinct node → Distinct (insert_child n c node)
unfolding insert_child get_child
Distinct-insert_child n c [] h = ground arith
Distinct-insert_child n c ((k, d) ∷ node) h = ground (
  arith,
  eq_iff k n,
  eq_iff n k,
  get_child-insert_child n k c node,
  Distinct-insert_child n c node h.1,
)

Distinct-add_entry : (e : DirEntry) (node : DirNode) → Distinct node → Distinct (add_entry e node)
unfolding add_entry
Distinct-add_entry e node h =
    if_cases Distinct (skip_name e.name) node _ (λ _. h)
      (λ _.
        elim e.file_type
          as (λ t. Distinct (elim t [
            | none ↦ node
            | some ft ↦ elim (child_of ft e) [ none ↦ node | some c ↦ insert_child e.name c node ]
          ])) [
            | none ↦ h
            | some ft ↦
                elim (child_of ft e)
                  as (λ o.
                    Distinct (elim o [ none ↦ node | some c ↦ insert_child e.name c node ])) [
                      | none ↦ h
                      | some c ↦ Distinct-insert_child e.name c node h
                    ]
          ])

Distinct-read_entries :
    (es : List DirEntry) (node : DirNode) → Distinct node → Distinct (read_entries es node)
unfolding read_entries
Distinct-read_entries [] node h = h
Distinct-read_entries (e ∷ es) node h =
    Distinct-read_entries es (add_entry e node) (Distinct-add_entry e node h)

pub Distinct-read_node :
    (disk : Disk) (d : RelPath) (node : DirNode) → read_node disk d ≡ some node → Distinct node
unfolding read_node
Distinct-read_node disk d node h = elim (Option-cases (disk d)) [
  | inl failed ↦ ground arith
  | inr (es, read) ↦ subst Distinct (ground arith) (Distinct-read_entries es [] tt)
]

-- The folders of the queue are children that are folders.
abbrev pub IsListed : RelPath → DirNode → RelPath × ℕ → Type 0
IsListed d node (p, k) = (n : String) × (p ≡ n ∷ d) × (is_dir_child (get_child n node) ≡ true)

later-child :
    (n : String) (c : Child) (node : DirNode) (j : String) (x : Child)
    → get_child n node ≡ none
    → get_child j node ≡ some x
    → get_child j ((n, c) ∷ node) ≡ some x
unfolding get_child
later-child n c node j x h e = ground (arith, eq_iff n j)

first-child : (n : String) (c : Child) (node : DirNode) → get_child n ((n, c) ∷ node) ≡ some c
unfolding get_child
first-child n c node = ground (arith, eq_iff n n)

subdirs_from :
    (d : RelPath) (k : ℕ) (whole node : DirNode)
    → Distinct node
    → ((n : String) (c : Child) → get_child n node ≡ some c → get_child n whole ≡ some c)
    → All (IsListed d whole) (subdirs d k node)
unfolding subdirs
subdirs_from d k whole [] u h = tt
subdirs_from d k whole ((n, dir) ∷ node) u h = (
  (n, refl, rw (h n dir (first-child n dir node))),
  subdirs_from d k whole node u.1 (λ j x e. h j x (later-child n dir node j x u.0 e)),
)
subdirs_from d k whole ((n, other) ∷ node) u h =
    subdirs_from d k whole node u.1 (λ j x e. h j x (later-child n other node j x u.0 e))
subdirs_from d k whole ((n, md t) ∷ node) u h =
    subdirs_from d k whole node u.1 (λ j x e. h j x (later-child n (md t) node j x u.0 e))

pub subdirs-IsListed :
    (d : RelPath) (k : ℕ) (node : DirNode)
    → Distinct node
    → All (IsListed d node) (subdirs d k node)
subdirs-IsListed d k node u = subdirs_from d k node node u (λ n c e. e)

-- A path below a folder that is listed is below one of the queue.
abbrev pub queued : Disk → List (RelPath × ℕ) → RelPath → Bool
queued disk q p = any (λ e. walks disk e.0 p) q

pub queued-subdirs :
    (disk : Disk) (d : RelPath) (k : ℕ) (node : DirNode) (n : String) (p : RelPath)
    → is_dir_child (get_child n node) ≡ true
    → walks disk (n ∷ d) p ≡ true
    → queued disk (subdirs d k node) p ≡ true
unfolding subdirs get_child
queued-subdirs disk d k [] n p h w = cc
queued-subdirs disk d k ((j, dir) ∷ node) n p h w = elim (Bool-cases (str_eq j n)) [
  | inl same ↦ let e : j ≡ n = (eq_iff j n).0 same in rw (e, w)
  | inr more ↦ ground (arith, queued-subdirs disk d k node n p)
]
queued-subdirs disk d k ((j, other) ∷ node) n p h w =
    ground (arith, queued-subdirs disk d k node n p)
queued-subdirs disk d k ((j, md t) ∷ node) n p h w =
    ground (arith, queued-subdirs disk d k node n p)

-- No child of a folder has a name that is skipped.
abbrev pub Unskipped : DirNode → Type 0
Unskipped node = (n : String) (c : Child) → get_child n node ≡ some c → skip_name n ≡ false

Unskipped-insert_child :
    (n : String) (c : Child) (node : DirNode)
    → skip_name n ≡ false
    → Unskipped node
    → Unskipped (insert_child n c node)
Unskipped-insert_child n c node h k j x e = elim (Bool-cases (str_eq n j)) [
  | inl same ↦ subst (λ (y : String). skip_name y ≡ false) ((eq_iff n j).0 same) h
  | inr differs ↦ k j x (sym (get_child-insert_child n j c node ∙ rw differs) ∙ e)
]

Unskipped-add_entry :
    (e : DirEntry) (node : DirNode) → Unskipped node → Unskipped (add_entry e node)
unfolding add_entry
Unskipped-add_entry e node h =
    if_cases Unskipped (skip_name e.name) node _ (λ _. h)
      (λ shown.
        elim e.file_type
          as (λ t. Unskipped (elim t [
            | none ↦ node
            | some ft ↦ elim (child_of ft e) [ none ↦ node | some c ↦ insert_child e.name c node ]
          ])) [
            | none ↦ h
            | some ft ↦
                elim (child_of ft e)
                  as (λ o.
                    Unskipped (elim o [ none ↦ node | some c ↦ insert_child e.name c node ])) [
                      | none ↦ h
                      | some c ↦ Unskipped-insert_child e.name c node shown h
                    ]
          ])

Unskipped-read_entries :
    (es : List DirEntry) (node : DirNode) → Unskipped node → Unskipped (read_entries es node)
unfolding read_entries
Unskipped-read_entries [] node h = h
Unskipped-read_entries (e ∷ es) node h =
    Unskipped-read_entries es (add_entry e node) (Unskipped-add_entry e node h)

nothing_skipped : Unskipped []
unfolding get_child
nothing_skipped n c e = cc

pub Unskipped-read_node :
    (disk : Disk) (d : RelPath) (node : DirNode) → read_node disk d ≡ some node → Unskipped node
unfolding read_node
Unskipped-read_node disk d node h = elim (Option-cases (disk d)) [
  | inl failed ↦ λ n c e. ground arith
  | inr (es, read) ↦ subst Unskipped (ground arith) (Unskipped-read_entries es [] nothing_skipped)
]
