-- ===== src/FuzzyIndex/Vault.antt =====
-- `VaultModel` of src/fuzzy_index.rs: the folders of the vault and what they hold. A path below the
-- root is the list of its names, the last name first; the root is the empty list. No name holds a
-- slash. `dirs` is a function of the path. The disk answers what `read_dir` finds, or `none` where it
-- fails, and does not change during one walk. The watches that `on_dir` sets are not kept.
pub mod Tree
pub mod Nodes
pub mod Scan
pub mod Below
pub mod Links
pub mod Visit
pub mod Reconcile
pub mod Equivalence
pub mod FullScan
use zeromux.Prelude.{
  to_ascii_lowercase, ℕ, zero, suc, ◌+◌, ◌-◌, String, str_eq, Bool, true, false, not, ◌&&◌, ◌||◌,
  Option, none, some, List, [], ◌∷◌, ◌++◌, any, is_some, is_none, unwrap_or, ltb, ◌==◌,
  if◌then◌else◌, Text, codes, text_lt, starts_with, ends_with, map,
}

abbrev pub RelPath : Type 0
RelPath = List String

-- What `file_type` says of an entry; symbolic links are not followed.
pub data FileType : Type 0 where
  is_dir is_symlink is_other : FileType

pub record DirEntry : Type 0 where
  pub name : String
  pub file_type : Option FileType
  pub modified : Option ℕ

abbrev pub Disk : Type 0
Disk = RelPath → Option (List DirEntry)

pub data Child : Type 0 where
  dir other : Child
  md : ℕ → Child

-- The children of a folder, one to a name. The source keeps them by name in order; here they stand in
-- the order in which they are read, and no result depends on it.
abbrev pub DirNode : Type 0
DirNode = List (String × Child)

abbrev pub Dirs : Type 0
Dirs = RelPath → Option DirNode

abbrev noise : List String
noise = "node_modules" ∷ "target" ∷ "__pycache__" ∷ []

unfoldable pub skip_name : String → Bool
skip_name name = starts_with (codes ".") (codes name) || any (str_eq name) noise

-- `BTreeMap::insert`, but for the order.
unfoldable pub insert_child : String → Child → DirNode → DirNode
insert_child n c [] = (n, c) ∷ []
insert_child n c ((k, d) ∷ node) =
    let rest = insert_child n c node in if str_eq k n then (n, c) ∷ node else (k, d) ∷ rest

unfoldable pub is_md : String → Bool
is_md name = ends_with (codes ".md") (to_ascii_lowercase (codes name))

unfoldable pub child_of : FileType → DirEntry → Option Child
unfolding is_md
child_of is_symlink e = none
child_of is_dir e = some dir
child_of is_other e = some (if is_md e.name then md (unwrap_or e.modified 0) else other)

unfoldable pub add_entry : DirEntry → DirNode → DirNode
unfolding skip_name child_of
add_entry e node = if skip_name e.name then node else elim e.file_type [
  | none ↦ node
  | some ft ↦ elim (child_of ft e) [ none ↦ node | some c ↦ insert_child e.name c node ]
]

unfoldable pub read_entries : List DirEntry → DirNode → DirNode
read_entries [] node = node
read_entries (e ∷ es) node = read_entries es (add_entry e node)

unfoldable pub read_node : Disk → RelPath → Option DirNode
read_node disk rel = elim (disk rel) [ none ↦ none | some es ↦ some (read_entries es []) ]

abbrev pub path_eq : RelPath → RelPath → Bool
path_eq [] [] = true
path_eq [] (n ∷ q) = false
path_eq (n ∷ p) [] = false
path_eq (n ∷ p) (k ∷ q) = str_eq n k && path_eq p q

-- `rel` is the path or an ancestor of it.
unfoldable pub is_under : RelPath → RelPath → Bool
is_under rel [] = path_eq rel []
is_under rel (n ∷ q) = path_eq rel (n ∷ q) || is_under rel q

unfoldable pub insert : RelPath → DirNode → Dirs → Dirs
insert rel node m p = if path_eq rel p then some node else m p

-- The test is by the texts: no key starts with a slash, so that of the root is met by the root alone.
unfoldable pub removes : RelPath → RelPath → Bool
removes [] p = path_eq [] p
removes (n ∷ rel) p = is_under (n ∷ rel) p

unfoldable pub remove_subtree : RelPath → Dirs → Dirs
unfolding removes
remove_subtree rel m p = if removes rel p then none else m p

unfoldable pub get_child : String → DirNode → Option Child
get_child n [] = none
get_child n ((k, c) ∷ node) = let rest = get_child n node in if str_eq k n then some c else rest

abbrev pub is_dir_child : Option Child → Bool
is_dir_child none = false
is_dir_child (some dir) = true
is_dir_child (some other) = false
is_dir_child (some (md t)) = false

-- The folders among the children, as entries of the queue.
unfoldable pub subdirs : RelPath → ℕ → DirNode → List (RelPath × ℕ)
subdirs d depth [] = []
subdirs d depth ((n, dir) ∷ node) = (n ∷ d, depth) ∷ subdirs d depth node
subdirs d depth ((n, other) ∷ node) = subdirs d depth node
subdirs d depth ((n, md t) ∷ node) = subdirs d depth node

-- The walk fails only if the root cannot be read; the model's fuel may run out.
pub data Scanned : Type 0 where
  unreadable out_of_fuel : Scanned
  scanned : Dirs → Scanned

-- `usize::MAX`.
abbrev pub usize_max : ℕ
usize_max = 18446744073709551615

abbrev pub no_dirs : Dirs
no_dirs p = none

-- The children of a folder that the model had and the disk has not.
unfoldable pub gone : DirNode → String × Child → Bool
gone fresh (n, c) = is_dir_child (some c) && not (is_dir_child (get_child n fresh))

unfoldable pub drop_gone : RelPath → DirNode → DirNode → Dirs → Dirs
unfolding gone
drop_gone d fresh [] m = m
drop_gone d fresh (e ∷ old) m =
    drop_gone d fresh old (if gone fresh e then remove_subtree (e.0 ∷ d) m else m)

-- `entry(…).or_insert`.
unfoldable pub list_child : String → DirNode → DirNode
list_child n node = if is_some (get_child n node) then node else insert_child n dir node

-- Every ancestor lists the folder below it.
unfoldable pub link_ancestors : RelPath → Dirs → Dirs
unfolding list_child
link_ancestors [] m = m
link_ancestors (n ∷ parent) m =
    link_ancestors parent (insert parent (list_child n (unwrap_or (m parent) [])) m)

module _ (disk : Disk) where
  -- The loop of `scan_subtree_with` over its queue, on fuel.
  unfoldable pub scan_queue : ℕ → ℕ → List (RelPath × ℕ) → Dirs → Option Dirs
  scan_queue fuel max_depth [] m = some m
  scan_queue zero max_depth (e ∷ q) m = none
  scan_queue (suc fuel) max_depth ((d, depth) ∷ q) m = elim (read_node disk d) [
    | none ↦ scan_queue fuel max_depth q (remove_subtree d m)
    | some node ↦
        scan_queue fuel max_depth
          (q ++ (if ltb depth max_depth then subdirs d (depth + 1) node else [])) (insert d node m)
  ]

  unfoldable pub scan_subtree : ℕ → ℕ → RelPath → Dirs → Option Dirs
  scan_subtree fuel max_depth rel m = scan_queue fuel max_depth ((rel, 0) ∷ []) m

  unfoldable pub full_scan : ℕ → Scanned
  full_scan fuel = elim (read_node disk []) [
    | none ↦ unreadable
    | some node ↦ elim (scan_subtree fuel usize_max [] no_dirs) [
      | none ↦ out_of_fuel
      | some m ↦ scanned m
    ]
  ]

module _ (disk : Disk) (fuel : ℕ) where
  -- The last loop but one of `reconcile_dir_with`: a child that the model knew is given to
  -- `deeper`, a new one is walked.
  unfoldable pub visit_children :
      (RelPath → Dirs → Option Dirs) → RelPath → DirNode → DirNode → Dirs → Option Dirs
  visit_children deeper d old [] m = some m
  visit_children deeper d old ((n, other) ∷ node) m = visit_children deeper d old node m
  visit_children deeper d old ((n, md t) ∷ node) m = visit_children deeper d old node m
  visit_children deeper d old ((n, dir) ∷ node) m =
      elim (if is_dir_child (get_child n old) && is_some (m (n ∷ d))
        then deeper (n ∷ d) m
        else scan_subtree disk fuel usize_max (n ∷ d) m) [
          | none ↦ none
          | some m' ↦ visit_children deeper d old node m'
        ]

  unfoldable pub reread : (RelPath → Dirs → Option Dirs) → RelPath → DirNode → Dirs → Option Dirs
  reread deeper d fresh m =
      let old = unwrap_or (m d) [] in
      elim (visit_children deeper d old fresh (insert d fresh (drop_gone d fresh old m))) [
        | none ↦ none
        | some m' ↦ some (link_ancestors d m')
      ]

  unfoldable pub reconcile_with : (RelPath → Dirs → Option Dirs) → RelPath → Dirs → Option Dirs
  reconcile_with deeper d m =
      if any skip_name d then some (remove_subtree d m) else elim (read_node disk d) [
        | none ↦ some (remove_subtree d m)
        | some fresh ↦ reread deeper d fresh m
      ]

  unfoldable pub reconcile_dir : ℕ → RelPath → Dirs → Option Dirs
  reconcile_dir zero = reconcile_with (λ child m. some m)
  reconcile_dir (suc known_depth) = reconcile_with (reconcile_dir known_depth)
