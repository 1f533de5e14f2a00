-- ===== src/PathGuards.antt =====
-- The guards of src/web.rs on the paths that a session's files are read and written at. A path from
-- the root is the list of its names, and `canonicalize` and the home directory are parameters.
pub mod Resolve
use zeromux.DiffFilter.{any_of, is_secret_leaf, sensitive_dir_names}
use zeromux.Paths.{components, last}
use zeromux.Prelude.{
  ℕ, String, Bool, true, false, ◌||◌, Option, none, some, List, [], ◌∷◌, ◌++◌, any, is_some, Text,
  codes, text_eq, starts_with, if◌then◌else◌,
}

pub data Resolved : Type 0 where
  ok : List Text → Resolved
  refused : ℕ → String → Resolved

-- `Path::strip_prefix`, which is by whole names.
abbrev pub strip_base : List Text → List Text → Option (List Text)
strip_base [] p = some p
strip_base (b ∷ bs) [] = none
strip_base (b ∷ bs) (n ∷ ns) = let rest = strip_base bs ns in if text_eq b n then rest else none

-- `PathBuf::pop`.
abbrev pub pop : List Text → List Text
pop [] = []
pop (n ∷ []) = []
pop (n ∷ k ∷ ns) = n ∷ pop (k ∷ ns)

abbrev pub is_parent_dir : Text → Bool
is_parent_dir n = text_eq n (codes "..")

unfoldable pub is_sensitive : Text → Bool
unfolding any_of
is_sensitive n = any_of text_eq sensitive_dir_names n

unfoldable pub path_hits_sensitive_dir : List Text → List Text → Bool
path_hits_sensitive_dir base canonical = elim (strip_base base canonical) [
  | none ↦ true
  | some rel ↦ any is_sensitive rel
]

below_home : Option (List Text) → Bool
below_home none = false
below_home (some []) = false
below_home (some (n ∷ ns)) = starts_with (codes ".") n

unfoldable pub read_hits_home_dotdir : Option (List Text) → List Text → Bool
unfolding below_home
read_hits_home_dotdir none canonical = true
read_hits_home_dotdir (some home) canonical = below_home (strip_base home canonical)

unfoldable pub is_write_blocked : Option (List Text) → List Text → List Text → Bool
is_write_blocked home base canonical =
    path_hits_sensitive_dir base canonical || read_hits_home_dotdir home canonical

unfoldable pub read_forbidden : Option (List Text) → List Text → List Text → Bool
unfolding last is_secret_leaf
read_forbidden home base real =
    path_hits_sensitive_dir base real
    || read_hits_home_dotdir home real
    || is_secret_leaf (last real)

-- The lexical layer: the probe after the components.
unfoldable pub probe_at : List Text → List Text → List Text → Resolved
probe_at base probe [] = ok probe
probe_at base probe (c ∷ cs) =
    let up = probe_at base (pop probe) cs in
    let down = probe_at base (probe ++ (c ∷ [])) cs in
    if is_parent_dir c
    then (if is_some (strip_base base (pop probe)) then up else refused 403 "Path traversal denied")
    else down

-- The physical layer.
unfoldable pub verify : (List Text → Option (List Text)) → List Text → List Text → Resolved
verify canonicalize base probe = elim (canonicalize probe) [
  | none ↦ refused 403 "Path not resolvable under workspace"
  | some real ↦
      if is_some (strip_base base real) then ok real else refused 403 "Path escapes workspace"
]

unfoldable pub verified : (List Text → Option (List Text)) → List Text → Resolved → Resolved
unfolding verify
verified canonicalize base (ok probe) = verify canonicalize base probe
verified canonicalize base (refused status message) = refused status message

-- A relative path, or an absolute one, by its components.
unfoldable pub resolve_components :
    (List Text → Option (List Text)) → List Text → Bool → List Text → Resolved
unfolding probe_at verified
resolve_components canonicalize base absolute cs =
    if absolute
    then refused 400 "Invalid path component"
    else verified canonicalize base (probe_at base base cs)

abbrev pub is_absolute : Text → Bool
is_absolute rel = starts_with (codes "/") rel

unfoldable pub resolve_and_verify : (List Text → Option (List Text)) → List Text → Text → Resolved
unfolding components resolve_components
resolve_and_verify canonicalize base rel =
    resolve_components canonicalize base (is_absolute rel) (components rel)

unfoldable pub attach : Option (List Text) → List Text → Text → Resolved → Resolved
unfolding is_write_blocked
attach home base leaf (ok real_parent) =
    let target = real_parent ++ (leaf ∷ []) in
    if is_write_blocked home base target
    then refused 403 "Writes to control directories denied"
    else ok target
attach home base leaf (refused status message) = refused status message

unfoldable pub resolve_write_target :
    Option (List Text) → (List Text → Option (List Text)) → List Text → Text → Resolved
unfolding components last resolve_components attach
resolve_write_target home canonicalize base rel = elim (last (components rel)) [
  | none ↦ refused 400 "Invalid path"
  | some leaf ↦
      if is_parent_dir leaf
      then refused 400 "Invalid path"
      else attach home base leaf
          (resolve_components canonicalize base (is_absolute rel) (pop (components rel)))
]
