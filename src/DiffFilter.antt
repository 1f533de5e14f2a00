-- ===== src/DiffFilter.antt =====
-- What src/web.rs leaves out of the diffs that it serves: `filter_diff_excluded`, `diff_header_path`,
-- `worktree_path_excluded` and `is_credential_path`. A text is the list of its code points.
pub mod Headers
pub mod Kept
pub mod Sections
use zeromux.Paths.{components, last}
use zeromux.Prelude.{
  ℕ, ◌+◌, String, Bool, true, false, not, ◌&&◌, ◌||◌, Option, none, some, List, [], ◌∷◌, ◌++◌, map,
  any, retain, is_empty, Text, codes, text_eq, starts_with, ends_with, to_ascii_lowercase,
  strip_prefix, ◌==◌, if◌then◌else◌,
}

unfoldable pub any_of : (Text → Text → Bool) → List String → Text → Bool
any_of t [] n = false
any_of t (s ∷ ss) n = t (codes s) n || any_of t ss n

abbrev secret_names : List String
secret_names =
    ".aws" ∷ ".ssh" ∷ ".netrc" ∷ ".npmrc" ∷ ".pgpass" ∷ ".htpasswd" ∷ ".my.cnf" ∷ ".pypirc"
    ∷ ".s3cfg" ∷ ".dockercfg" ∷ ".local_secret" ∷ []

abbrev secret_endings : List String
secret_endings =
    ".env" ∷ ".pem" ∷ ".key" ∷ ".p12" ∷ ".pfx" ∷ ".jks" ∷ ".keystore" ∷ ".p8" ∷ ".ppk"
    ∷ "credentials" ∷ ".tfstate" ∷ ".tfstate.backup" ∷ ".tfvars" ∷ ".tfvars.json" ∷ ".secret" ∷ []

abbrev key_stems : List String
key_stems = "id_rsa" ∷ "id_dsa" ∷ "id_ecdsa" ∷ "id_ed25519" ∷ []

-- The disjuncts of the source, by the kind of their test.
unfoldable pub is_credential_path : Text → Bool
unfolding any_of
is_credential_path name =
    let n = to_ascii_lowercase name in
    starts_with (codes ".env") n
    || any_of text_eq secret_names n
    || any_of ends_with secret_endings n
    || any_of starts_with key_stems n && not (ends_with (codes ".pub") n)

abbrev pub sensitive_dir_names : List String
sensitive_dir_names = ".ssh" ∷ ".aws" ∷ ".gnupg" ∷ ".git" ∷ ".zeromux" ∷ ".zeromux-worktrees" ∷ []

unfoldable pub is_secret_leaf : Option Text → Bool
is_secret_leaf none = false
is_secret_leaf (some n) = not (text_eq n (codes "..")) && is_credential_path n

unfoldable pub worktree_path_excluded : Text → Bool
unfolding any_of components last is_secret_leaf
worktree_path_excluded path =
    any (any_of text_eq sensitive_dir_names) (components path)
    || is_secret_leaf (last (components path))

pub data DiffHeader : Type 0 where
  path : Text → DiffHeader
  excluded unparseable not_header : DiffHeader

-- `matches(…).count()`. The text that is sought does not overlap itself.
unfoldable pub occurrences : Text → Text → ℕ
occurrences sep [] = 0
occurrences sep (c ∷ cs) = (if starts_with sep (c ∷ cs) then 1 else 0) + occurrences sep cs

-- `rsplit_once`.
unfoldable pub rsplit_once : Text → Text → Option (Text × Text)
rsplit_once sep [] = none
rsplit_once sep (c ∷ cs) = elim (rsplit_once sep cs) [
  | some (a, b) ↦ some (c ∷ a, b)
  | none ↦ elim (strip_prefix sep (c ∷ cs)) [ none ↦ none | some b ↦ some ([], b) ]
]

abbrev pub is_line_end : ℕ → Bool
is_line_end c = c == b'\n' || c == 13

-- `trim_end_matches(['\n', '\r'])`.
unfoldable pub trim_line_end : Text → Text
trim_line_end [] = []
trim_line_end (c ∷ cs) =
    let rest = trim_line_end cs in if is_empty rest && is_line_end c then [] else c ∷ rest

abbrev pub quote : ℕ
quote = 34

abbrev pub b_side : Text
b_side = codes " b/"

judge_sides : Text → Text → DiffHeader
judge_sides a b =
    if is_empty b
    then unparseable
    else if worktree_path_excluded a || worktree_path_excluded b
    then excluded
    else path b

judge_split : Text → Option (Text × Text) → DiffHeader
unfolding judge_sides
judge_split rest none = elim (strip_prefix (codes "a/") rest) [
  | none ↦ unparseable
  | some a ↦ judge_sides (trim_line_end a) (trim_line_end a)
]
judge_split rest (some (a, b)) = elim (strip_prefix (codes "a/") a) [
  | none ↦ unparseable
  | some a' ↦ judge_sides (trim_line_end a') (trim_line_end b)
]

unfoldable pub two_way_header : Text → DiffHeader
unfolding judge_split
two_way_header rest =
    if any (λ c. c == quote) rest
    then unparseable
    else if not (occurrences b_side rest == 1)
    then unparseable
    else judge_split rest (rsplit_once b_side rest)

is_quoted : Text → Bool
is_quoted [] = false
is_quoted (c ∷ cs) = c == quote

unfoldable pub combined_header : Text → DiffHeader
unfolding is_quoted
combined_header rest =
    let p = trim_line_end rest in if is_empty p || is_quoted p then unparseable else path p

unfoldable pub diff_header_path : Text → DiffHeader
diff_header_path line = elim (strip_prefix (codes "diff --git ") line) [
  | some rest ↦ two_way_header rest
  | none ↦ elim (strip_prefix (codes "diff --cc ") line) [
    | some rest ↦ combined_header rest
    | none ↦ elim (strip_prefix (codes "diff --combined ") line) [
      | some rest ↦ combined_header rest
      | none ↦ not_header
    ]
  ]
]

unfoldable pub add_char : ℕ → List Text → List Text
add_char c [] = (c ∷ []) ∷ []
add_char c (l ∷ ls) = (c ∷ l) ∷ ls

-- `split_inclusive('\n')`.
unfoldable pub split_inclusive : Text → List Text
split_inclusive [] = []
split_inclusive (c ∷ cs) =
    let rest = split_inclusive cs in if c == b'\n' then (c ∷ []) ∷ rest else add_char c rest

unfoldable pub skips : DiffHeader → Bool → Bool
skips (path p) skipping = worktree_path_excluded p
skips excluded skipping = true
skips unparseable skipping = true
skips not_header skipping = skipping

unfoldable pub filter_lines : Bool → List Text → Text
filter_lines skipping [] = []
filter_lines skipping (l ∷ ls) =
    let now = skips (diff_header_path l) skipping in (if now then [] else l) ++ filter_lines now ls

unfoldable pub filter_diff_excluded : Text → Text
filter_diff_excluded diff = filter_lines false (split_inclusive diff)
