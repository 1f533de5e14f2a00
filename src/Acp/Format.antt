-- ===== src/Acp/Format.antt =====
-- src/acp/format.rs: the line that sums up a call of a tool.
use zeromux.Acp.Json.{Json, str_field, filled, or_else}
use zeromux.Paths.{components, last}
use zeromux.Prelude.{
  ℕ, String, str_eq, ◌||◌, Option, none, some, List, [], ◌∷◌, ◌++◌, length, take, is_empty, Text,
  codes, text_eq, leb, if◌then◌else◌,
}

unfoldable pub truncate_chars : Text → ℕ → Text
truncate_chars s max = if leb (length s) max then s else take max s ++ (0x2026 ∷ [])

-- A last component that is a name.
file_name : List Text → Option Text
unfolding last
file_name cs = elim (last cs) [
  | none ↦ none
  | some n ↦ if text_eq n (codes "..") then none else some n
]

parent : List Text → List Text
parent [] = []
parent (n ∷ []) = []
parent (n ∷ k ∷ ns) = n ∷ parent (k ∷ ns)

join_names : Text → Option Text → Option Text → Text
join_names p (some d) (some b) = if is_empty d then b else d ++ (codes "/" ++ b)
join_names p none (some b) = b
join_names p d none = p

unfoldable pub shorten_path : Text → Text
unfolding components file_name parent join_names
shorten_path p = join_names p (file_name (parent (components p))) (file_name (components p))

mapped : (Text → Text) → Option String → Option Text
mapped f none = none
mapped f (some s) = some (f (codes s))

within : Option String → Text → Text
unfolding shorten_path
within none s = s
within (some path) s = s ++ (codes " in " ++ shorten_path (codes path))

module _ (json : Json) where
  field : Option json.Value → String → Option String
  field none key = none
  field (some v) key = filled (str_field json v key)

  unfoldable pub format_tool_use : String → Option json.Value → Option Text
  unfolding truncate_chars shorten_path mapped within field
  format_tool_use name input =
      if str_eq name "Read" || str_eq name "Edit" || str_eq name "Write"
      then mapped shorten_path (field input "file_path")
      else if str_eq name "Bash"
      then mapped (λ s. truncate_chars s 80)
          (or_else (field input "description") (field input "command"))
      else if str_eq name "Grep"
      then mapped (λ s. within (field input "path") (truncate_chars s 80)) (field input "pattern")
      else if str_eq name "Glob"
      then mapped (λ s. truncate_chars s 80) (field input "pattern")
      else if str_eq name "Agent" || str_eq name "Task"
      then mapped (λ s. truncate_chars s 60) (field input "description")
      else none
