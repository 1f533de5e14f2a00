-- ===== src/DiffFilter/Sections.antt =====
-- A diff as git writes it, section by section, and what the filter leaves of it.
use zeromux.DiffFilter.{worktree_path_excluded, occurrences, is_line_end, quote, b_side}
use zeromux.Prelude.{
  ℕ, ◌≡◌, Bool, true, false, not, ◌&&◌, List, [], ◌∷◌, ◌++◌, any, is_empty, Text, codes,
  starts_with, ◌==◌, All,
}

abbrev pub newline : Text
newline = 10 ∷ []

-- A header of two sides, or one of the two that a merge has, with its paths unquoted.
pub data Header : Type 0 where
  two_way : Text → Text → Header
  merged merged_long : Text → Header

pub record Section : Type 0 where
  pub header : Header
  pub body : List Text

abbrev pub header_line : Header → Text
header_line (two_way old new) =
    codes "diff --git " ++ (codes "a/" ++ old) ++ (b_side ++ (new ++ newline))
header_line (merged p) = codes "diff --cc " ++ (p ++ newline)
header_line (merged_long p) = codes "diff --combined " ++ (p ++ newline)

abbrev pub body_text : List Text → Text
body_text [] = []
body_text (l ∷ ls) = (l ++ newline) ++ body_text ls

abbrev pub diff_text : List Section → Text
diff_text [] = []
diff_text (s ∷ ss) = header_line s.header ++ (body_text s.body ++ diff_text ss)

-- No side of the header is a path that is excluded, and neither holds what parts the sides.
abbrev pub is_shown : Header → Bool
is_shown (two_way old new) =
    not (worktree_path_excluded old)
    && not (worktree_path_excluded new)
    && (occurrences b_side old == 0 && occurrences b_side new == 0)
is_shown (merged p) = not (worktree_path_excluded p)
is_shown (merged_long p) = not (worktree_path_excluded p)

-- A path that git does not quote has no quotation mark and no end of a line.
abbrev pub is_plain : ℕ → Bool
is_plain c = not (c == quote) && not (is_line_end c)

abbrev pub IsPath : Text → Type 0
IsPath p = (is_empty p ≡ false) × All (λ c. is_plain c ≡ true) p

abbrev pub IsHeader : Header → Type 0
IsHeader (two_way old new) = IsPath old × IsPath new
IsHeader (merged p) = IsPath p
IsHeader (merged_long p) = IsPath p

-- A line of a section below its header: one line, and no header itself.
abbrev pub IsBodyLine : Text → Type 0
IsBodyLine l = (any (λ c. c == 10) l ≡ false) × (starts_with (codes "diff ") l ≡ false)

abbrev pub IsSection : Section → Type 0
IsSection s = IsHeader s.header × All IsBodyLine s.body
