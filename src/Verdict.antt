-- ===== src/Verdict.antt =====
-- src/scheduled_tasks.rs `extract_verdict`: the last <<<VERDICT>>>..<<<END>>> of an agent's final text.
pub mod Last
use zeromux.Prelude.{
  ℕ, zero, suc, Option, none, some, [], ◌∷◌, Text, codes, ◌==◌, is_empty, if◌then◌else◌, length,
}
use zeromux.Prompts.{trim}

-- What follows the prefix, if the text starts with it.
strip_prefix : Text → Text → Option Text
strip_prefix [] s = some s
strip_prefix (p ∷ ps) [] = none
strip_prefix (p ∷ ps) (c ∷ cs) = let rest = strip_prefix ps cs in if p == c then rest else none

-- `str::find` with the slices that the caller takes: before and after the first occurrence.
pub split_once : Text → Text → Option (Text × Text)
unfolding strip_prefix
split_once marker [] = elim (strip_prefix marker []) [ none ↦ none | some after ↦ some ([], after) ]
split_once marker (c ∷ cs) =
    let later : Option (Text × Text) = elim (split_once marker cs) [
      | none ↦ none
      | some (before, after) ↦ some (c ∷ before, after)
    ] in
    elim (strip_prefix marker (c ∷ cs)) [ none ↦ later | some after ↦ some ([], after) ]

abbrev pub verdict_open : Text
verdict_open = codes "<<<VERDICT>>>"

abbrev pub verdict_close : Text
verdict_close = codes "<<<END>>>"

-- The loop, with `found` and `rest`. Each round shortens the rest, so its length is fuel enough.
verdict_rounds : ℕ → Option Text → Text → Option Text
unfolding split_once trim
verdict_rounds zero found rest = found
verdict_rounds (suc f) found rest = elim (split_once verdict_open rest) [
  | none ↦ found
  | some (_, after) ↦ elim (split_once verdict_close after) [
    | none ↦ found
    | some (body, tail) ↦ verdict_rounds f (some (trim body)) tail
  ]
]

non_empty : Option Text → Option Text
non_empty none = none
non_empty (some s) = if is_empty s then none else some s

unfoldable pub extract_verdict : Text → Option Text
unfolding verdict_rounds non_empty
extract_verdict text = non_empty (verdict_rounds (suc (length text)) none text)
