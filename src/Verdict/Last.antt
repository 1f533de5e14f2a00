-- ===== src/Verdict/Last.antt =====
-- Which marker `extract_verdict` takes.
use zeromux.Prelude.{
  ℕ, ◌+◌, ◌≤◌, is_empty, zero, suc, ◌<◌, ◌≡◌, refl, ap, Bool, false, ◌||◌, Option, none, some, List,
  [], ◌∷◌, ◌++◌, Text, length, arith, length-append, starts_with, ◌⊎◌, inl, inr, if◌then◌else◌,
}
use zeromux.Prompts.{trim}
use zeromux.Verdict.{
  strip_prefix, split_once, verdict_open, verdict_close, verdict_rounds, non_empty, extract_verdict,
}

-- The marker stands somewhere in the text.
abbrev pub occurs : Text → Text → Bool
occurs marker [] = false
occurs marker (c ∷ cs) = starts_with marker (c ∷ cs) || occurs marker cs

-- In `before` and what follows it, the marker starts at a place of `before`.
abbrev pub starts_within : Text → Text → Text → Bool
starts_within marker [] rest = false
starts_within marker (c ∷ cs) rest =
    starts_with marker (c ∷ (cs ++ rest)) || starts_within marker cs rest

-- The text is `before`, the marker and `after`, and the marker does not start any earlier.
abbrev pub IsFirst : Text → Text → Text → Text → Type 0
IsFirst marker text before after =
    (before ++ (marker ++ after) ≡ text) × (starts_within marker before (marker ++ after) ≡ false)

-- The bodies of the complete markers of a text, from left to right. One starts at the first opening
-- marker and ends at the first closing one after that; the next one is looked for after it.
abbrev pub IsRead : Text → List Text → Type 0
IsRead text [] =
    (occurs verdict_open text ≡ false)
    ⊎ ((before : Text) × (after : Text) × IsFirst verdict_open text before after
        × (occurs verdict_close after ≡ false))
IsRead text (body ∷ bodies) =
    (before : Text) × (after : Text) × (tail : Text) × IsFirst verdict_open text before after
    × IsFirst verdict_close after body tail
    × IsRead tail bodies

abbrev pub latest : Option Text → List Text → Option Text
latest found [] = found
latest found (body ∷ bodies) = latest (some (trim body)) bodies

-- The last body, trimmed, if it is not empty then.
abbrev pub last_verdict : List Text → Option Text
last_verdict bodies = elim (latest none bodies) [
  | none ↦ none
  | some v ↦ if is_empty v then none else some v
]

strip_prefix_lem : (p s after : Text) → strip_prefix p s ≡ some after → p ++ after ≡ s
unfolding strip_prefix
strip_prefix_lem [] s after h = ground (arith)
strip_prefix_lem (p ∷ ps) [] after h = cc
strip_prefix_lem (p ∷ ps) (c ∷ cs) after h = ground (arith, strip_prefix_lem ps cs after)

strip_prefix-none : (p s : Text) → strip_prefix p s ≡ none → starts_with p s ≡ false
unfolding strip_prefix
strip_prefix-none [] s h = cc
strip_prefix-none (p ∷ ps) [] h = refl
strip_prefix-none (p ∷ ps) (c ∷ cs) h = ground (arith, strip_prefix-none ps cs)

-- What `split_once` finds: the first marker, or that there is none.
abbrev Splits : Text → Text → Option (Text × Text) → Type 0
Splits marker s none = occurs marker s ≡ false
Splits marker s (some (before, after)) = IsFirst marker s before after

later-Splits :
    (marker : Text) (c : ℕ) (cs : Text) (found : Option (Text × Text))
    → starts_with marker (c ∷ cs) ≡ false
    → Splits marker cs found
    → Splits marker
        (c ∷ cs)
        (elim found [ none ↦ none | some (before, after) ↦ some (c ∷ before, after) ])
later-Splits marker c cs none here h = rw here h
later-Splits marker c cs (some (before, after)) here (whole, first) =
    (ap (λ l. c ∷ l) whole, rw (whole, here) first)

here-Splits :
    (marker s : Text) (later : Option (Text × Text)) (o : Option Text)
    → strip_prefix marker s ≡ o
    → (starts_with marker s ≡ false → Splits marker s later)
    → Splits marker s (elim o [ none ↦ later | some after ↦ some ([], after) ])
here-Splits marker s later none e h = h (strip_prefix-none marker s e)
here-Splits marker s later (some after) e h = (strip_prefix_lem marker s after e, refl)

split_once-Splits : (marker s : Text) → Splits marker s (split_once marker s)
unfolding split_once
split_once-Splits marker [] = here-Splits marker [] none (strip_prefix marker []) refl (λ _. refl)
split_once-Splits marker (c ∷ cs) =
    here-Splits marker (c ∷ cs) _ (strip_prefix marker (c ∷ cs)) refl
      (λ here. later-Splits marker c cs (split_once marker cs) here (split_once-Splits marker cs))

length-IsFirst :
    (marker text before after : Text)
    → IsFirst marker text before after
    → length marker + length after ≤ length text
length-IsFirst marker text before after (e, _) =
    omega (arith, ap length e, length-append before (marker ++ after), length-append marker after)

-- The loop goes on with the markers of `rest`.
abbrev IsFollowed : Option Text → Text → Option Text → Type 0
IsFollowed found rest r = (bodies : List Text) × IsRead rest bodies × (r ≡ latest found bodies)

module _ (f : ℕ) (found : Option Text) (rest : Text)
    (later : (g : Option Text) (t : Text) → length t < f → IsFollowed g t (verdict_rounds f g t))
    (h : length rest < suc f) where
  closed-IsFollowed :
      (before after : Text) (o : Option (Text × Text))
      → IsFirst verdict_open rest before after
      → Splits verdict_close after o
      → IsFollowed found rest
          (elim o [ none ↦ found | some (body, tail) ↦ verdict_rounds f (some (trim body)) tail ])
  closed-IsFollowed before after none opened never = ([], inr (before, after, opened, never), refl)
  closed-IsFollowed before after (some (body, tail)) opened closed =
      let shorter : length tail < f = omega (
        arith,
        h,
        length-IsFirst verdict_open rest before after opened,
        length-IsFirst verdict_close after body tail closed,
      ) in
      let (bodies, read, same) = later (some (trim body)) tail shorter in
      (body ∷ bodies, (before, after, tail, opened, closed, read), same)

  opened-IsFollowed :
      (o : Option (Text × Text))
      → Splits verdict_open rest o
      → IsFollowed found rest (elim o [
        | none ↦ found
        | some (_, after) ↦ elim (split_once verdict_close after) [
          | none ↦ found
          | some (body, tail) ↦ verdict_rounds f (some (trim body)) tail
        ]
      ])
  opened-IsFollowed none never = ([], inl never, refl)
  opened-IsFollowed (some (before, after)) opened =
      closed-IsFollowed before after (split_once verdict_close after) opened
        (split_once-Splits verdict_close after)

verdict_rounds-IsFollowed :
    (f : ℕ) (found : Option Text) (rest : Text)
    → length rest < f
    → IsFollowed found rest (verdict_rounds f found rest)
unfolding verdict_rounds
verdict_rounds-IsFollowed zero found rest h = absurd (omega arith)
verdict_rounds-IsFollowed (suc f) found rest h =
    opened-IsFollowed f found rest (λ g t k. verdict_rounds-IsFollowed f g t k) h
      (split_once verdict_open rest) (split_once-Splits verdict_open rest)

-- The verdict of any text is the trimmed body of its last complete marker, if it has one and that body
-- is not blank, and none otherwise, where the complete markers are read from left to right: each goes
-- from the first opening marker to the first closing one after it, and the next starts after that.
pub extract_verdict_last :
    (text : Text)
    → (bodies : List Text) × IsRead text bodies × (extract_verdict text ≡ last_verdict bodies)
unfolding extract_verdict non_empty
extract_verdict_last text =
    let (bodies, read, same) =
      verdict_rounds-IsFollowed (suc (length text)) none text (omega arith) in
    (bodies, read, ground (arith, same))
