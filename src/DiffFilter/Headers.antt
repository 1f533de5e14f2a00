-- ===== src/DiffFilter/Headers.antt =====
-- How `diff_header_path` reads the headers that git writes.
use zeromux.DiffFilter.{
  worktree_path_excluded, path, excluded, unparseable, occurrences, rsplit_once, trim_line_end,
  quote, b_side, judge_sides, judge_split, two_way_header, is_quoted, combined_header,
  diff_header_path, skips,
}
use zeromux.Prelude.{
  ℕ, ◌+◌, ◌≡◌, refl, Bool, true, false, not, ◌&&◌, ◌||◌, none, some, [], ◌∷◌, ◌++◌, any, Text,
  codes, starts_with, strip_prefix, ◌==◌, if◌then◌else◌, All, Bool-cases, inl, inr, arith,
}
use zeromux.DiffFilter.Sections.{
  newline, Header, two_way, merged, merged_long, header_line, is_shown, is_plain, IsPath, IsHeader,
}

strip_prefix-append : (p t : Text) → strip_prefix p (p ++ t) ≡ some t
strip_prefix-append [] t = refl
strip_prefix-append (c ∷ p) t = ground (arith, strip_prefix-append p t)

occurrences-append :
    (x y : Text)
    → occurrences b_side (x ++ (b_side ++ y)) ≡ occurrences b_side x + (1 + occurrences b_side y)
unfolding occurrences
occurrences-append [] y = ground arith
occurrences-append (c ∷ []) y = ground arith
occurrences-append (c ∷ d ∷ []) y = ground arith
occurrences-append (c ∷ d ∷ e ∷ x) y = ground (arith, occurrences-append (d ∷ e ∷ x) y)

pub strip_prefix-none : (p t : Text) → starts_with p t ≡ false → strip_prefix p t ≡ none
strip_prefix-none [] t h = cc
strip_prefix-none (c ∷ p) [] h = refl
strip_prefix-none (c ∷ p) (d ∷ t) h = ground (arith, strip_prefix-none p t)

rsplit_once-none : (t : Text) → occurrences b_side t ≡ 0 → rsplit_once b_side t ≡ none
unfolding occurrences rsplit_once
rsplit_once-none [] h = refl
rsplit_once-none (c ∷ t) h =
    let later : occurrences b_side t ≡ 0 = ground arith in
    let here : starts_with b_side (c ∷ t) ≡ false = ground arith in
    rw (rsplit_once-none t later, strip_prefix-none b_side (c ∷ t) here)

rsplit_once-once :
    (x y : Text)
    → occurrences b_side (x ++ (b_side ++ y)) ≡ 1
    → rsplit_once b_side (x ++ (b_side ++ y)) ≡ some (x, y)
unfolding occurrences rsplit_once
rsplit_once-once [] y h =
    let later : occurrences b_side y ≡ 0 = omega (arith, occurrences-append [] y) in
    rw (rsplit_once-none y later)
rsplit_once-once (c ∷ x) y h =
    let all = occurrences-append (c ∷ x) y in
    let all' = occurrences-append x y in
    let once : occurrences b_side (x ++ (b_side ++ y)) ≡ 1 = ground arith in
    rw (rsplit_once-once x y once)

trim_line_end-plain : (p : Text) → All (λ c. is_plain c ≡ true) p → trim_line_end p ≡ p
unfolding trim_line_end
trim_line_end-plain [] h = refl
trim_line_end-plain (c ∷ p) h = ground (arith, trim_line_end-plain p h.1)

trim_line_end-newline :
    (p : Text) → All (λ c. is_plain c ≡ true) p → trim_line_end (p ++ newline) ≡ p
unfolding trim_line_end
trim_line_end-newline [] h = refl
trim_line_end-newline (c ∷ p) h = ground (arith, trim_line_end-newline p h.1)

any-append : (t : ℕ → Bool) (xs ys : Text) → any t (xs ++ ys) ≡ (any t xs || any t ys)
any-append t [] ys = refl
any-append t (x ∷ xs) ys = ground (arith, any-append t xs ys)

unquoted : (p : Text) → All (λ c. is_plain c ≡ true) p → any (λ c. c == quote) p ≡ false
unquoted [] h = refl
unquoted (c ∷ p) h = ground (arith, unquoted p h.1)

occurrences-newline : (p : Text) → occurrences b_side (p ++ newline) ≡ occurrences b_side p
unfolding occurrences
occurrences-newline [] = refl
occurrences-newline (c ∷ []) = ground arith
occurrences-newline (c ∷ d ∷ []) = ground arith
occurrences-newline (c ∷ d ∷ e ∷ p) = ground (arith, occurrences-newline (d ∷ e ∷ p))

diff_header_path-git :
    (rest : Text) → diff_header_path (codes "diff --git " ++ rest) ≡ two_way_header rest
unfolding diff_header_path
diff_header_path-git rest = refl

diff_header_path-cc :
    (rest : Text) → diff_header_path (codes "diff --cc " ++ rest) ≡ combined_header rest
unfolding diff_header_path
diff_header_path-cc rest = refl

diff_header_path-combined :
    (rest : Text) → diff_header_path (codes "diff --combined " ++ rest) ≡ combined_header rest
unfolding diff_header_path
diff_header_path-combined rest = refl

not_quoted : (p : Text) → All (λ c. is_plain c ≡ true) p → is_quoted p ≡ false
unfolding is_quoted
not_quoted [] h = refl
not_quoted (c ∷ p) h = ground (arith, h.0)

combined_header-path : (p : Text) → IsPath p → combined_header (p ++ newline) ≡ path p
unfolding combined_header
combined_header-path p h = rw (trim_line_end-newline p h.1, h.0, not_quoted p h.1)

-- What follows `diff --git `.
abbrev sides : Text → Text → Text
sides old new = (codes "a/" ++ old) ++ (b_side ++ (new ++ newline))

unquoted_sides :
    (old new : Text) → IsPath old → IsPath new → any (λ c. c == quote) (sides old new) ≡ false
unquoted_sides old new h k = ground (
  arith,
  any-append (λ c. c == quote) old (b_side ++ (new ++ newline)),
  any-append (λ c. c == quote) new newline,
  unquoted old h.1,
  unquoted new k.1,
)

occurrences-sides :
    (old new : Text)
    → occurrences b_side (sides old new) ≡ occurrences b_side old + (1 + occurrences b_side new)
unfolding occurrences
occurrences-sides old new =
    omega (arith, occurrences-append (codes "a/" ++ old) (new ++ newline), occurrences-newline new)

two_way_header-clear :
    (old new : Text)
    → IsPath old
    → IsPath new
    → occurrences b_side old ≡ 0
    → occurrences b_side new ≡ 0
    → two_way_header (sides old new)
      ≡ (if worktree_path_excluded old || worktree_path_excluded new then excluded else path new)
unfolding two_way_header judge_split judge_sides
two_way_header-clear old new h k none_old none_new =
    let once : occurrences b_side (sides old new) ≡ 1 = omega (arith, occurrences-sides old new) in
    rw (
      unquoted_sides old new h k,
      once,
      rsplit_once-once (codes "a/" ++ old) (new ++ newline) once,
      trim_line_end-plain old h.1,
      trim_line_end-newline new k.1,
      k.0,
    )

two_way_header-mixed :
    (old new : Text)
    → IsPath old
    → IsPath new
    → (occurrences b_side old == 0 && occurrences b_side new == 0) ≡ false
    → two_way_header (sides old new) ≡ unparseable
unfolding two_way_header
two_way_header-mixed old new h k mixed =
    let more : (occurrences b_side (sides old new) == 1) ≡ false =
      ground (arith, occurrences-sides old new) in
    rw (unquoted_sides old new h k, more)

skips-two_way :
    (old new : Text) (was : Bool)
    → skips
        (if worktree_path_excluded old || worktree_path_excluded new then excluded else path new)
        was
      ≡ (worktree_path_excluded old || worktree_path_excluded new)
unfolding skips
skips-two_way old new was = ground arith

-- The header's line is classified so that the section is skipped just if it is not to be shown.
pub skips_header :
    (h : Header) (was : Bool)
    → IsHeader h
    → skips (diff_header_path (header_line h)) was ≡ not (is_shown h)
unfolding skips
skips_header (merged p) was h =
    rw (diff_header_path-cc (p ++ newline), combined_header-path p h) (ground arith)
skips_header (merged_long p) was h =
    rw (diff_header_path-combined (p ++ newline), combined_header-path p h) (ground arith)
skips_header (two_way old new) was (h, k) =
    rw (diff_header_path-git (sides old new))
      (elim (Bool-cases (occurrences b_side old == 0 && occurrences b_side new == 0)) [
        | inr mixed ↦ rw (two_way_header-mixed old new h k mixed) (ground (arith, mixed))
        | inl clear ↦
            rw
              (
                two_way_header-clear old new h k (ground arith) (ground arith),
                skips-two_way old new was,
              )
              (ground (arith, clear))
      ])
